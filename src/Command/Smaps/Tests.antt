-- ===== src/Command/Smaps/Tests.antt =====
-- The memory of a process with two mappings (pkg/monny/memory.go).
use monny.Base.{◌≡◌, refl, ◌^◌, ◌-◌, ◌<◌, true, false, [], ◌∷◌, some, str_eq, if◌then◌else◌}
use monny.Command.Smaps.{Smaps, Scanning, calculate_memory, env_to_key_value}
use monny.Command.Smaps.Totals.{measured, total_size, calculate_memory-total_size}

abbrev scanning : Scanning
scanning = record {
  is_pss = λ line. if str_eq line "Size: 8 kB" then false else true;
  scan_size = λ line. if str_eq line "Pss: 4 kB" then some 4 else some (2 ^ 64 - 1);
}

abbrev smaps : Smaps
smaps = record {
  lines = "Size: 8 kB" ∷ "Pss: 4 kB" ∷ "Pss: 18446744073709551615 kB" ∷ [];
  failed = false;
}

calculate_memory-total_size_example :
    (calculate_memory scanning (some smaps) ≡ measured false (total_size scanning smaps.lines))
    × (calculate_memory scanning (some smaps) < 2 ^ 64)
calculate_memory-total_size_example = calculate_memory-total_size scanning smaps

wraps : calculate_memory scanning (some smaps) ≡ 3
unfolding calculate_memory
wraps = refl

one_variable : env_to_key_value (λ k. k) (("HOME", "/root") ∷ []) ≡ "HOME=/root" ∷ []
unfolding env_to_key_value
one_variable = refl
