-- ===== src/Command/Smaps/Totals.antt =====
-- What the measured memory is (pkg/monny/memory.go, calculateMemory).
use monny.Base.{
  ℕ, ◌+◌, ◌%◌, ◌^◌, ◌<◌, ◌≡◌, refl, sym, ap, ◌∙◌, String, Bool, true, false, List, [], ◌∷◌, Option,
  none, some, Bool-cases, inl, inr, if_true, if_false, if◌then◌else◌, arith,
}
use monny.Command.Smaps.{
  Smaps, Scanning, add_size, with_size, sum_sizes, unless_failed, calculate_memory,
}

-- the sum of the sizes without a wrap-around, none where one cannot be read
abbrev pub total_of : Option ℕ → Option ℕ → Option ℕ
total_of none rest = none
total_of (some size) none = none
total_of (some size) (some rest) = some (size + rest)

unfoldable pub total_size : Scanning → List String → Option ℕ
total_size s [] = some 0
total_size s (line ∷ lines) =
    let rest = total_size s lines in
    let counted = total_of (s.scan_size line) rest in if s.is_pss line then counted else rest

abbrev wrapped : ℕ → Option ℕ → Option ℕ
wrapped res none = none
wrapped res (some total) = some ((res + total) % 2 ^ 64)

wrapped-add :
    (res size : ℕ) (rest : Option ℕ)
    → wrapped (add_size res size) rest ≡ wrapped res (total_of (some size) rest)
wrapped-add res size none = refl
wrapped-add res size (some rest) =
    let same : ((res + size) % 2 ^ 64 + rest) % 2 ^ 64 ≡ (res + (size + rest)) % 2 ^ 64 =
      omega arith in
    ap some same

-- a line with a size, from what holds for the lines behind it
counted :
    (s : Scanning) (lines : List String) (res : ℕ) (o : Option ℕ)
    → ((r : ℕ) → r < 2 ^ 64 → sum_sizes s r lines ≡ wrapped r (total_size s lines))
    → with_size (λ size. sum_sizes s (add_size res size) lines) o
      ≡ wrapped res (total_of o (total_size s lines))
counted s lines res none rest = refl
counted s lines res (some size) rest =
    rest (add_size res size) (omega arith) ∙ wrapped-add res size (total_size s lines)

sum_sizes-total_size :
    (s : Scanning) (lines : List String) (res : ℕ)
    → res < 2 ^ 64
    → sum_sizes s res lines ≡ wrapped res (total_size s lines)
unfolding sum_sizes total_size
sum_sizes-total_size s [] res small =
    let same : res ≡ (res + 0) % 2 ^ 64 = omega arith in ap some same
sum_sizes-total_size s (line ∷ lines) res small = elim (Bool-cases (s.is_pss line)) [
  | inr other ↦
      if_false _ _ other
      ∙ (sum_sizes-total_size s lines res small ∙ ap (wrapped res) (sym (if_false _ _ other)))
  | inl pss ↦
      if_true _ _ pss
      ∙ (counted s lines res (s.scan_size line) (sum_sizes-total_size s lines)
          ∙ ap (wrapped res) (sym (if_true _ _ pss)))
]

abbrev pub measured : Bool → Option ℕ → ℕ
measured failed none = 0
measured failed (some total) = if failed then 0 else total % 2 ^ 64

-- The memory of a process is the sum of the sizes of all its lines with the prefix, modulo 2^64,
-- however often the sum wraps on the way; and 0 where one of the sizes cannot be read or the
-- scanner ends with an error. It always fits a uint64.
pub calculate_memory-total_size :
    (s : Scanning) (smaps : Smaps)
    → (calculate_memory s (some smaps) ≡ measured smaps.failed (total_size s smaps.lines))
      × (calculate_memory s (some smaps) < 2 ^ 64)
unfolding calculate_memory
calculate_memory-total_size s smaps =
    let same =
      ap (unless_failed smaps.failed) (sum_sizes-total_size s smaps.lines 0 (omega arith))
      ∙ settled smaps.failed (total_size s smaps.lines) in
    (same, omega (arith, same, bounded smaps.failed (total_size s smaps.lines)))
  where
    settled :
        (failed : Bool) (o : Option ℕ) → unless_failed failed (wrapped 0 o) ≡ measured failed o
    settled failed none = refl
    settled true (some total) = refl
    settled false (some total) = omega arith

    bounded : (failed : Bool) (o : Option ℕ) → measured failed o < 2 ^ 64
    bounded failed none = omega arith
    bounded true (some total) = omega arith
    bounded false (some total) = omega arith
