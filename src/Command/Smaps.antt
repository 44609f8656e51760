-- ===== src/Command/Smaps.antt =====
-- pkg/monny/memory.go, memory_windows.go and env.go: the memory of a process, as the sum of its
-- proportional set sizes, and the variables of an environment. Reading the file of the process,
-- fmt.Sscanf and strings.ToUpper are parameters.
pub mod Totals
mod Tests
use Prim.Native.String.{◌++◌ as ◌<>◌}
use monny.Base.{
  ℕ, ◌+◌, ◌%◌, ◌^◌, String, Bool, List, [], ◌∷◌, Option, none, some, if◌then◌else◌, map,
}

-- What the scanner gives of `/proc/<pid>/smaps`: its lines, and whether it ended with an error.
-- `is_pss` tells whether a line has the prefix "Pss:", `scan_size` reads the `uint64` behind it.
pub record Smaps : Type 0 where
  pub lines : List String
  pub failed : Bool

pub record Scanning : Type 0 where
  pub is_pss : String → Bool
  pub scan_size : String → Option ℕ

-- `res += size` of two `uint64`
abbrev pub add_size : ℕ → ℕ → ℕ
add_size res size = (res + size) % 2 ^ 64

abbrev pub with_size : (ℕ → Option ℕ) → Option ℕ → Option ℕ
with_size rest none = none
with_size rest (some size) = rest size

-- the loop over the lines, with the sum so far; none where a size cannot be read
unfoldable pub sum_sizes : Scanning → ℕ → List String → Option ℕ
sum_sizes s res [] = some res
sum_sizes s res (line ∷ lines) =
    let skipped = sum_sizes s res lines in
    let read = with_size (λ size. sum_sizes s (add_size res size) lines) (s.scan_size line) in
    if s.is_pss line then read else skipped

abbrev pub unless_failed : Bool → Option ℕ → ℕ
unless_failed failed none = 0
unless_failed failed (some res) = if failed then 0 else res

-- `calculateMemory(pid)` by what opening the file gives
unfoldable pub calculate_memory : Scanning → Option Smaps → ℕ
unfolding sum_sizes
calculate_memory s none = 0
calculate_memory s (some smaps) = unless_failed smaps.failed (sum_sizes s 0 smaps.lines)

-- `envToKeyValue(env)`, over the entries of the map in the order of the loop
unfoldable pub env_to_key_value : (String → String) → List (String × String) → List String
env_to_key_value to_upper env = map (λ entry. to_upper entry.0 <> ("=" <> entry.1)) env
