-- ===== src/Config/Limits.antt =====
-- The memory limits (pkg/monny/config.go, MemoryWarn and MemoryKill).
use Prim.Native.Char.{Char}
use Prim.Native.String.{String}
use monny.Base.{ℕ, suc, ◌*◌, ◌-◌, ◌^◌, ◌<◌, ◌≡◌, ap, ◌∙◌, some, arith}
use monny.Base.Int.{ℤ, pos, negsuc, ◌*ℤ◌}
use monny.Base.Strconv.{itoa, itoa_onto, atoi, atoi-itoa, strip_last-itoa_onto, IsInt64}
use monny.Config.Options.{memory_limit, unit_of, split_unit, to_uint64}

pub data MemoryUnit : Type 0 where
  kilo mega giga : MemoryUnit

abbrev pub letter : MemoryUnit → Char
letter kilo = "K"
letter mega = "M"
letter giga = "G"

abbrev pub kilos : MemoryUnit → ℕ
kilos kilo = 1
kilos mega = 1000
kilos giga = 1_000_000

-- an integer with its unit
abbrev pub with_unit : ℤ → MemoryUnit → String
with_unit z u = itoa_onto z (String.◌∷◌ (letter u) String.[])

split_unit-with_unit : (z : ℤ) (u : MemoryUnit) → split_unit (with_unit z u) ≡ (itoa z, kilos u)
split_unit-with_unit z kilo = ap (unit_of (with_unit z kilo)) (strip_last-itoa_onto z "K")
split_unit-with_unit z mega = ap (unit_of (with_unit z mega)) (strip_last-itoa_onto z "M")
split_unit-with_unit z giga = ap (unit_of (with_unit z giga)) (strip_last-itoa_onto z "G")

memory_limit_lem :
    (mem number : String) (factor : ℕ) {z : ℤ}
    → split_unit mem ≡ (number, factor)
    → atoi number ≡ some z
    → memory_limit mem ≡ some (to_uint64 (z *ℤ pos factor))
unfolding memory_limit
memory_limit_lem mem number factor e read = ground arith

memory_limit-with_unit :
    (z : ℤ) (u : MemoryUnit)
    → IsInt64 z
    → memory_limit (with_unit z u) ≡ some (to_uint64 (z *ℤ pos (kilos u)))
memory_limit-with_unit z u h =
    memory_limit_lem (with_unit z u) (itoa z) (kilos u) (split_unit-with_unit z u) (atoi-itoa z h)

int_of_product : (n : ℕ) (u : MemoryUnit) → suc n * kilos u < 2 ^ 63 → n < 2 ^ 63
int_of_product n kilo h = omega arith
int_of_product n mega h = omega arith
int_of_product n giga h = omega arith

to_uint64-product :
    (n : ℕ) (u : MemoryUnit)
    → suc n * kilos u < 2 ^ 63
    → (to_uint64 (pos n *ℤ pos (kilos u)) ≡ n * kilos u)
      × (to_uint64 (negsuc n *ℤ pos (kilos u)) ≡ 2 ^ 64 - suc n * kilos u)
unfolding to_uint64 ◌*ℤ◌
to_uint64-product n kilo h = ground arith
to_uint64-product n mega h = ground arith
to_uint64-product n giga h = ground arith

-- Where the product of an `int` and its unit fits an `int`, a limit of `n` is that many kilobytes;
-- but a limit of -(n + 1) is not refused: it becomes 2 ^ 64 less the
-- product.
pub memory_limit_bounds :
    (n : ℕ) (u : MemoryUnit)
    → suc n * kilos u < 2 ^ 63
    → (memory_limit (with_unit (pos n) u) ≡ some (n * kilos u))
      × (memory_limit (with_unit (negsuc n) u) ≡ some (2 ^ 64 - suc n * kilos u))
memory_limit_bounds n u h =
    let (up, down) = to_uint64-product n u h in
    let small = int_of_product n u h in
    (
      memory_limit-with_unit (pos n) u small ∙ ap some up,
      memory_limit-with_unit (negsuc n) u small ∙ ap some down,
    )
