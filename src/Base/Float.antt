-- ===== src/Base/Float.antt =====
-- Go's `float64` as an interface: the operations that the program uses, over any type of values.
-- No law is assumed of them.
use monny.Base.{ℕ, ◌+◌, ◌-◌, ◌*◌, ◌/◌, ◌^◌, Bool, false, ltb, leb, if◌then◌else◌}

pub record Float {ℓ} (F : Type ℓ) : Type ℓ where
  pub nought : F
  pub one : F
  pub add : F → F → F
  pub sub : F → F → F
  pub mul : F → F → F
  pub div : F → F → F
  pub sqrt : F → F
  pub log : F → F
  pub pow : F → F → F
  pub min : F → F → F
  pub max : F → F → F
  -- the comparisons `<` and `<=`, false where a side is not a number
  pub lt : F → F → Bool
  pub le : F → F → Bool
  pub is_nan : F → Bool
  -- `math.IsInf(x, 1)` and `math.IsInf(x, -1)`
  pub is_inf : F → Bool
  pub is_neg_inf : F → Bool
  -- `float64(n)` of a non-negative `int`
  pub of_int : ℕ → F
  -- the literal `digits / 10 ^ places`
  pub literal : ℕ → ℕ → F

-- Whole numbers stand in for floats where a concrete value is wanted.
instance abbrev pub whole : Float ℕ
whole = record {
  nought = 0;
  one = 1;
  add = ◌+◌;
  sub = ◌-◌;
  mul = ◌*◌;
  div = ◌/◌;
  sqrt = λ x. x;
  log = λ x. x;
  pow = ◌^◌;
  min = λ a b. if leb a b then a else b;
  max = λ a b. if leb a b then b else a;
  lt = ltb;
  le = leb;
  is_nan = λ x. false;
  is_inf = λ x. false;
  is_neg_inf = λ x. false;
  of_int = λ n. n;
  literal = λ digits places. digits / 10 ^ places;
}
