-- ===== src/Metric/Series.antt =====
-- pkg/metric/series.go: a fixed number of recent observations in a slice that is overwritten from
-- the oldest on. An observation is any value of a type `A` with a zero; the code only moves it.
pub mod Window
pub mod Reads
use monny.Base.{
  ℕ, ◌+◌, ◌*◌, ◌/◌, ◌%◌, ◌^◌, ◌==◌, ltb, Option, none, some, List, [], ◌∷◌, ◌++◌, length, set, take,
  drop, replicate, map, str_eq, String, Result, ok, err, if◌then◌else◌, zero, suc,
}

-- `float64(n)` of a non-negative `int`: exact below 2^53, above it rounded to 53 significant bits,
-- to the even neighbour at a tie. Ten doublings of the spacing cover every `int`.
half_even : ℕ → ℕ → ℕ
half_even n m =
    let q = n / m in
    let r = n % m in
    if ltb (2 * r) m
    then q * m
    else (if ltb m (2 * r) then (q + 1) * m else (if q % 2 == 0 then q * m else (q + 1) * m))

spacing : ℕ → ℕ → ℕ → ℕ
spacing zero n m = m
spacing (suc fuel) n m =
    let wider = spacing fuel n (2 * m) in if ltb n (2 ^ 53 * m) then m else wider

unfoldable pub float_of_int : ℕ → ℕ
unfolding half_even spacing
float_of_int n = if ltb n (2 ^ 53) then n else half_even n (spacing 10 n 1)

-- `Name` of name.go: the name and its metadata
pub record Name : Type 0 where
  pub name : String
  pub md : List (String × String)

module _ {ℓ} {A : Type ℓ} where
  -- the index that `Record` overwrites. `math.Mod` of two whole floats is their remainder, and
  -- converting it back to `int` is exact.
  unfoldable pub index_of : ℕ → List A → ℕ
  index_of count values =
      let cap = length values in if cap == 0 then 0 else float_of_int count % float_of_int cap

-- `count` is an `int` that would need 2^63 calls of `Record` to wrap, and is unbounded here.
pub record Series {ℓ} (A : Type ℓ) : Type ℓ where
  pub name : Name
  pub count : ℕ
  pub values : List A

abbrev pub no_name : Name
no_name = record { name = ""; md = [] }

module _ {ℓ} {A : Type ℓ} where
  unfoldable pub next_index : Series A → ℕ
  next_index s = index_of s.count s.values

  unfoldable pub record_value : A → Series A → Series A
  record_value p s =
      if length s.values == 0
      then s
      else record s { values = set s.values (next_index s) p; count = s.count + 1 }

  -- `Values()`
  unfoldable pub values_of : Series A → List A
  values_of s =
      if ltb s.count (length s.values)
      then s.values
      else drop (next_index s) s.values ++ take (next_index s) s.values

  abbrev pub capacity : Series A → ℕ
  capacity s = length s.values

-- the errors of the constructor and its options
pub data SeriesError : Type 0 where
  bad_capacity empty_name : SeriesError

abbrev pub SeriesOption {ℓ} : Type ℓ → Type ℓ
SeriesOption A = Series A → Series A × Option SeriesError

module _ {ℓ} {A : Type ℓ} where
  unfoldable pub with_name : String → List (String × String) → SeriesOption A
  with_name name md s =
      if str_eq name ""
      then (s, some empty_name)
      else (record s { name = record { name = name; md = md } }, none)

  -- the loop of `WithValues`
  unfoldable pub record_all : List A → Series A → Series A
  record_all [] s = s
  record_all (v ∷ vs) s = record_all vs (record_value v s)

  unfoldable pub with_values : List A → SeriesOption A
  with_values vs s = (record_all vs s, none)

  unfoldable pub apply_options : List (SeriesOption A) → Series A → Result SeriesError (Series A)
  apply_options [] s = ok s
  apply_options (opt ∷ opts) s =
      let (s', e) = opt s in elim e [ none ↦ apply_options opts s' | some x ↦ err x ]

  -- `Reset()`: the loop writes zero over every value
  unfoldable pub reset : A → Series A → Series A
  reset nought s = record s { count = 0; values = map (λ v. nought) s.values }

  -- `NewSeries(cap, opts...)`; a negative capacity is refused with the same error
  unfoldable pub new_series : A → ℕ → List (SeriesOption A) → Result SeriesError (Series A)
  new_series nought cap opts =
      if cap == 0
      then err bad_capacity
      else apply_options opts (record { name = no_name; count = 0; values = replicate cap nought })
