-- ===== src/Stat/Suite.antt =====
-- pkg/stat/stattest.go, lognormal.go and poisson.go: a test runs several statistics over the same
-- observations. `[]*TestStatistic` is a list of statistics over one kind of series; no two of its
-- pointers are equal.
pub mod Errors
pub mod Latch
use monny.Base.{
  Bool, true, false, ◌||◌, Option, none, some, List, [], ◌∷◌, ◌++◌, Result, ok, err, map,
  if◌then◌else◌, ℕ, String,
}
use monny.Base.Int.{ℤ, pos}
use monny.Base.Float.{Float}
use monny.Metric.Recorder.{Recorder}
use monny.Metric.Series.{Name, Series}
use monny.Metric.Sampled.{SampledSeries, sample_sum}
use monny.Fsm.{State, FsmError}
use monny.Stat.Pdf.{Pdf, error_rate, log_normal, log_normal_series, poisson, poisson_series}
use monny.Stat.Statistic
use monny.Stat.Statistic.{TestStatistic, StatError, record_obs, move_to, new_ewma_statistic}

pub record Test {ℓ κ} (F : Type ℓ) (S : Type κ) : Type (ℓ ⊔ κ) where
  pub name : Name
  pub sub : List (TestStatistic F S)

module _ {ℓ κ} {F : Type ℓ} {S : Type κ} ⦃f : Float F⦄ ⦃r : Recorder F S⦄ where
  -- the loop of `Record`: the first error ends it
  unfoldable pub record_subs :
      F → List (TestStatistic F S) → List (TestStatistic F S) × Option StatError
  record_subs obs [] = ([], none)
  record_subs obs (s ∷ sub) =
      let (s', e) = record_obs obs s in
      let (sub', e') = record_subs obs sub in
      elim e [ none ↦ (s' ∷ sub', e') | some x ↦ (s' ∷ sub, some x) ]

  unfoldable pub record_test : F → Test F S → Test F S × Option StatError
  unfolding record_subs
  record_test obs t = let (sub, e) = record_subs obs t.sub in (record t { sub = sub }, e)

  -- the loop of `Transition`
  unfoldable pub move_subs :
      State → Bool → List (TestStatistic F S) → List (TestStatistic F S) × Option FsmError
  move_subs state reset [] = ([], none)
  move_subs state reset (s ∷ sub) =
      let (s', e) = move_to state reset s in
      let (sub', e') = move_subs state reset sub in
      elim e [ none ↦ (s' ∷ sub', e') | some x ↦ (s' ∷ sub, some x) ]

  unfoldable pub move_test : State → Bool → Test F S → Test F S × Option FsmError
  unfolding move_subs
  move_test state reset t =
      let (sub, e) = move_subs state reset t.sub in (record t { sub = sub }, e)

  unfoldable pub any_alarmed : List (TestStatistic F S) → Bool
  any_alarmed [] = false
  any_alarmed (s ∷ sub) = if Statistic.has_alarmed s then true else any_alarmed sub

  unfoldable pub has_alarmed : Test F S → Bool
  unfolding any_alarmed
  has_alarmed t = any_alarmed t.sub

module _ {ℓ κ} {F : Type ℓ} {S : Type κ} where
  -- `State()`
  unfoldable pub states : Test F S → List State
  states t = map (λ s. s.machine.current) t.sub

  unfoldable pub with_statistic : TestStatistic F S → Test F S → Test F S × Option StatError
  with_statistic e t = (record t { sub = t.sub ++ (e ∷ []) }, none)

  unfoldable pub apply_options :
      List (Test F S → Test F S × Option StatError) → Test F S → Result StatError (Test F S)
  apply_options [] t = ok t
  apply_options (opt ∷ opts) t =
      let (t', e) = opt t in elim e [ none ↦ apply_options opts t' | some x ↦ err x ]

  -- the common text of `NewLogNormalTest` and `NewPoissonTest`, over the default statistics
  unfoldable pub new_test :
      List (TestStatistic F S)
      → Name
      → List (Test F S → Test F S × Option StatError)
      → Result StatError (Test F S)
  unfolding apply_options
  new_test defaults name opts = elim (apply_options opts (record { name = name; sub = [] })) [
    | err e ↦ err e
    | ok t ↦ elim t.sub [ [] ↦ ok (record t { sub = defaults }) | s ∷ sub ↦ ok t ]
  ]

-- fifteen seconds, as a duration
abbrev sample_window : ℤ
sample_window = pos 15_000_000_000

module _ {ℓ} {F : Type ℓ} ⦃f : Float F⦄ where
  -- `est, _ := NewEWMAStatistic(...)`: a statistic, or nil where an error is dropped
  abbrev pub statistic_or_nil {κ} :
      {S : Type κ} {E : Type 0} → String → F → Pdf F → Result E S → Option (TestStatistic F S)
  statistic_or_nil name lambda pdf (err e) = none
  statistic_or_nil name lambda pdf (ok s) = elim (new_ewma_statistic name lambda pdf s) [
    | err e ↦ none
    | ok t ↦ some t
  ]

  unfoldable pub default_log_normal_ewma : Option (TestStatistic F (Series F))
  default_log_normal_ewma =
      statistic_or_nil "ewma" (f.literal 25 2) (log_normal (error_rate (f.literal 5 2)))
        (log_normal_series 50)

  unfoldable pub default_log_normal_shewart : Option (TestStatistic F (Series F))
  default_log_normal_shewart =
      statistic_or_nil "shewart" (f.literal 1 0) (log_normal (error_rate (f.literal 5 2)))
        (log_normal_series 50)

  unfoldable pub default_poisson_ewma : Option (TestStatistic F (SampledSeries F))
  default_poisson_ewma =
      statistic_or_nil "ewma" (f.literal 25 2) (poisson (error_rate (f.literal 5 2)))
        (poisson_series 50 sample_window sample_sum)

  unfoldable pub default_poisson_shewart : Option (TestStatistic F (SampledSeries F))
  default_poisson_shewart =
      statistic_or_nil "shewart" (f.literal 1 0) (poisson (error_rate (f.literal 5 2)))
        (poisson_series 50 sample_window sample_sum)
