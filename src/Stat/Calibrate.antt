-- ===== src/Stat/Calibrate.antt =====
-- pkg/stat/calibrate.go, the generator of the constants in kconst_gen.go: how often a test alarms
-- on random numbers of the distribution that it expects. The numbers that `Rand` of a loop's
-- generator gives are the argument of that loop.
pub mod FalseAlarms
mod Tests
use mathlib.Core.Option.{map as then_some}
use monny.Base.{
  ℕ, zero, suc, Bool, true, false, List, [], ◌∷◌, Option, none, some, Result, ok, err,
  if◌then◌else◌, String,
}
use monny.Base.Int.{pos}
use monny.Base.Float.{Float}
use monny.Metric.Recorder.{Recorder, series_recorder}
use monny.Metric.Series.{Name, Series, SeriesError}
use monny.Metric.Sampled.{SampledSeries, sampled_recorder}
use monny.Stat.Pdf.{Pdf, fixed, log_normal, log_normal_series, poisson, poisson_series}
use monny.Stat.Statistic.{TestStatistic}
use monny.Stat.Suite.{Test, record_test, has_alarmed, with_statistic, new_test, statistic_or_nil}

-- the constants of the generator
pub record Sizes : Type 0 where
  pub loops : ℕ
  pub run : ℕ
  pub cap : ℕ

abbrev pub sizes : Sizes
sizes = record { loops = 10_000; run = 100_000; cap = 100 }

-- the next `n` numbers of a generator that has given `i`
abbrev pub draws {ℓ} : {F : Type ℓ} → ℕ → ℕ → (ℕ → F) → List F
draws zero i rng = []
draws (suc n) i rng = rng i ∷ draws n (suc i) rng

-- What a run of `errorRateLN` or `errorRateP` ends with: `log.Fatalf`, no error to record, or the
-- rate that is put into the results.
pub data Calibrated {ℓ} (F : Type ℓ) : Type ℓ where
  fatal no_errors : Calibrated F
  type1_error : F → Calibrated F

abbrev pub count_error : Option Bool → Option ℕ → Option ℕ
count_error none rest = none
count_error (some alarmed) none = none
count_error (some true) (some errors) = some (suc errors)
count_error (some false) (some errors) = some errors

abbrev pub rate_of {ℓ} : {F : Type ℓ} ⦃f : Float F⦄ → ℕ → Option ℕ → Calibrated F
rate_of ⦃f⦄ loops none = fatal
rate_of ⦃f⦄ loops (some zero) = no_errors
rate_of ⦃f⦄ loops (some (suc n)) = type1_error (f.div (f.of_int (suc n)) (f.of_int loops))

-- `if err != nil { log.Fatalf(...) }`
abbrev pub unless_error {ℓ κ} : {E : Type ℓ} {A : Type κ} → Option E → Option A → Option A
unless_error none rest = rest
unless_error (some x) rest = none

module _ {ℓ κ} {F : Type ℓ} {S : Type κ} ⦃f : Float F⦄ ⦃r : Recorder F S⦄ where
  -- the loop over `Cap`, `none` where `log.Fatalf` ends the program
  unfoldable pub warm_up : List F → Test F S → Option (Test F S)
  warm_up [] t = some t
  warm_up (o ∷ os) t = let (t', e) = record_test o t in unless_error e (warm_up os t')

  -- the loop over `Run`, whether it ends at an alarm
  unfoldable pub run_until_alarm : List F → Test F S → Bool
  run_until_alarm [] t = false
  run_until_alarm (o ∷ os) t =
      let t' = (record_test o t).0 in
      let rest = run_until_alarm os t' in if has_alarmed t' then true else rest

  -- the body of the loop over `Loops`
  unfoldable pub false_alarm : Sizes → (ℕ → F) → Test F S → Option Bool
  unfolding warm_up run_until_alarm
  false_alarm z rng t =
      then_some (run_until_alarm (draws z.run z.cap rng)) (warm_up (draws z.cap 0 rng) t)

  -- `errors` after the loop over `Loops`, one generator for each round; each round builds its test
  -- anew in the same way
  unfoldable pub count_errors : Sizes → List (ℕ → F) → Test F S → Option ℕ
  unfolding false_alarm
  count_errors z [] t = some 0
  count_errors z (rng ∷ rngs) t = count_error (false_alarm z rng t) (count_errors z rngs t)

  -- `stat.NewEWMAStatistic("ewma", Lambda, ...)` and the constructor of the test, whose defaults are
  -- not reached
  unfoldable pub calibrated_test : Pdf F → Result SeriesError S → Option (Test F S)
  calibrated_test pdf series = elim (statistic_or_nil "ewma" (f.literal 25 2) pdf series) [
    | none ↦ none
    | some s ↦ elim (new_test [] (record { name = "calibrate"; md = [] }) (with_statistic s ∷ [])) [
      | err e ↦ none
      | ok t ↦ some t
    ]
  ]

  unfoldable pub measure : Sizes → List (ℕ → F) → Option (Test F S) → Calibrated F
  unfolding count_errors
  measure z rngs none = fatal
  measure z rngs (some t) = rate_of z.loops (count_errors z rngs t)

module _ {ℓ} {F : Type ℓ} ⦃f : Float F⦄ where
  -- `errorRateLN(results, k)`, with a generator for each of the loops
  unfoldable pub error_rate_ln : Sizes → List (ℕ → F) → F → Calibrated F
  unfolding measure calibrated_test
  error_rate_ln z rngs k =
      measure z rngs (calibrated_test (log_normal (fixed k)) (log_normal_series {F = F} 50))

  -- `errorRateP(results, k)`, with a series in direct mode, whose strategy is nil and never called
  unfoldable pub error_rate_p : Sizes → List (ℕ → F) → F → Calibrated F
  unfolding measure calibrated_test
  error_rate_p z rngs k =
      measure z rngs
        (calibrated_test (poisson (fixed k)) (poisson_series {F = F} 50 (pos 0) (λ obs. f.nought)))
