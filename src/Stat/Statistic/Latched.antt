-- ===== src/Stat/Statistic/Latched.antt =====
-- A tripped statistic stays tripped (pkg/stat/estimator.go).

use monny.Base.{◌≡◌, refl, ap, ◌∙◌, Bool, true, List, [], ◌∷◌, Bool-cases, inl, inr}
use monny.Base.Float.{Float}
use monny.Metric.Recorder.{Recorder}
use monny.Stat.Pdf.{is_undefined}
use monny.Stat.Machine.{Phase, tripped_ucl, tripped_lcl, machine_at}
use monny.Stat.Statistic.{TestStatistic, record_obs, has_alarmed}
use monny.Stat.Statistic.Phases.{observed}
use monny.Stat.Statistic.Alarm.{
  is_tripped, recorded, record_obs-undefined, record_obs-defined, has_alarmed-is_tripped,
}

module _ {ℓ κ} {F : Type ℓ} {S : Type κ} ⦃f : Float F⦄ ⦃r : Recorder F S⦄ where
  -- the loop of a client that records observations and drops the errors
  unfoldable pub record_each : List F → TestStatistic F S → TestStatistic F S
  record_each [] e = e
  record_each (o ∷ os) e = record_each os (record_obs o e).0

  tripped_stays :
      (o : F) (p : Phase) (b : Bool) (e : TestStatistic F S)
      → is_tripped p ≡ true
      → e.machine ≡ machine_at p b
      → ((record_obs o e).0.machine ≡ machine_at p b)
        × ((record_obs o e).0.current ≡ e.current)
        × ((record_obs o e).0.limit ≡ e.limit)
  unfolding observed
  tripped_stays o p b e t at = elim (Bool-cases (is_undefined (e.pdf.transform o))) [
    | inl u ↦
        let same = record_obs-undefined o p b e at u in
        (ap (λ r. r.0.machine) same ∙ at, ap (λ r. r.0.current) same, ap (λ r. r.0.limit) same)
    | inr d ↦
        let same = record_obs-defined o p b e at d in
        let rest = tripped_observed p t in
        (
          ap (λ r. r.0.machine) same ∙ rest.0,
          ap (λ r. r.0.current) same ∙ rest.1,
          ap (λ r. r.0.limit) same ∙ rest.2,
        )
  ]
    where
      tripped_observed :
          (p : Phase)
          → is_tripped p ≡ true
          → let e' = (observed p (e.pdf.transform o) b (recorded o e)).0 in
            (e'.machine ≡ machine_at p b) × (e'.current ≡ e.current) × (e'.limit ≡ e.limit)
      tripped_observed tripped_ucl t = (refl, refl, refl)
      tripped_observed tripped_lcl t = (refl, refl, refl)
      tripped_observed _ t = cc

  -- Once a statistic stands at a tripped phase, no list of observations ends the alarm or changes
  -- its value and its limit.
  pub alarm_latched :
      (os : List F) (p : Phase) (b : Bool) (e : TestStatistic F S)
      → is_tripped p ≡ true
      → e.machine ≡ machine_at p b
      → (has_alarmed (record_each os e) ≡ true)
        × ((record_each os e).current ≡ e.current)
        × ((record_each os e).limit ≡ e.limit)
  unfolding record_each
  alarm_latched [] p b e t at = (has_alarmed-is_tripped p b e at ∙ t, refl, refl)
  alarm_latched (o ∷ os) p b e t at =
      let step = tripped_stays o p b e t at in
      let rest = alarm_latched os p b (record_obs o e).0 t step.0 in
      (rest.0, rest.1 ∙ step.1, rest.2 ∙ step.2)
