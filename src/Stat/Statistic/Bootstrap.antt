-- ===== src/Stat/Statistic/Bootstrap.antt =====
-- The observations that a statistic needs before it tests anything (pkg/stat/estimator.go).
use mathlib.Core.Path.{subst}
use monny.Base.{
  ◌+◌, ◌<◌, ◌≤◌, ◌≡◌, refl, sym, ap, ◌∙◌, Bool, false, List, [], ◌∷◌, arith, length, if_false,
  Bool-cases, ◌&&◌, leb_gt, inl, inr, ok, String,
}
use monny.Base.Float.{Float}
use monny.Metric.Recorder.{Recorder, IsCounting, IsTicking}
use monny.Metric.Sampled.Windows.{Call, observe, fire}
use monny.Fsm.{new_machine, with_transitions, transitions_from, append_target}
use monny.Stat.Pdf.{Pdf, is_undefined}
use monny.Stat.Machine.{collecting_ucl, machine_at, new_stat_machine}
use monny.Stat.Statistic.{TestStatistic, record_obs, has_alarmed, new_ewma_statistic}
use monny.Stat.Statistic.Phases.{observed, is_baseline}
use monny.Stat.Statistic.Alarm.{
  recorded, record_obs-undefined, record_obs-defined, has_alarmed-is_tripped,
}

-- `e'` still collects, as `e` did, with at most one value more.
abbrev Collecting {ℓ κ} :
    {F : Type ℓ} {S : Type κ} ⦃r : Recorder F S⦄
    → Bool
    → TestStatistic F S
    → TestStatistic F S
    → Type 0
Collecting ⦃r⦄ b e e' =
    (e'.machine ≡ machine_at collecting_ucl b)
    × (r.count e'.series ≤ r.count e.series + 1)
    × (r.capacity e'.series ≡ r.capacity e.series)

-- Calls of `Record`, whose errors are dropped, with the ticks that fall between them.
unfoldable pub record_run {ℓ κ} :
    {F : Type ℓ} {S : Type κ} ⦃f : Float F⦄ ⦃r : Recorder F S⦄
    → (S → S)
    → List (Call F)
    → TestStatistic F S
    → TestStatistic F S
record_run tick [] e = e
record_run tick (observe o ∷ cs) e = record_run tick cs (record_obs o e).0
record_run tick (fire ∷ cs) e = record_run tick cs (record e { series = tick e.series })

module _ {ℓ κ} {F : Type ℓ} {S : Type κ} ⦃f : Float F⦄ ⦃r : Recorder F S⦄ (laws : IsCounting r)
    (tick : S → S) (ticks : IsTicking r tick) where
  open laws use {count-add_value, capacity-add_value}
  open ticks use {count-tick, capacity-tick}

  -- `Record` before the series is full: the phase stays, and at most one value is added.
  record_obs-Collecting :
      (o : F) (b : Bool) (e : TestStatistic F S)
      → r.count e.series + 1 < r.capacity e.series
      → e.machine ≡ machine_at collecting_ucl b
      → Collecting b e (record_obs o e).0
  unfolding observed
  record_obs-Collecting o b e short at = elim (Bool-cases (is_undefined (e.pdf.transform o))) [
    | inl u ↦
        subst (λ t. Collecting b e t.0) (sym (record_obs-undefined o collecting_ucl b e at u))
          (at, omega arith, refl)
    | inr d ↦
        subst (λ t. Collecting b e t.0)
          (sym (record_obs-defined o collecting_ucl b e at d ∙ if_false _ _ not_full))
          (refl, count-add_value x e.series, capacity-add_value x e.series)
  ]
    where
      x : F
      x = e.pdf.transform o

      not_full : is_baseline (recorded o e) ≡ false
      not_full =
          let e' = recorded o e in
          ap
            (λ t.
              t
              && (f.lt f.nought (e'.pdf.mean (r.values e'.series))
                  && f.lt f.nought
                      (e'.pdf.variance (r.values e'.series) (e'.pdf.mean (r.values e'.series)))))
            (leb_gt (r.capacity e'.series) (r.count e'.series)
              (omega (arith, count-add_value x e.series, capacity-add_value x e.series)))

  -- Fewer calls and ticks than the series still has room for leave the statistic collecting,
  -- without an alarm.
  no_alarm_before_full :
      (cs : List (Call F)) (b : Bool) (e : TestStatistic F S)
      → r.count e.series + length cs < r.capacity e.series
      → e.machine ≡ machine_at collecting_ucl b
      → ((record_run tick cs e).machine ≡ machine_at collecting_ucl b)
        × (has_alarmed (record_run tick cs e) ≡ false)
  unfolding record_run
  no_alarm_before_full [] b e short at = (at, has_alarmed-is_tripped collecting_ucl b e at)
  no_alarm_before_full (observe o ∷ cs) b e short at =
      let step = record_obs-Collecting o b e (omega arith) at in
      no_alarm_before_full cs b (record_obs o e).0 (omega (arith, step.1, step.2)) step.0
  no_alarm_before_full (fire ∷ cs) b e short at =
      no_alarm_before_full cs b (record e { series = tick e.series })
        (omega (arith, count-tick e.series, capacity-tick e.series)) at

  -- Over a recorder that counts at most one value for an observation and for a tick, a new statistic
  -- does not alarm, and still collects its baseline, as long as its series has room for more values
  -- than there were observations and ticks, which may fall in any order.
  pub new_ewma_statistic-quiet :
      (name : String) (lambda : F) (pdf : Pdf F) (s : S) (cs : List (Call F))
      → r.count s + length cs < r.capacity s
      → (e : TestStatistic F S) × (new_ewma_statistic name lambda pdf s ≡ ok e)
        × ((record_run tick cs e).machine ≡ machine_at collecting_ucl false)
        × (has_alarmed (record_run tick cs e) ≡ false)
  unfolding new_ewma_statistic new_stat_machine new_machine with_transitions transitions_from
      append_target
  new_ewma_statistic-quiet name lambda pdf s cs short =
      let quiet = no_alarm_before_full cs false e short refl in (e, refl, quiet.0, quiet.1)
    where
      e : TestStatistic F S
      e = record {
        name = name;
        lambda = lambda;
        limit = f.nought;
        series = s;
        machine = machine_at collecting_ucl false;
        current = f.nought;
        pdf = pdf;
      }
