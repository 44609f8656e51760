-- ===== src/Stat/Statistic/Phases.antt =====
-- How observations move a statistic through its phases (pkg/stat/estimator.go, Record).

use monny.Base.{
  ◌≡◌, refl, ap, ◌∙◌, Bool, true, ◌&&◌, Option, none, some, arith, leb, ltb, if◌then◌else◌,
}
use monny.Base.Float.{Float}
use monny.Metric.Recorder.{Recorder}
use monny.Fsm.{transition_not_allowed}
use monny.Stat.Pdf.{is_undefined}
use monny.Stat.Machine.{
  Phase, resetting, collecting_ucl, watching_ucl, tripped_ucl, collecting_lcl, watching_lcl,
  tripped_lcl, name_of, is_edge, machine_at, transition-machine_at, ucl_initial, ucl_trip,
  testing_ucl, testing_lcl,
}
use monny.Stat.Statistic.{
  TestStatistic, StatError, transform_undefined, fsm, Direction, upper, lower, calculate_limit,
  calculate_current, test_ucl, test_lcl, restart_series, leave_reset, collect, dispatch, record_obs,
}

module _ {ℓ κ} {F : Type ℓ} {S : Type κ} ⦃f : Float F⦄ ⦃r : Recorder F S⦄ where
  -- the value of the statistic after an observation that was transformed to `x`
  abbrev pub ewma : F → TestStatistic F S → F
  ewma x e = f.add (f.mul e.lambda x) (f.mul (f.sub f.one e.lambda) e.current)

  -- `e` with its machine at a phase
  abbrev pub at_phase : Phase → Bool → TestStatistic F S → TestStatistic F S
  at_phase p b e = record e { machine = machine_at p b }

  test_ucl-watching :
      (x : F) (b : Bool) (e : TestStatistic F S)
      → test_ucl x (at_phase watching_ucl b e) ≡ (
          if f.le e.limit (ewma x e)
          then (at_phase tripped_ucl b (record e { current = ewma x e }), none)
          else (at_phase watching_ucl b (record e { current = ewma x e }), none))
  unfolding test_ucl calculate_current is_edge
  test_ucl-watching x b e = ground (arith, transition-machine_at watching_ucl tripped_ucl b)

  test_lcl-watching :
      (x : F) (b : Bool) (e : TestStatistic F S)
      → test_lcl x (at_phase watching_lcl b e) ≡ (
          if f.le (ewma x e) e.limit
          then (at_phase tripped_lcl b (record e { current = ewma x e }), none)
          else (at_phase watching_lcl b (record e { current = ewma x e }), none))
  unfolding test_lcl calculate_current is_edge
  test_lcl-watching x b e = ground (arith, transition-machine_at watching_lcl tripped_lcl b)

  -- the body of `case TestingUCL` where the machine stands at `UCLInitial`
  test_ucl-collecting :
      (x : F) (b : Bool) (e : TestStatistic F S)
      → test_ucl x (at_phase collecting_ucl b e) ≡ (
          if f.le e.limit (ewma x e)
          then (
            at_phase collecting_ucl true (record e { current = ewma x e }),
            some (fsm (transition_not_allowed ucl_initial ucl_trip)),
          )
          else (at_phase collecting_ucl b (record e { current = ewma x e }), none))
  unfolding test_ucl calculate_current is_edge
  test_ucl-collecting x b e = ground (arith, transition-machine_at collecting_ucl tripped_ucl b)

  unfoldable pub restarted : F → TestStatistic F S → TestStatistic F S
  restarted x e = record e {
    series = if ltb 0 (r.count e.series) then r.add_value x (r.reset e.series) else e.series;
  }

  leave_reset-resetting :
      (x : F) (b : Bool) (e : TestStatistic F S)
      → leave_reset x (at_phase resetting b e)
        ≡ test_ucl x (at_phase collecting_ucl b (restarted x e))
  unfolding leave_reset restart_series is_edge restarted
  leave_reset-resetting x b e = ground (arith, transition-machine_at resetting collecting_ucl b)

  -- whether a series is full, with a positive mean and variance
  abbrev pub is_baseline : TestStatistic F S → Bool
  is_baseline e =
      leb (r.capacity e.series) (r.count e.series)
      && (f.lt f.nought (e.pdf.mean (r.values e.series))
          && f.lt f.nought (e.pdf.variance (r.values e.series) (e.pdf.mean (r.values e.series))))

  -- `e` with its value and limit set from the series
  abbrev pub with_baseline : Direction → TestStatistic F S → TestStatistic F S
  with_baseline d e =
      let mean = e.pdf.mean (r.values e.series) in
      let variance = e.pdf.variance (r.values e.series) mean in
      record e { current = mean; limit = calculate_limit mean variance e.lambda e.pdf d }

  collect-ucl :
      (b : Bool) (e : TestStatistic F S)
      → collect testing_ucl upper (at_phase collecting_ucl b e) ≡ (
          if is_baseline e
          then (at_phase watching_ucl b (with_baseline upper e), none)
          else (at_phase collecting_ucl b e, none))
  unfolding collect is_edge
  collect-ucl b e = ground (arith, transition-machine_at collecting_ucl watching_ucl b)

  collect-lcl :
      (b : Bool) (e : TestStatistic F S)
      → collect testing_lcl lower (at_phase collecting_lcl b e) ≡ (
          if is_baseline e
          then (at_phase watching_lcl b (with_baseline lower e), none)
          else (at_phase collecting_lcl b e, none))
  unfolding collect is_edge
  collect-lcl b e = ground (arith, transition-machine_at collecting_lcl watching_lcl b)

  -- what the phases make of an observation that was transformed to `x` and recorded in `e`
  unfoldable pub observed :
      Phase → F → Bool → TestStatistic F S → TestStatistic F S × Option StatError
  unfolding restarted
  observed resetting x b e =
      let e' = restarted x e in
      if f.le e.limit (ewma x e)
      then (
        at_phase collecting_ucl true (record e' { current = ewma x e }),
        some (fsm (transition_not_allowed ucl_initial ucl_trip)),
      )
      else (at_phase collecting_ucl b (record e' { current = ewma x e }), none)
  observed collecting_ucl x b e =
      if is_baseline e
      then (at_phase watching_ucl b (with_baseline upper e), none)
      else (at_phase collecting_ucl b e, none)
  observed watching_ucl x b e = (
    at_phase (if f.le e.limit (ewma x e) then tripped_ucl else watching_ucl) b
        (record e { current = ewma x e }),
    none,
  )
  observed tripped_ucl x b e = (at_phase tripped_ucl b e, none)
  observed collecting_lcl x b e =
      if is_baseline e
      then (at_phase watching_lcl b (with_baseline lower e), none)
      else (at_phase collecting_lcl b e, none)
  observed watching_lcl x b e = (
    at_phase (if f.le (ewma x e) e.limit then tripped_lcl else watching_lcl) b
        (record e { current = ewma x e }),
    none,
  )
  observed tripped_lcl x b e = (at_phase tripped_lcl b e, none)

  dispatch-observed :
      (p : Phase) (x : F) (b : Bool) (e : TestStatistic F S)
      → dispatch x (name_of p) (at_phase p b e) ≡ observed p x b e
  unfolding dispatch observed restarted
  dispatch-observed resetting x b e =
      leave_reset-resetting x b e ∙ test_ucl-collecting x b (restarted x e)
  dispatch-observed collecting_ucl x b e = collect-ucl b e
  dispatch-observed watching_ucl x b e = ground (arith, test_ucl-watching x b e)
  dispatch-observed tripped_ucl x b e = refl
  dispatch-observed collecting_lcl x b e = collect-lcl b e
  dispatch-observed watching_lcl x b e = ground (arith, test_lcl-watching x b e)
  dispatch-observed tripped_lcl x b e = refl

  -- On a statistic that stands at a phase, `Record` refuses a value that the distribution cannot
  -- transform; any other it puts into the series and hands to the phase that the machine stands
  -- at.
  pub record_obs-observed :
      (o : F) (p : Phase) (b : Bool) (e : TestStatistic F S)
      → e.machine ≡ machine_at p b
      → let x = e.pdf.transform o in
        record_obs o e ≡ (
          if is_undefined x
          then (e, some transform_undefined)
          else observed p x b (record e { series = r.add_value x e.series }))
  unfolding record_obs
  record_obs-observed o p b e at =
      let x = e.pdf.transform o in
      let e' : TestStatistic F S = record e { series = r.add_value x e.series } in
      ap (λ t. if is_undefined x then (e, some transform_undefined) else t)
        ((λ i. dispatch x (at i).current (record e' { machine = at i }))
          ∙ dispatch-observed p x b e')
