-- ===== src/Stat/Statistic.antt =====
-- pkg/stat/estimator.go: an EWMA statistic over a series, with its control limit. A method that
-- mutates `*TestStatistic` returns the new statistic beside its error.
pub mod Phases
pub mod Alarm
pub mod Latched
pub mod Bootstrap
use monny.Base.{
  ℕ, Bool, true, false, ◌&&◌, ◌||◌, Option, none, some, List, [], leb, ltb, Result, ok, err,
  if◌then◌else◌, str_eq, String,
}
use monny.Base.Float.{Float}
use monny.Metric.Recorder.{Recorder}
use monny.Fsm.{State, Machine, FsmError, transition}
use monny.Stat.Pdf.{Pdf, KError, is_undefined}
use monny.Stat.Machine.{
  reset_state, ucl_initial, testing_ucl, ucl_trip, lcl_initial, testing_lcl, lcl_trip,
  new_stat_machine,
}

-- `S` is the state of the series, behind the interface `SeriesRecorder`.
pub record TestStatistic {ℓ κ} (F : Type ℓ) (S : Type κ) : Type (ℓ ⊔ κ) where
  pub name : String
  pub lambda : F
  pub limit : F
  pub series : S
  pub machine : Machine
  pub current : F
  pub pdf : Pdf F

pub data StatError : Type 0 where
  transform_undefined : StatError
  fsm : FsmError → StatError

pub data Direction : Type 0 where
  upper lower : Direction

module _ {ℓ} {F : Type ℓ} ⦃f : Float F⦄ where
  -- 5.7 stands in where the distribution has no k
  unfoldable pub k_of : Result KError F → F
  k_of (ok k) = k
  k_of (err e) = f.literal 57 1

  -- `calculateLimit(mean, variance, lambda, pdf, direction)`
  unfoldable pub calculate_limit : F → F → F → Pdf F → Direction → F
  unfolding k_of
  calculate_limit mean variance lambda pdf direction =
      let estimator_variance = f.mul (f.div lambda (f.sub (f.of_int 2) lambda)) variance in
      let margin = f.mul (k_of pdf.k) (f.sqrt estimator_variance) in
      elim direction [ upper ↦ f.add mean margin | lower ↦ f.sub mean margin ]

module _ {ℓ κ} {F : Type ℓ} {S : Type κ} ⦃f : Float F⦄ ⦃r : Recorder F S⦄ where
  -- `calculateCurrent(o)`
  unfoldable pub calculate_current : F → TestStatistic F S → TestStatistic F S
  calculate_current o e = record e {
    current = f.add (f.mul e.lambda o) (f.mul (f.sub f.one e.lambda) e.current);
  }

  -- `if err := e.fsm.Transition(to); err != nil { return err }`, and the rest of the case
  abbrev pub with_transition :
      State
      → TestStatistic F S
      → (TestStatistic F S → TestStatistic F S × Option StatError)
      → TestStatistic F S × Option StatError
  with_transition to e rest =
      let (m, x) = transition e.machine to in
      elim x [
        | none ↦ rest (record e { machine = m })
        | some y ↦ (record e { machine = m }, some (fsm y))
      ]

  -- `case TestingUCL`
  unfoldable pub test_ucl : F → TestStatistic F S → TestStatistic F S × Option StatError
  test_ucl o e =
      let e' = calculate_current o e in
      if f.le e'.limit e'.current then with_transition ucl_trip e' (λ t. (t, none)) else (e', none)

  -- `case TestingLCL`
  unfoldable pub test_lcl : F → TestStatistic F S → TestStatistic F S × Option StatError
  test_lcl o e =
      let e' = calculate_current o e in
      if f.le e'.current e'.limit then with_transition lcl_trip e' (λ t. (t, none)) else (e', none)

  -- `if e.series.Count() > 0`
  unfoldable pub restart_series : F → TestStatistic F S → TestStatistic F S
  restart_series o e =
      if ltb 0 (r.count e.series) then record e { series = r.add_value o (r.reset e.series) } else e

  -- `case Reset`, which falls through to `case TestingUCL`
  unfoldable pub leave_reset : F → TestStatistic F S → TestStatistic F S × Option StatError
  leave_reset o e = with_transition ucl_initial e (λ t. test_ucl o (restart_series o t))

  -- the bodies of `case UCLInitial` and `case LCLInitial`
  unfoldable pub collect :
      State → Direction → TestStatistic F S → TestStatistic F S × Option StatError
  collect to direction e =
      if leb (r.capacity e.series) (r.count e.series)
      then (let values = r.values e.series in
          let mean = e.pdf.mean values in
          let variance = e.pdf.variance values mean in
          if f.lt f.nought mean && f.lt f.nought variance
          then with_transition to e (λ t. (
            record t {
              current = mean;
              limit = calculate_limit mean variance t.lambda t.pdf direction;
            },
            none,
          ))
          else (e, none))
      else (e, none)

  -- the `switch` of `Record`, on the state of the machine; no case is the default
  unfoldable pub dispatch : F → State → TestStatistic F S → TestStatistic F S × Option StatError
  dispatch o s e =
      if str_eq s reset_state
      then leave_reset o e
      else (if str_eq s testing_ucl
          then test_ucl o e
          else (if str_eq s testing_lcl
              then test_lcl o e
              else (if str_eq s ucl_initial
                  then collect testing_ucl upper e
                  else (if str_eq s lcl_initial then collect testing_lcl lower e else (e, none)))))

  -- `Record(o)`
  unfoldable pub record_obs : F → TestStatistic F S → TestStatistic F S × Option StatError
  record_obs o e =
      let x = e.pdf.transform o in
      if is_undefined x
      then (e, some transform_undefined)
      else dispatch x e.machine.current (record e { series = r.add_value x e.series })

  unfoldable pub has_alarmed : TestStatistic F S → Bool
  has_alarmed e = str_eq e.machine.current ucl_trip || str_eq e.machine.current lcl_trip

  -- `Transition(state, resetSeries)`
  unfoldable pub move_to : State → Bool → TestStatistic F S → TestStatistic F S × Option FsmError
  move_to state reset_series e =
      let e' = if reset_series then record e { series = r.reset e.series } else e in
      let (m, x) = transition e'.machine state in (record e' { machine = m }, x)

-- `NewEWMAStatistic(name, lambda, pdf)`, on the series that `pdf.NewSeries()` returned
unfoldable pub new_ewma_statistic {ℓ κ} :
    {F : Type ℓ} {S : Type κ} ⦃f : Float F⦄
    → String
    → F
    → Pdf F
    → S
    → Result FsmError (TestStatistic F S)
new_ewma_statistic ⦃f⦄ name lambda pdf series = elim (new_stat_machine ucl_initial) [
  | err e ↦ err e
  | ok m ↦ ok (record {
    name = name;
    lambda = lambda;
    limit = f.nought;
    series = series;
    machine = m;
    current = f.nought;
    pdf = pdf;
  })
]
