-- ===== src/Stat/Statistic/Alarm.antt =====
-- When a statistic alarms, and what its errors are (pkg/stat/estimator.go, Record and HasAlarmed).
use mathlib.Core.Path.{subst}
use monny.Base.{
  ◌≡◌, refl, sym, ap, ◌∙◌, Bool, true, false, not, ◌&&◌, ◌||◌, Option, none, some, arith,
  if◌then◌else◌, Bool-cases, inl, inr, str_eq, if_both, if_true, if_false,
}
use monny.Base.Float.{Float}
use monny.Metric.Recorder.{Recorder}
use monny.Fsm.{transition_not_allowed}
use monny.Stat.Pdf.{is_undefined}
use monny.Stat.Machine.{
  Phase, resetting, collecting_ucl, watching_ucl, tripped_ucl, collecting_lcl, watching_lcl,
  tripped_lcl, name_of, machine_at, ucl_initial, ucl_trip, lcl_trip,
}
use monny.Stat.Statistic.{
  TestStatistic, StatError, transform_undefined, fsm, upper, lower, record_obs, has_alarmed,
}
use monny.Stat.Statistic.Phases.{
  ewma, at_phase, is_baseline, with_baseline, observed, record_obs-observed,
}

-- The moves that an observation can make.
pub data Observes : Phase → Phase → Type 0 where
  stays : {p : Phase} → Observes p p
  restarts : Observes resetting collecting_ucl
  watches_ucl : Observes collecting_ucl watching_ucl
  trips_ucl : Observes watching_ucl tripped_ucl
  watches_lcl : Observes collecting_lcl watching_lcl
  trips_lcl : Observes watching_lcl tripped_lcl

abbrev pub is_tripped : Phase → Bool
is_tripped tripped_ucl = true
is_tripped tripped_lcl = true
is_tripped _ = false

alarm_name :
    (p : Phase) → (str_eq (name_of p) ucl_trip || str_eq (name_of p) lcl_trip) ≡ is_tripped p
alarm_name tripped_ucl = refl
alarm_name _ = refl

module _ {ℓ κ} {F : Type ℓ} {S : Type κ} ⦃f : Float F⦄ ⦃r : Recorder F S⦄ where
  -- The machine of a statistic stands at some phase, reached from `p` by an observation.
  abbrev pub Stands : Phase → TestStatistic F S → Type 0
  Stands p e = (q : Phase) × (b : Bool) × (e.machine ≡ machine_at q b) × Observes p q

  observed-Stands :
      (p : Phase) (x : F) (b : Bool) (e : TestStatistic F S) → Stands p (observed p x b e).0
  unfolding observed
  observed-Stands resetting x b e = elim (Bool-cases (f.le e.limit (ewma x e))) [
    | inl t ↦ (collecting_ucl, true, rw t, restarts)
    | inr t ↦ (collecting_ucl, b, rw t, restarts)
  ]
  observed-Stands collecting_ucl x b e = elim (Bool-cases (is_baseline e)) [
    | inl t ↦ (watching_ucl, b, ground arith, watches_ucl)
    | inr t ↦ (collecting_ucl, b, ground arith, stays)
  ]
  observed-Stands watching_ucl x b e = elim (Bool-cases (f.le e.limit (ewma x e))) [
    | inl t ↦ (tripped_ucl, b, rw t, trips_ucl)
    | inr t ↦ (watching_ucl, b, rw t, stays)
  ]
  observed-Stands tripped_ucl x b e = (tripped_ucl, b, refl, stays)
  observed-Stands collecting_lcl x b e = elim (Bool-cases (is_baseline e)) [
    | inl t ↦ (watching_lcl, b, ground arith, watches_lcl)
    | inr t ↦ (collecting_lcl, b, ground arith, stays)
  ]
  observed-Stands watching_lcl x b e = elim (Bool-cases (f.le (ewma x e) e.limit)) [
    | inl t ↦ (tripped_lcl, b, rw t, trips_lcl)
    | inr t ↦ (watching_lcl, b, rw t, stays)
  ]
  observed-Stands tripped_lcl x b e = (tripped_lcl, b, refl, stays)

  -- an observation that the distribution can transform, recorded in the series
  abbrev pub recorded : F → TestStatistic F S → TestStatistic F S
  recorded o e = record e { series = r.add_value (e.pdf.transform o) e.series }

  pub record_obs-undefined :
      (o : F) (p : Phase) (b : Bool) (e : TestStatistic F S)
      → e.machine ≡ machine_at p b
      → is_undefined (e.pdf.transform o) ≡ true
      → record_obs o e ≡ (e, some transform_undefined)
  record_obs-undefined o p b e at u = record_obs-observed o p b e at ∙ if_true _ _ u

  pub record_obs-defined :
      (o : F) (p : Phase) (b : Bool) (e : TestStatistic F S)
      → e.machine ≡ machine_at p b
      → is_undefined (e.pdf.transform o) ≡ false
      → record_obs o e ≡ observed p (e.pdf.transform o) b (recorded o e)
  record_obs-defined o p b e at d = record_obs-observed o p b e at ∙ if_false _ _ d

  -- An observation, with an error or without, leaves the machine of a statistic that stands at a
  -- phase of the diagram at such a phase: the one that it stood at, or the next one of the same
  -- test.
  pub record_obs-Stands :
      (o : F) (p : Phase) (b : Bool) (e : TestStatistic F S)
      → e.machine ≡ machine_at p b
      → Stands p (record_obs o e).0
  record_obs-Stands o p b e at = elim (Bool-cases (is_undefined (e.pdf.transform o))) [
    | inl u ↦ subst (λ t. Stands p t.0) (sym (record_obs-undefined o p b e at u)) (p, b, at, stays)
    | inr d ↦
        subst (λ t. Stands p t.0) (sym (record_obs-defined o p b e at d))
          (observed-Stands p (e.pdf.transform o) b (recorded o e))
  ]

  -- the error of an observation: the transform's, or the one of a statistic that leaves its reset
  -- with a value at or above the limit that it still has from before
  abbrev expected_error : F → Phase → TestStatistic F S → Option StatError
  expected_error o p e =
      let x = e.pdf.transform o in
      if is_undefined x then some transform_undefined else elim p [
        | resetting ↦
            if f.le e.limit (ewma x e)
            then some (fsm (transition_not_allowed ucl_initial ucl_trip))
            else none
        | _ ↦ none
      ]

  observed-error :
      (o : F) (p : Phase) (b : Bool) (e : TestStatistic F S)
      → is_undefined (e.pdf.transform o) ≡ false
      → (observed p (e.pdf.transform o) b (recorded o e)).1 ≡ expected_error o p e
  unfolding observed
  observed-error o resetting b e d = ground arith
  observed-error o _ b e d = ground arith

  -- The only errors of `Record`, on a statistic that stands at a phase of the diagram: a value
  -- that cannot be transformed, in any phase; and, in the reset phase, the refused move from
  -- `UCLInitial` to `UCLTrip`, exactly when the value falls at or above the old limit. From no
  -- other phase does the machine refuse a move.
  pub record_obs-error :
      (o : F) (p : Phase) (b : Bool) (e : TestStatistic F S)
      → e.machine ≡ machine_at p b
      → (record_obs o e).1 ≡ expected_error o p e
  record_obs-error o p b e at = elim (Bool-cases (is_undefined (e.pdf.transform o))) [
    | inl u ↦ ap (λ t. t.1) (record_obs-undefined o p b e at u) ∙ sym (if_true _ _ u)
    | inr d ↦ ap (λ t. t.1) (record_obs-defined o p b e at d) ∙ observed-error o p b e d
  ]

  -- `HasAlarmed` holds exactly at the two tripped phases of the diagram.
  pub has_alarmed-is_tripped :
      (p : Phase) (b : Bool) (e : TestStatistic F S)
      → e.machine ≡ machine_at p b
      → has_alarmed e ≡ is_tripped p
  unfolding has_alarmed
  has_alarmed-is_tripped p b e at =
      ap (λ m. str_eq m.current ucl_trip || str_eq m.current lcl_trip) at ∙ alarm_name p

  -- the limit that a phase watches, passed by a value
  abbrev pub crosses : Phase → F → TestStatistic F S → Bool
  crosses watching_ucl x e = f.le e.limit (ewma x e)
  crosses watching_lcl x e = f.le (ewma x e) e.limit
  crosses _ x e = false

  has_alarmed-observed :
      (p : Phase) (x : F) (b : Bool) (e : TestStatistic F S)
      → is_tripped p ≡ false
      → has_alarmed (observed p x b e).0 ≡ crosses p x e
  unfolding observed has_alarmed
  has_alarmed-observed tripped_ucl x b e n = cc
  has_alarmed-observed tripped_lcl x b e n = cc
  has_alarmed-observed resetting x b e n = elim (Bool-cases (f.le e.limit (ewma x e))) [
    | inl t ↦ rw t
    | inr t ↦ rw t
  ]
  has_alarmed-observed collecting_ucl x b e n =
      if_both (λ (t : TestStatistic F S × Option StatError). has_alarmed t.0 ≡ false)
        (is_baseline e) (at_phase watching_ucl b (with_baseline upper e), none)
        (at_phase collecting_ucl b e, none) refl refl
  has_alarmed-observed collecting_lcl x b e n =
      if_both (λ (t : TestStatistic F S × Option StatError). has_alarmed t.0 ≡ false)
        (is_baseline e) (at_phase watching_lcl b (with_baseline lower e), none)
        (at_phase collecting_lcl b e, none) refl refl
  has_alarmed-observed watching_ucl x b e n = elim (Bool-cases (f.le e.limit (ewma x e))) [
    | inl t ↦ rw t
    | inr t ↦ rw t
  ]
  has_alarmed-observed watching_lcl x b e n = elim (Bool-cases (f.le (ewma x e) e.limit)) [
    | inl t ↦ rw t
    | inr t ↦ rw t
  ]

  -- A statistic that stands at a phase that is not tripped alarms on an observation exactly when
  -- the observation can be transformed, the phase watches a limit, and the new value of the
  -- statistic is at or above an upper limit, or at or below a lower one.
  pub alarm_iff_crosses :
      (o : F) (p : Phase) (b : Bool) (e : TestStatistic F S)
      → is_tripped p ≡ false
      → e.machine ≡ machine_at p b
      → has_alarmed (record_obs o e).0
        ≡ (not (is_undefined (e.pdf.transform o)) && crosses p (e.pdf.transform o) e)
  alarm_iff_crosses o p b e n at = elim (Bool-cases (is_undefined (e.pdf.transform o))) [
    | inl u ↦
        ap (λ t. has_alarmed t.0) (record_obs-undefined o p b e at u)
        ∙ (has_alarmed-is_tripped p b e at
            ∙ (n ∙ ap (λ t. not t && crosses p (e.pdf.transform o) e) (sym u)))
    | inr d ↦
        ap (λ t. has_alarmed t.0) (record_obs-defined o p b e at d)
        ∙ (has_alarmed-observed p (e.pdf.transform o) b (recorded o e) n
            ∙ (same_crossing o p e ∙ ap (λ t. not t && crosses p (e.pdf.transform o) e) (sym d)))
  ]
    where
      same_crossing :
          (o : F) (p : Phase) (e : TestStatistic F S)
          → crosses p (e.pdf.transform o) (recorded o e) ≡ crosses p (e.pdf.transform o) e
      same_crossing o watching_ucl e = refl
      same_crossing o watching_lcl e = refl
      same_crossing o _ e = refl
