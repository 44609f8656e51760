-- ===== src/Stat/Calibrate/FalseAlarms.antt =====
-- What the calibration counts (pkg/stat/calibrate.go, errorRateLN and errorRateP).
use mathlib.Core.Option.{map as then_some}
use monny.Base.{
  ◌≡◌, refl, sym, ap, ap₂, ◌∙◌, ℕ, zero, suc, ◌+◌, ◌≤◌, ◌<◌, Bool, true, false, List, [], ◌∷◌, ◌++◌,
  none, some, Option-cases, arith, Bool-cases, inl, inr, if_true, if_false, if◌then◌else◌, length,
  ok,
}
use monny.Base.Float.{Float}
use monny.Metric.Recorder.{Recorder}
use monny.Stat.Suite.{Test, record_test, has_alarmed, new_test, apply_options, with_statistic}
use monny.Stat.Suite.Latch.{AllStand, record_subs-AllStand, record_tests, has_alarmed-record_tests}
use monny.Fsm.{new_machine, with_transitions, transitions_from, append_target}
use monny.Stat.Pdf.{Pdf}
use monny.Stat.Machine.{collecting_ucl, machine_at, new_stat_machine}
use monny.Stat.Statistic.{new_ewma_statistic}
use monny.Stat.Calibrate.{
  calibrated_test, rate_of, measure, Sizes, draws, warm_up, run_until_alarm, false_alarm,
  unless_error, count_error, count_errors,
}

draws-append {ℓ} :
    {F : Type ℓ} (n m i j : ℕ) (rng : ℕ → F)
    → i + n ≡ j
    → draws (n + m) i rng ≡ draws n i rng ++ draws m j rng
draws-append zero m i j rng at =
    let same : i ≡ j = omega arith in
    let none_left : 0 + m ≡ m = omega arith in ap₂ (λ l k. draws l k rng) none_left same
draws-append (suc n) m i j rng at =
    let one_more : suc n + m ≡ suc (n + m) = omega arith in
    ap (λ l. draws l i rng) one_more
    ∙ ap (λ l. rng i ∷ l) (draws-append n m (suc i) j rng (omega arith))

count_error-some :
    (b : Bool) (n : ℕ) → count_error (some b) (some n) ≡ some (if b then suc n else n)
count_error-some true n = refl
count_error-some false n = refl

module _ {ℓ κ} {F : Type ℓ} {S : Type κ} ⦃f : Float F⦄ ⦃r : Recorder F S⦄ where
  record_test-AllStand : (o : F) (t : Test F S) → AllStand t.sub → AllStand (record_test o t).0.sub
  unfolding record_test
  record_test-AllStand o t stands = record_subs-AllStand o t.sub stands

  -- the early end of the loop makes no difference
  run_until_alarm-record_tests :
      (o : F) (os : List F) (t : Test F S)
      → AllStand t.sub
      → run_until_alarm (o ∷ os) t ≡ has_alarmed (record_tests (o ∷ os) t)
  unfolding run_until_alarm record_tests
  run_until_alarm-record_tests o [] t stands = ground arith
  run_until_alarm-record_tests o (p ∷ os) t stands =
      let t' = (record_test o t).0 in
      let stands' = record_test-AllStand o t stands in
      elim (Bool-cases (has_alarmed t')) [
        | inl e ↦ if_true _ _ e ∙ sym (has_alarmed-record_tests (p ∷ os) t' stands' e)
        | inr e ↦ if_false _ _ e ∙ run_until_alarm-record_tests p os t' stands'
      ]

  record_tests-AllStand :
      (os : List F) (t : Test F S) → AllStand t.sub → AllStand (record_tests os t).sub
  unfolding record_tests
  record_tests-AllStand [] t stands = stands
  record_tests-AllStand (o ∷ os) t stands =
      record_tests-AllStand os (record_test o t).0 (record_test-AllStand o t stands)

  -- a warm-up without an error is a run over its numbers
  warm_up-record_tests :
      (os : List F) (t : Test F S) {t' : Test F S}
      → warm_up os t ≡ some t'
      → warm_up os t ≡ some (record_tests os t)
  unfolding warm_up record_tests
  warm_up-record_tests [] t e = refl
  warm_up-record_tests (o ∷ os) t e = elim (Option-cases (record_test o t).1) [
    | inl fine ↦
        let rest = warm_up os (record_test o t).0 in
        let same : unless_error (record_test o t).1 rest ≡ rest =
          ap (λ x. unless_error x rest) fine in
        same ∙ warm_up-record_tests os (record_test o t).0 (sym same ∙ e)
    | inr (x, bad) ↦
        let rest = warm_up os (record_test o t).0 in
        let same : unless_error (record_test o t).1 rest ≡ none =
          ap (λ x. unless_error x rest) bad in
        absurd (cc)
  ]

  record_tests-append :
      (os ps : List F) (t : Test F S)
      → record_tests (os ++ ps) t ≡ record_tests ps (record_tests os t)
  unfolding record_tests
  record_tests-append [] ps t = refl
  record_tests-append (o ∷ os) ps t = record_tests-append os ps (record_test o t).0

  -- the test of a round has alarmed after all its numbers
  abbrev pub ends_alarmed : Sizes → Test F S → (ℕ → F) → Bool
  ends_alarmed z t rng = has_alarmed (record_tests (draws (z.cap + z.run) 0 rng) t)

  abbrev pub count_alarmed : Sizes → Test F S → List (ℕ → F) → ℕ
  count_alarmed z t [] = 0
  count_alarmed z t (rng ∷ rngs) =
      let rest = count_alarmed z t rngs in if ends_alarmed z t rng then suc rest else rest

  -- No statistic refuses a number of the warm-up of any round.
  abbrev pub AllWarmUp : Sizes → Test F S → List (ℕ → F) → Type (ℓ ⊔ κ)
  AllWarmUp z t [] = Unit
  AllWarmUp z t (rng ∷ rngs) =
      ((t' : Test F S) × (warm_up (draws z.cap 0 rng) t ≡ some t')) × AllWarmUp z t rngs

  run_after :
      (n m : ℕ) (rng : ℕ → F) (t : Test F S)
      → 0 < n
      → AllStand t.sub
      → run_until_alarm (draws n m rng) t ≡ has_alarmed (record_tests (draws n m rng) t)
  run_after zero m rng t some_run stands = absurd (omega arith)
  run_after (suc n) m rng t some_run stands =
      run_until_alarm-record_tests (rng m) (draws n (suc m) rng) t stands

  false_alarm-ends_alarmed :
      (z : Sizes) (rng : ℕ → F) (t : Test F S) {t' : Test F S}
      → 0 < z.run
      → AllStand t.sub
      → warm_up (draws z.cap 0 rng) t ≡ some t'
      → false_alarm z rng t ≡ some (ends_alarmed z t rng)
  unfolding false_alarm
  false_alarm-ends_alarmed z rng t some_run stands warm =
      let warmed = draws z.cap 0 rng in
      let t'' = record_tests warmed t in
      ap (then_some (run_until_alarm (draws z.run z.cap rng))) (warm_up-record_tests warmed t warm)
      ∙ ap some (
          run_after z.run z.cap rng t'' some_run (record_tests-AllStand warmed t stands)
          ∙ (ap has_alarmed (sym (record_tests-append warmed (draws z.run z.cap rng) t))
              ∙ ap (λ l. has_alarmed (record_tests l t))
                  (sym (draws-append z.cap z.run 0 z.cap rng (omega arith)))))

  count_alarmed-le :
      (z : Sizes) (rngs : List (ℕ → F)) (t : Test F S) → count_alarmed z t rngs ≤ length rngs
  count_alarmed-le z [] t = omega arith
  count_alarmed-le z (rng ∷ rngs) t = ground (arith, count_alarmed-le z rngs t)

  count_errors-alarmed :
      (z : Sizes) (rngs : List (ℕ → F)) (t : Test F S)
      → 0 < z.run
      → AllStand t.sub
      → AllWarmUp z t rngs
      → count_errors z rngs t ≡ some (count_alarmed z t rngs)
  unfolding count_errors
  count_errors-alarmed z [] t some_run stands warm = refl
  count_errors-alarmed z (rng ∷ rngs) t some_run stands ((t', warm), others) =
      ap₂ count_error (false_alarm-ends_alarmed z rng t some_run stands warm)
        (count_errors-alarmed z rngs t some_run stands others)
      ∙ count_error-some (ends_alarmed z t rng) (count_alarmed z t rngs)

  -- the test that both functions build over a series
  abbrev pub fresh : Pdf F → S → Test F S
  fresh pdf s = record {
    name = record { name = "calibrate"; md = [] };
    sub =
        (record {
          name = "ewma";
          lambda = f.literal 25 2;
          limit = f.nought;
          series = s;
          machine = machine_at collecting_ucl false;
          current = f.nought;
          pdf = pdf;
        })
        ∷ [];
  }

  calibrated_test-fresh : (pdf : Pdf F) (s : S) → calibrated_test pdf (ok s) ≡ some (fresh pdf s)
  unfolding calibrated_test new_ewma_statistic new_stat_machine new_machine with_transitions
      transitions_from append_target new_test apply_options with_statistic
  calibrated_test-fresh pdf s = refl

  -- The calibration of a distribution over a series, where each round has some numbers to run on
  -- and no statistic refuses a number of a warm-up, does not end in `log.Fatalf`: its rate is the
  -- part of the rounds whose test has alarmed after all the numbers of the round, warm-up and run,
  -- although each round stops at its first alarm; and there are at most as many as rounds.
  pub measure-alarmed :
      (z : Sizes) (rngs : List (ℕ → F)) (pdf : Pdf F) (s : S)
      → 0 < z.run
      → AllWarmUp z (fresh pdf s) rngs
      → (measure z rngs (calibrated_test pdf (ok s))
          ≡ rate_of z.loops (some (count_alarmed z (fresh pdf s) rngs)))
        × (count_alarmed z (fresh pdf s) rngs ≤ length rngs)
  unfolding measure
  measure-alarmed z rngs pdf s some_run warm = (
    ap (measure z rngs) (calibrated_test-fresh pdf s)
        ∙ ap (rate_of z.loops) (
            count_errors-alarmed z rngs (fresh pdf s) some_run ((collecting_ucl, false, refl), tt)
              warm),
    count_alarmed-le z rngs (fresh pdf s),
  )
