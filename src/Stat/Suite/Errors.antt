-- ===== src/Stat/Suite/Errors.antt =====
-- What an error of one statistic means for the others of its test (pkg/stat/stattest.go).
use monny.Base.{◌≡◌, refl, ap, ◌∙◌, none, some, List, [], ◌∷◌, ◌++◌, map, arith}
use monny.Base.Float.{Float}
use monny.Metric.Recorder.{Recorder}
use monny.Stat.Statistic.{TestStatistic, StatError, record_obs}
use monny.Stat.Suite.{record_subs}

module _ {ℓ κ} {F : Type ℓ} {S : Type κ} ⦃f : Float F⦄ ⦃r : Recorder F S⦄ where
  abbrev pub AllAccept : F → List (TestStatistic F S) → Type 0
  AllAccept o [] = Unit
  AllAccept o (s ∷ sub) = ((record_obs o s).1 ≡ none) × AllAccept o sub

  -- `sub` after an observation that each statistic has recorded
  abbrev pub recorded_by_all : F → List (TestStatistic F S) → List (TestStatistic F S)
  recorded_by_all o sub = map (λ s. (record_obs o s).0) sub

  pub record_subs-ok :
      (o : F) (s : TestStatistic F S) (sub : List (TestStatistic F S))
      → (record_obs o s).1 ≡ none
      → record_subs o (s ∷ sub)
        ≡ ((record_obs o s).0 ∷ (record_subs o sub).0, (record_subs o sub).1)
  unfolding record_subs
  record_subs-ok o s sub h = ground arith

  pub record_subs-err :
      (o : F) (s : TestStatistic F S) (sub : List (TestStatistic F S)) {x : StatError}
      → (record_obs o s).1 ≡ some x
      → record_subs o (s ∷ sub) ≡ ((record_obs o s).0 ∷ sub, some x)
  unfolding record_subs
  record_subs-err o s sub h = ground arith

  -- An observation that no statistic refuses is recorded by each of them; one that some statistic
  -- refuses is recorded by those in front of the first that does, and never reaches those behind
  -- it.
  pub record_subs-stops :
      (o : F) (before : List (TestStatistic F S)) (s : TestStatistic F S)
      (behind : List (TestStatistic F S)) {x : StatError}
      → AllAccept o before
      → (record_obs o s).1 ≡ some x
      → (record_subs o before ≡ (recorded_by_all o before, none))
        × (record_subs o (before ++ (s ∷ behind))
            ≡ (recorded_by_all o before ++ ((record_obs o s).0 ∷ behind), some x))
  record_subs-stops o [] s behind all h = (unfold record_subs in refl, record_subs-err o s behind h)
  record_subs-stops o (t ∷ before) s behind all h =
      let rest = record_subs-stops o before s behind all.1 h in
      (
        record_subs-ok o t before all.0 ∙ ap (λ z. ((record_obs o t).0 ∷ z.0, z.1)) rest.0,
        record_subs-ok o t (before ++ (s ∷ behind)) all.0
            ∙ ap (λ z. ((record_obs o t).0 ∷ z.0, z.1)) rest.1,
      )
