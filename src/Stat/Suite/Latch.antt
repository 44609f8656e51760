-- ===== src/Stat/Suite/Latch.antt =====
-- The alarm of a test stays until it is moved by hand (pkg/stat/stattest.go).
use mathlib.Core.Path.{subst}
use monny.Stat.Suite.Errors.{record_subs-ok, record_subs-err}
use monny.Base.{◌≡◌, sym, ◌∙◌, Bool, true, List, [], ◌∷◌, arith, Option-cases, inl, inr}
use monny.Base.Float.{Float}
use monny.Metric.Recorder.{Recorder}
use monny.Stat.Machine.{Phase, machine_at}
use monny.Stat.Statistic
use monny.Stat.Statistic.{TestStatistic, StatError, record_obs}
use monny.Stat.Statistic.Latched
use monny.Stat.Statistic.Alarm.{record_obs-Stands, has_alarmed-is_tripped}
use monny.Stat.Statistic.Latched.{alarm_latched}
use monny.Stat.Suite.{Test, record_subs, record_test, any_alarmed, has_alarmed}

module _ {ℓ κ} {F : Type ℓ} {S : Type κ} ⦃f : Float F⦄ ⦃r : Recorder F S⦄ where
  abbrev pub Standing : TestStatistic F S → Type 0
  Standing s = (p : Phase) × (b : Bool) × (s.machine ≡ machine_at p b)

  -- Every statistic of the list has the machine of state.go, at some phase.
  abbrev pub AllStand : List (TestStatistic F S) → Type 0
  AllStand [] = Unit
  AllStand (s ∷ sub) = Standing s × AllStand sub

  stays_alarmed :
      (o : F) (s : TestStatistic F S) (p : Phase) (b : Bool)
      → s.machine ≡ machine_at p b
      → Statistic.has_alarmed s ≡ true
      → Statistic.has_alarmed (record_obs o s).0 ≡ true
  unfolding Latched.record_each
  stays_alarmed o s p b at alarmed =
      (alarm_latched (o ∷ []) p b s (sym (has_alarmed-is_tripped p b s at) ∙ alarmed) at).0

  Stands_after : (o : F) (s : TestStatistic F S) → Standing s → Standing (record_obs o s).0
  Stands_after o s (p, b, at) =
      let after = record_obs-Stands o p b s at in (after.0, after.1, after.2)

  -- by the error of the first statistic
  pub record_subs-AllStand :
      (o : F) (sub : List (TestStatistic F S)) → AllStand sub → AllStand (record_subs o sub).0
  record_subs-AllStand o [] h = unfold record_subs in tt
  record_subs-AllStand o (s ∷ sub) (at, h) = elim (Option-cases (record_obs o s).1) [
    | inl e ↦
        subst (λ z. AllStand z.0) (sym (record_subs-ok o s sub e))
          (Stands_after o s at, record_subs-AllStand o sub h)
    | inr (x, e) ↦
        subst (λ z. AllStand z.0) (sym (record_subs-err o s sub e)) (Stands_after o s at, h)
  ]

  any_alarmed-cons :
      (s s' : TestStatistic F S) (sub sub' : List (TestStatistic F S))
      → any_alarmed (s ∷ sub) ≡ true
      → (Statistic.has_alarmed s ≡ true → Statistic.has_alarmed s' ≡ true)
      → (any_alarmed sub ≡ true → any_alarmed sub' ≡ true)
      → any_alarmed (s' ∷ sub') ≡ true
  unfolding any_alarmed
  any_alarmed-cons s s' sub sub' a head tail = ground arith

  record_subs-any_alarmed :
      (o : F) (sub : List (TestStatistic F S))
      → AllStand sub
      → any_alarmed sub ≡ true
      → any_alarmed (record_subs o sub).0 ≡ true
  record_subs-any_alarmed o [] h a = unfold record_subs in a
  record_subs-any_alarmed o (s ∷ sub) ((p, b, at), h) a = elim (Option-cases (record_obs o s).1) [
    | inl e ↦
        subst (λ z. any_alarmed z.0 ≡ true) (sym (record_subs-ok o s sub e))
          (any_alarmed-cons s (record_obs o s).0 sub (record_subs o sub).0 a
            (stays_alarmed o s p b at) (record_subs-any_alarmed o sub h))
    | inr (x, e) ↦
        subst (λ z. any_alarmed z.0 ≡ true) (sym (record_subs-err o s sub e))
          (any_alarmed-cons s (record_obs o s).0 sub sub a (stays_alarmed o s p b at) (λ k. k))
  ]

  unfoldable pub record_tests : List F → Test F S → Test F S
  record_tests [] t = t
  record_tests (o ∷ os) t = record_tests os (record_test o t).0

  -- Once a test has alarmed, it stays alarmed whatever it observes, also past observations that a
  -- statistic refuses, if each of its statistics has the machine of state.go at some phase.
  pub has_alarmed-record_tests :
      (os : List F) (t : Test F S)
      → AllStand t.sub
      → has_alarmed t ≡ true
      → has_alarmed (record_tests os t) ≡ true
  unfolding has_alarmed record_tests record_test
  has_alarmed-record_tests [] t h a = a
  has_alarmed-record_tests (o ∷ os) t h a =
      has_alarmed-record_tests os (record_test o t).0 (record_subs-AllStand o t.sub h)
        (record_subs-any_alarmed o t.sub h a)
