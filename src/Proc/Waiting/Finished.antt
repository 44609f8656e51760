-- ===== src/Proc/Waiting/Finished.antt =====
-- What a return of Wait means (pkg/monny/proc/logs.go, Wait).
use monny.Base.{ℕ, ◌≡◌, refl, Bool, true, false, arith}
use monny.Proc.Waiting.{
  Caller, before, returned_with, Waiting, at_start, Step, starts, ends, calls, closes, cancels,
  finishes, gives_up, Reached, begin, then_step,
}

abbrev pub has_called : Caller → Bool
has_called before = false
has_called _ = true

abbrev pub has_returned : Caller → Bool
has_returned (returned_with e) = true
has_returned _ = false

record IsCounted (w : Waiting) : Type 0 where
  counted : w.wg ≡ w.emitting
  all_started : has_called w.caller ≡ true → w.unstarted ≡ 0
  only_called : w.wg_done ≡ true → (has_called w.caller ≡ true) × (w.emitting ≡ 0)
  only_done : w.caller ≡ returned_with false → w.wg_done ≡ true
  only_cancelled : w.caller ≡ returned_with true → w.cancelled ≡ true
  only_returned : w.sinks_closed ≡ has_returned w.caller

Step-IsCounted : {w w' : Waiting} → Step w w' → IsCounted w → IsCounted w'
Step-IsCounted starts inv = record {
  counted = ground (arith, inv.counted);
  all_started = λ h. ground (arith, inv.all_started);
  only_called = λ h. ground (arith, inv.only_called, inv.counted, inv.all_started);
  only_done = λ h. ground (arith, inv.only_done);
  only_cancelled = λ h. ground (arith, inv.only_cancelled);
  only_returned = ground (arith, inv.only_returned);
}
Step-IsCounted ends inv = record {
  counted = ground (arith, inv.counted);
  all_started = λ h. ground (arith, inv.all_started);
  only_called = λ h. ground (arith, inv.only_called, inv.counted, inv.all_started);
  only_done = λ h. ground (arith, inv.only_done);
  only_cancelled = λ h. ground (arith, inv.only_cancelled);
  only_returned = ground (arith, inv.only_returned);
}
Step-IsCounted calls inv = record {
  counted = ground (arith, inv.counted);
  all_started = λ h. ground (arith, inv.all_started);
  only_called = λ h. ground (arith, inv.only_called, inv.counted, inv.all_started);
  only_done = λ h. ground (arith, inv.only_done);
  only_cancelled = λ h. ground (arith, inv.only_cancelled);
  only_returned = ground (arith, inv.only_returned);
}
Step-IsCounted closes inv = record {
  counted = ground (arith, inv.counted);
  all_started = λ h. ground (arith, inv.all_started);
  only_called = λ h. ground (arith, inv.only_called, inv.counted, inv.all_started);
  only_done = λ h. ground (arith, inv.only_done);
  only_cancelled = λ h. ground (arith, inv.only_cancelled);
  only_returned = ground (arith, inv.only_returned);
}
Step-IsCounted cancels inv = record {
  counted = ground (arith, inv.counted);
  all_started = λ h. ground (arith, inv.all_started);
  only_called = λ h. ground (arith, inv.only_called, inv.counted, inv.all_started);
  only_done = λ h. ground (arith, inv.only_done);
  only_cancelled = λ h. ground (arith, inv.only_cancelled);
  only_returned = ground (arith, inv.only_returned);
}
Step-IsCounted finishes inv = record {
  counted = ground (arith, inv.counted);
  all_started = λ h. ground (arith, inv.all_started);
  only_called = λ h. ground (arith, inv.only_called, inv.counted, inv.all_started);
  only_done = λ h. ground (arith, inv.only_done);
  only_cancelled = λ h. ground (arith, inv.only_cancelled);
  only_returned = ground (arith, inv.only_returned);
}
Step-IsCounted gives_up inv = record {
  counted = ground (arith, inv.counted);
  all_started = λ h. ground (arith, inv.all_started);
  only_called = λ h. ground (arith, inv.only_called, inv.counted, inv.all_started);
  only_done = λ h. ground (arith, inv.only_done);
  only_cancelled = λ h. ground (arith, inv.only_cancelled);
  only_returned = ground (arith, inv.only_returned);
}

at_start-IsCounted : (sources : ℕ) → IsCounted (at_start sources)
at_start-IsCounted sources = record {
  counted = refl;
  all_started = λ h. absurd (cc);
  only_called = λ h. absurd (cc);
  only_done = λ h. absurd (cc);
  only_cancelled = λ h. absurd (cc);
  only_returned = refl;
}

Reached-IsCounted : {sources : ℕ} {w : Waiting} → Reached sources w → IsCounted w
Reached-IsCounted (begin {sources}) = at_start-IsCounted sources
Reached-IsCounted (then_step run step) = Step-IsCounted step (Reached-IsCounted run)

-- At every point of every run, Wait has returned without an error only if every source was started
-- and every emitter has ended, and with one only if its context was cancelled; and the sinks are
-- closed exactly if it has returned.
pub Reached-returned :
    {sources : ℕ} {w : Waiting}
    → Reached sources w
    → (w.caller ≡ returned_with false → (w.unstarted ≡ 0) × (w.emitting ≡ 0))
      × (w.caller ≡ returned_with true → w.cancelled ≡ true)
      × (w.sinks_closed ≡ has_returned w.caller)
Reached-returned run =
    let inv = Reached-IsCounted run in
    (
      λ e.
          let (called, ended) = inv.only_called (inv.only_done e) in
          (inv.all_started called, ended),
      inv.only_cancelled,
      inv.only_returned,
    )
