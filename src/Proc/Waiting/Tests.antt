-- ===== src/Proc/Waiting/Tests.antt =====
-- A log processor of two sources whose context is cancelled (pkg/monny/proc/logs.go, Wait).
use monny.Base.{◌≡◌, true, false}
use monny.Proc.Waiting.{
  returned_with, Waiting, starts, ends, calls, cancels, gives_up, Reached, begin, then_step,
}
use monny.Proc.Waiting.Finished.{has_returned, Reached-returned}

abbrev cut_off : Waiting
cut_off = record {
  unstarted = 0;
  emitting = 1;
  wg = 1;
  caller = returned_with true;
  wg_done = false;
  cancelled = true;
  sinks_closed = true;
}

run : Reached 2 cut_off
run =
    then_step
      (then_step (then_step (then_step (then_step (then_step begin starts) starts) calls) ends)
        cancels)
      gives_up

Reached-returned_example :
    (cut_off.caller ≡ returned_with false → (cut_off.unstarted ≡ 0) × (cut_off.emitting ≡ 0))
    × (cut_off.caller ≡ returned_with true → cut_off.cancelled ≡ true)
    × (cut_off.sinks_closed ≡ has_returned cut_off.caller)
Reached-returned_example = Reached-returned run
