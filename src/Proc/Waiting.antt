-- ===== src/Proc/Waiting.antt =====
-- The wait group of a log processor (pkg/monny/proc/logs.go, NewLogProcessor and Wait), with the
-- emitters of its sources, the goroutine that Wait starts and its context, as steps in any order.
pub mod Finished
mod Tests
use monny.Base.{ℕ, zero, suc, ◌-◌, Bool, true, false, Option, none, some}

-- where the caller of Wait is: not there yet, at its `select`, or behind it, with the error that a
-- context that is cancelled gives
pub data Caller : Type 0 where
  before selecting : Caller
  returned_with : Bool → Caller

-- `unstarted` counts the sources in front of the loop of NewLogProcessor, `emitting` the emitters
-- that have not called `done`; `wg_done` is whether that channel is closed, and `sinks_closed`
-- whether the deferred call has closed the sinks.
pub record Waiting : Type 0 where
  pub unstarted : ℕ
  pub emitting : ℕ
  pub wg : ℕ
  pub caller : Caller
  pub wg_done : Bool
  pub cancelled : Bool
  pub sinks_closed : Bool

abbrev pub at_start : ℕ → Waiting
at_start sources = record {
  unstarted = sources;
  emitting = 0;
  wg = 0;
  caller = before;
  wg_done = false;
  cancelled = false;
  sinks_closed = false;
}

pub data Step : Waiting → Waiting → Type 0 where
  -- `l.wg.Add(1)` and `go startLogEmitter(...)`
  starts :
      {k e n : ℕ} {c : Caller} {d x s : Bool}
      → Step
          (record {
            unstarted = suc k;
            emitting = e;
            wg = n;
            caller = c;
            wg_done = d;
            cancelled = x;
            sinks_closed = s;
          })
          (record {
            unstarted = k;
            emitting = suc e;
            wg = suc n;
            caller = c;
            wg_done = d;
            cancelled = x;
            sinks_closed = s;
          })
  -- the deferred `done()` of an emitter
  ends :
      {k e n : ℕ} {c : Caller} {d x s : Bool}
      → Step
          (record {
            unstarted = k;
            emitting = suc e;
            wg = n;
            caller = c;
            wg_done = d;
            cancelled = x;
            sinks_closed = s;
          })
          (record {
            unstarted = k;
            emitting = e;
            wg = n - 1;
            caller = c;
            wg_done = d;
            cancelled = x;
            sinks_closed = s;
          })
  -- the call of Wait, on a processor that NewLogProcessor has returned
  calls :
      {e n : ℕ} {d x s : Bool}
      → Step
          (record {
            unstarted = 0;
            emitting = e;
            wg = n;
            caller = before;
            wg_done = d;
            cancelled = x;
            sinks_closed = s;
          })
          (record {
            unstarted = 0;
            emitting = e;
            wg = n;
            caller = selecting;
            wg_done = d;
            cancelled = x;
            sinks_closed = s;
          })
  -- `l.wg.Wait(); close(wgDone)`
  closes :
      {k e : ℕ} {x s : Bool}
      → Step
          (record {
            unstarted = k;
            emitting = e;
            wg = 0;
            caller = selecting;
            wg_done = false;
            cancelled = x;
            sinks_closed = s;
          })
          (record {
            unstarted = k;
            emitting = e;
            wg = 0;
            caller = selecting;
            wg_done = true;
            cancelled = x;
            sinks_closed = s;
          })
  cancels :
      {k e n : ℕ} {c : Caller} {d x s : Bool}
      → Step
          (record {
            unstarted = k;
            emitting = e;
            wg = n;
            caller = c;
            wg_done = d;
            cancelled = x;
            sinks_closed = s;
          })
          (record {
            unstarted = k;
            emitting = e;
            wg = n;
            caller = c;
            wg_done = d;
            cancelled = true;
            sinks_closed = s;
          })
  -- `case <-wgDone`
  finishes :
      {k e n : ℕ} {x s : Bool}
      → Step
          (record {
            unstarted = k;
            emitting = e;
            wg = n;
            caller = selecting;
            wg_done = true;
            cancelled = x;
            sinks_closed = s;
          })
          (record {
            unstarted = k;
            emitting = e;
            wg = n;
            caller = returned_with false;
            wg_done = true;
            cancelled = x;
            sinks_closed = true;
          })
  -- `case <-ctx.Done()`
  gives_up :
      {k e n : ℕ} {d s : Bool}
      → Step
          (record {
            unstarted = k;
            emitting = e;
            wg = n;
            caller = selecting;
            wg_done = d;
            cancelled = true;
            sinks_closed = s;
          })
          (record {
            unstarted = k;
            emitting = e;
            wg = n;
            caller = returned_with true;
            wg_done = d;
            cancelled = true;
            sinks_closed = true;
          })

pub data Reached : ℕ → Waiting → Type 0 where
  begin : {sources : ℕ} → Reached sources (at_start sources)
  then_step : {sources : ℕ} {w w' : Waiting} → Reached sources w → Step w w' → Reached sources w'
