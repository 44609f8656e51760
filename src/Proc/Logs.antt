-- ===== src/Proc/Logs.antt =====
-- pkg/monny/proc/logs.go and errors.go: the loop of startLogEmitter over the lines of a source, with
-- the queue of the source, the event bus and the sinks. The scanner's lines, the clock, the
-- encoding of events and the writers are parameters.
pub mod Emitted
mod Tests
use monny.Base.{
  String, Bool, List, [], ◌∷◌, ◌++◌, Option, none, some, Outcome, returned, then_call,
  if◌then◌else◌,
}
use monny.Base.Int.{ℤ}
use monny.Eventbus.{Bus, dispatch}
use monny.Proc.Queue.{Queue, add}
use monny.Proc.LogOption.{SourceOrSink, Source}

abbrev pub log_topic : String
log_topic = "log_topic"

-- `eventbus.OnErrorTopic()`
abbrev pub error_topic : String
error_topic = "__errors__"

-- `log_event` is none where NewEvent has an error, and `no_event` the event that stands beside it;
-- `writes` tells whether the writer of a sink takes a line.
pub record Io {ℓ} (E : Type ℓ) : Type ℓ where
  pub log_event : ℤ → String → Option E
  pub no_event : E
  pub event_error : E
  pub sink_error : SourceOrSink → E
  pub writes : SourceOrSink → String → Bool

-- what the emitter of one source changes; `written` is what the sinks have taken
pub record Emitter {ℓ} (E : Type ℓ) : Type ℓ where
  pub q : Queue String
  pub bus : Bus E
  pub written : List (SourceOrSink × String)

module _ {ℓ} {E : Type ℓ} where
  -- `newError(bus, e)`
  abbrev new_error : E → Bus E → Bus E
  unfolding dispatch
  new_error e b = dispatch e (error_topic ∷ []) b

  -- the event of a line
  unfoldable pub dispatch_line : Io E → Option E → Bus E → Bus E
  unfolding dispatch
  dispatch_line io (some e) b = dispatch e (log_topic ∷ []) b
  dispatch_line io none b = dispatch io.no_event (log_topic ∷ []) (new_error io.event_error b)

  -- the loop over the sinks; `src` is the name of the source, which the errors have
  unfoldable pub write_sinks :
      Io E → SourceOrSink → String → List SourceOrSink → Emitter E → Emitter E
  unfolding dispatch
  write_sinks io src line [] m = m
  write_sinks io src line (s ∷ sinks) m =
      let taken =
        write_sinks io src line sinks (record m { written = m.written ++ (s, line) ∷ [] }) in
      let refused =
        write_sinks io src line sinks (record m { bus = new_error (io.sink_error src) m.bus }) in
      if io.writes s line then taken else refused

  -- the body of the loop, at a time
  unfoldable pub emit :
      Io E → SourceOrSink → List SourceOrSink → ℤ → String → Emitter E → Outcome (Emitter E)
  unfolding add dispatch_line write_sinks
  emit io src sinks now line m = then_call (add line m.q) (λ q. returned (
      write_sinks io src line sinks
        (record m { q = q; bus = dispatch_line io (io.log_event now line) m.bus })))

  -- `startLogEmitter(bus, src, sinks, done)` up to the end of the lines, each with its time
  unfoldable pub start_log_emitter :
      Io E → SourceOrSink → List SourceOrSink → List (ℤ × String) → Emitter E → Outcome (Emitter E)
  unfolding emit
  start_log_emitter io src sinks [] m = returned m
  start_log_emitter io src sinks ((now, line) ∷ lines) m =
      then_call (emit io src sinks now line m) (start_log_emitter io src sinks lines)
