-- ===== src/Command/Loop.antt =====
-- The `select` loop of Exec in pkg/monny/command.go. Each event is what one channel delivers, with
-- the answers that its handler asks for; a run is the list of the events in the order in which the
-- loop takes them.
use monny.Base.{ℕ, String, Bool, true, false, List, [], ◌∷◌, ◌++◌, if◌then◌else◌}
use monny.Base.Int.{ℤ, pos, ltb_ℤ}
use monny.Proto.{ReportReason}
use monny.Config.{Config}
use monny.Command.Record.{Command}
use monny.Command.Handlers.{
  Ending, FileState, finished, on_signal, on_timeout, on_time_warning, check_memory,
  kill_on_high_memory,
}

-- `memory_profile mem now` is a tick at which `mem` is measured; the loop reads the clock, `now`,
-- only if it kills the process.
pub data Event : Type 0 where
  run_finished : ℤ → Ending → (String → FileState) → Event
  os_signal : ℤ → Event
  kill_timeout : ℤ → Event
  notify_timeout : Event
  memory_profile : ℕ → ℤ → Event

-- whether the channel of an event was set up: the two timeouts only where they are positive; the
-- ticks of the memory on Linux, which is assumed here
unfoldable pub is_armed {ℓ} : {R : Type ℓ} → Config R → Event → Bool
is_armed cfg (kill_timeout now) = ltb_ℤ (pos 0) cfg.kill_timeout
is_armed cfg notify_timeout = ltb_ℤ (pos 0) cfg.notify_timeout
is_armed cfg _ = true

module _ {ℓ} {R : Type ℓ} where
  -- one round of the loop: the command, the reports that it starts to send, and whether Exec returns
  unfoldable pub react : Event → Command R → Command R × List ReportReason × Bool
  react (run_finished now ending stat) c =
      let (c', sends) = finished now ending stat c in (c', sends, true)
  react (os_signal now) c = let (c', sends) = on_signal now c in (c', sends, true)
  react (kill_timeout now) c = let (c', sends) = on_timeout now c in (c', sends, true)
  react notify_timeout c = let (c', sends) = on_time_warning c in (c', sends, false)
  react (memory_profile mem now) c =
      let (c', sends, high) = check_memory mem c in
      let (c'', more) = kill_on_high_memory now c' in
      if high then (c'', sends ++ more, true) else (c', sends, false)

  -- The loop, on the events that the channels deliver. No channel that was not set up delivers one.
  unfoldable pub exec_loop : List Event → Command R → Command R × List ReportReason × Bool
  exec_loop [] c = (c, [], false)
  exec_loop (e ∷ es) c =
      let skipped = exec_loop es c in
      let (c', sends, over) = react e c in
      let (c'', more, over') = exec_loop es c' in
      if is_armed c.config e
      then (if over then (c', sends, true) else (c'', sends ++ more, over'))
      else skipped
