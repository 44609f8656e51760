-- ===== src/Command/Exec.antt =====
-- Exec and Cleanup of pkg/monny/command.go: the start of the process, and what happens while it
-- runs. The goroutines that copy input and output and the loop of Exec take turns; a run is the
-- list of what they do, in any order. Pipes, processes and writers are parameters: what their calls
-- answer stands beside each of them.
pub mod Histories
pub mod Reported
mod Tests
use monny.Base.{
  ℕ, String, Bool, true, false, List, [], ◌∷◌, ◌++◌, Option, none, some, Outcome, returned, panic,
  then_call, if◌then◌else◌,
}
use monny.Base.Int.{ℤ}
use monny.Proto.{ReportReason}
use monny.Command.Record.{Command}
use monny.Command.Loop.{
  Event, run_finished, os_signal, kill_timeout, notify_timeout, memory_profile, is_armed, react,
}
use monny.Command.Output.{Library, Clock, process_stdout, process_stderr}

-- a callback that is registered for Cleanup: nil, or a function with the error that it returns
pub data Callback : Type 0 where
  nil_callback : Callback
  callback : Option String → Callback

-- `Cleanup()`: the errors of the callbacks
unfoldable pub run_cleanup : List Callback → List String
run_cleanup [] = []
run_cleanup (nil_callback ∷ fs) = run_cleanup fs
run_cleanup (callback none ∷ fs) = run_cleanup fs
run_cleanup (callback (some e) ∷ fs) = e ∷ run_cleanup fs

-- `wrapComplexCommand(shell, args)`: the arguments, a callback and an error
abbrev wrap_complex_command : String → List String → List String × Callback × Option String
wrap_complex_command shell args = (args, nil_callback, none)

-- What the start of the process answers: the errors of the three pipes and of `cmd.Start`, the
-- time and the process id.
pub record Launch : Type 0 where
  pub stdin_pipe : Option String
  pub stdout_pipe : Option String
  pub stderr_pipe : Option String
  pub start_error : Option String
  pub now : ℤ
  pub pid : ℕ

abbrev pub first_error : Option String → Option String → Option String
first_error (some e) next = some e
first_error none next = next

abbrev pub pipe_error : Launch → Option String
pipe_error s = first_error s.stdin_pipe (first_error s.stdout_pipe s.stderr_pipe)

-- a copy of standard input that fails
pub data StdinError : Type 0 where
  stat_failed copy_failed : StdinError

-- What one of the goroutines does: the copy of the input ends, a scanner finds a line and writes it
-- to `out` or `err`, with the error of that write, or the loop receives an event, with the error of
-- the signal that its handler sends to the process. The loop receives `run_finished` only from the
-- goroutine that waits for the other three and has called Cleanup; that is not written out.
pub data Happening : Type 0 where
  stdin_done : Option StdinError → Happening
  out_line err_line : Option String → Clock → String → Happening
  loop_event : Event → Option String → Happening

-- the error that Exec returns with an event that ends its loop
abbrev pub exec_error : Event → Option String → Option String
exec_error (run_finished now ending stat) unsent = none
exec_error _ unsent = unsent

-- a command with its process id and its callbacks
pub record Running {ℓ} (R : Type ℓ) : Type ℓ where
  pub command : Command R
  pub pid : ℕ
  pub cleanup : List Callback

-- What a run comes to: the command, the reports that it started to send, and what Exec returned,
-- if it has.
abbrev pub Progress {ℓ} : Type ℓ → Type ℓ
Progress R = Command R × List ReportReason × Option (Option String)

abbrev pub going_on {ℓ} : {R : Type ℓ} → Command R × List ReportReason → Outcome (Progress R)
going_on (c, sends) = returned (c, sends, none)

abbrev pub after_event {ℓ} :
    {R : Type ℓ} → Option String → Command R × List ReportReason × Bool → Outcome (Progress R)
after_event e (c, sends, true) = returned (c, sends, some e)
after_event e (c, sends, false) = returned (c, sends, none)

abbrev pub add_sends {ℓ} : {R : Type ℓ} → List ReportReason → Progress R → Outcome (Progress R)
add_sends sends (c, more, e) = returned (c, sends ++ more, e)

-- The first of the commands where a pipe has an error, the second where the start has one, the
-- third otherwise.
abbrev pub launched {ℓ} :
    {R : Type ℓ}
    → Running R
    → Running R
    → Running R
    → Option String
    → Option String
    → Outcome (Running R × Option String)
launched r r' r'' (some x) e = returned (r, some x)
launched r r' r'' none (some x) = returned (r', some x)
launched r r' r'' none none = returned (r'', none)

module _ {ℓ} {R : Type ℓ} where
  -- the part of Exec in front of its goroutines, with the error that it returns
  unfoldable pub start_process : Launch → Running R → Outcome (Running R × Option String)
  start_process s r =
      let c = r.command in
      let (wrapped, cleanup, e) = wrap_complex_command c.config.shell c.user_command in
      let r' = record r { cleanup = r.cleanup ++ (cleanup ∷ []) } in
      let r'' = record r' { command = record c { start = s.now } } in
      elim e [
        | some x ↦ returned (r, some x)
        | none ↦ elim wrapped [
          | [] ↦ panic
          | name ∷ args ↦ launched r' r'' (record r'' { pid = s.pid }) (pipe_error s) s.start_error
        ]
      ]

  -- `c.errors.ReportError(err)`, where there is an error
  unfoldable pub report_error {κ} : {E : Type κ} → Option E → Command R → Outcome (Command R)
  report_error none c = returned c
  report_error (some e) c = if c.has_errors then returned c else panic

module _ {ℓ κ} {R : Type ℓ} {F : Type κ} (l : Library R F) where
  unfoldable pub happen : Happening → Command R → Outcome (Progress R)
  unfolding report_error
  happen (stdin_done none) c = returned (c, [], none)
  happen (stdin_done (some stat_failed)) c = panic
  happen (stdin_done (some copy_failed)) c =
      then_call (report_error (some copy_failed) c) (λ c'. returned (c', [], none))
  happen (out_line unwritten clock line) c =
      then_call (report_error unwritten c)
        (λ c'. then_call (process_stdout l clock line c') going_on)
  happen (err_line unwritten clock line) c =
      then_call (report_error unwritten c)
        (λ c'. then_call (process_stderr l clock line c') going_on)
  happen (loop_event e unsent) c =
      let ended = after_event (exec_error e unsent) (react e c) in
      if is_armed c.config e then ended else returned (c, [], none)

  -- the rest of a run, unless Exec has returned
  abbrev pub then_run : (Command R → Outcome (Progress R)) → Progress R → Outcome (Progress R)
  then_run rest (c, sends, some e) = returned (c, sends, some e)
  then_run rest (c, sends, none) = then_call (rest c) (add_sends sends)

  unfoldable pub exec_run : List Happening → Command R → Outcome (Progress R)
  unfolding happen
  exec_run [] c = returned (c, [], none)
  exec_run (h ∷ hs) c = then_call (happen h c) (then_run (exec_run hs))
