-- ===== src/Command/Exec/Reported.antt =====
-- Failures that Exec hands to its reporter of errors (pkg/monny/command.go, Exec).
use monny.Base.{
  ◌≡◌, refl, ap, ◌∙◌, Bool, true, false, List, [], ◌∷◌, ◌++◌, Option, none, some, returned, panic,
  then_call, String, arith,
}
use monny.Base.Int.{ℤ, ◌-ℤ◌}
use monny.Proto.{ReportReason}
use monny.Config.{Config}
use monny.Command.Record.{Command, new_command}
use monny.Command.Handlers.{
  Ending, FileState, finished, record_ending, handle_file_creation, on_signal, on_timeout,
  on_time_warning, check_memory, kill_on_high_memory,
}
use monny.Command.Loop.{Event, run_finished, react}
use monny.Command.Files.{check_files_lem}
use monny.Command.Output.{Library, Clock, note_matches, process_stdout, process_stderr}
use monny.Command.Exec.{
  Happening, stdin_done, out_line, err_line, loop_event, stat_failed, copy_failed, report_error,
  add_sends, happen, then_run, exec_run,
}
use monny.Command.Exec.Histories.{then_run-GoesOn}

module _ {ℓ} {R : Type ℓ} where
  finished-errors :
      (now : ℤ) (ending : Ending) (stat : String → FileState) (c : Command R)
      → (finished now ending stat c).0.has_errors ≡ c.has_errors
  unfolding finished record_ending handle_file_creation
  finished-errors now ending stat c = ground (
    arith,
    check_files_lem stat c.config.creates
        (record_ending ending (record c { finish = now; duration = now -ℤ c.start })).0,
  )

  pub react-errors : (e : Event) (c : Command R) → (react e c).0.has_errors ≡ c.has_errors
  unfolding react on_signal on_timeout on_time_warning check_memory kill_on_high_memory
  react-errors (run_finished now ending stat) c = finished-errors now ending stat c
  react-errors _ c = ground arith

-- whether a goroutine fails to read its input or to write a line
abbrev pub fails : Happening → Bool
fails (stdin_done (some e)) = true
fails (out_line (some e) clock line) = true
fails (err_line (some e) clock line) = true
fails _ = false

module _ {ℓ κ} {R : Type ℓ} {F : Type κ} (l : Library R F) where
  process_stdout-errors :
      (clock : Clock) (line : String) (c c' : Command R) {sends : List ReportReason}
      → process_stdout l clock line c ≡ returned (c', sends)
      → c'.has_errors ≡ c.has_errors
  unfolding process_stdout note_matches
  process_stdout-errors clock line c c' h = ground arith

  process_stderr-errors :
      (clock : Clock) (line : String) (c c' : Command R) {sends : List ReportReason}
      → process_stderr l clock line c ≡ returned (c', sends)
      → c'.has_errors ≡ c.has_errors
  unfolding process_stderr note_matches
  process_stderr-errors clock line c c' h = ground arith

  pub happen-errors :
      (h : Happening) (c c' : Command R) {sends : List ReportReason} {e : Option (Option String)}
      → happen l h c ≡ returned (c', sends, e)
      → c'.has_errors ≡ c.has_errors
  unfolding happen report_error
  happen-errors (stdin_done none) c c' at = ground arith
  happen-errors (stdin_done (some stat_failed)) c c' at = ground arith
  happen-errors (stdin_done (some copy_failed)) c c' at = ground arith
  happen-errors (out_line unwritten clock line) c c' {sends} at =
      ground (arith, process_stdout-errors clock line c c' {sends = sends})
  happen-errors (err_line unwritten clock line) c c' {sends} at =
      ground (arith, process_stderr-errors clock line c c' {sends = sends})
  happen-errors (loop_event e unsent) c c' at = ground (arith, react-errors e c)

  happen-panics :
      (h : Happening) (c : Command R) → c.has_errors ≡ false → fails h ≡ true → happen l h c ≡ panic
  unfolding happen report_error
  happen-panics (stdin_done (some stat_failed)) c none_yet f = refl
  happen-panics (stdin_done (some copy_failed)) c none_yet f = ground arith
  happen-panics (out_line (some e) clock line) c none_yet f = ground arith
  happen-panics (err_line (some e) clock line) c none_yet f = ground arith
  happen-panics _ c none_yet f = absurd (cc)

  failure-panics :
      (hs : List Happening) (h : Happening) (more : List Happening) (c c' : Command R)
      (sends : List ReportReason)
      → c.has_errors ≡ false
      → exec_run l hs c ≡ returned (c', sends, none)
      → fails h ≡ true
      → exec_run l (hs ++ h ∷ more) c ≡ panic
  unfolding exec_run
  failure-panics [] h more c c' sends none_yet at f =
      ap (λ o. then_call o (then_run l (exec_run l more))) (happen-panics h c none_yet f)
  failure-panics (h' ∷ hs) h more c c' sends none_yet at f =
      let (c1, some_sends, later, first, rest) = then_run-GoesOn l (happen l h' c) hs c' sends at in
      ap (λ o. then_call o (then_run l (exec_run l (hs ++ h ∷ more)))) first
      ∙ ap (λ o. then_call o (add_sends some_sends))
          (failure-panics hs h more c1 c' later (happen-errors h' c c1 first ∙ none_yet) rest f)

  -- A command from `New` has no reporter of errors: wherever in the run of its process the copy of
  -- the standard input fails, or a line cannot be written, while Exec has not returned, the program
  -- panics.
  pub exec_run-panics :
      (user_command : List String) (cfg : Config R) (now : ℤ) (hs : List Happening) (h : Happening)
      (more : List Happening) (c' : Command R) (sends : List ReportReason)
      → exec_run l hs (record (new_command user_command cfg) { start = now })
        ≡ returned (c', sends, none)
      → fails h ≡ true
      → exec_run l (hs ++ h ∷ more) (record (new_command user_command cfg) { start = now }) ≡ panic
  unfolding new_command
  exec_run-panics user_command cfg now hs h more c' sends at f =
      failure-panics hs h more (record (new_command user_command cfg) { start = now }) c' sends refl
        at f
