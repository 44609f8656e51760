-- ===== src/Command/Exec/Histories.antt =====
-- The histories of output under any interleaving (pkg/monny/command.go, Exec).
use monny.Base.{
  ◌≡◌, refl, List, [], ◌∷◌, Option, none, some, Outcome, returned, panic, then_call, String, arith,
}
use monny.Base.Int.{◌-ℤ◌}
use monny.Proto.{ReportReason}
use monny.Command.Record.{Command}
use monny.Command.Loop.{Event, run_finished, react}
use monny.Command.Handlers.{
  finished, record_ending, handle_file_creation, on_signal, on_timeout, on_time_warning,
  check_memory, kill_on_high_memory,
}
use monny.Command.Files.{check_files_lem}
use monny.Command.Output.{Library, Clock, keep_line, note_matches, process_stdout, process_stderr}
use monny.Command.Output.History.{keep_lines}
use monny.Command.Exec.{
  Happening, stdin_done, out_line, err_line, loop_event, stat_failed, copy_failed, report_error,
  Progress, add_sends, happen, then_run, exec_run,
}

-- the lines that the two scanners find
abbrev pub out_lines : List Happening → List String
out_lines [] = []
out_lines (out_line unwritten clock line ∷ hs) = line ∷ out_lines hs
out_lines (_ ∷ hs) = out_lines hs

abbrev pub err_lines : List Happening → List String
err_lines [] = []
err_lines (err_line unwritten clock line ∷ hs) = line ∷ err_lines hs
err_lines (_ ∷ hs) = err_lines hs

module _ {ℓ} {R : Type ℓ} where
  -- `c'` has the configuration of `c`, and the histories are given.
  abbrev pub Holds : Command R → List String → List String → Command R → Type ℓ
  Holds c out err c' = (c'.stdout ≡ out) × (c'.stderr ≡ err) × (c'.config ≡ c.config)

  react-Holds : (e : Event) (c : Command R) → Holds c c.stdout c.stderr (react e c).0
  unfolding react finished record_ending handle_file_creation on_signal on_timeout on_time_warning
      check_memory kill_on_high_memory
  react-Holds (run_finished now ending stat) c = ground (
    arith,
    check_files_lem stat c.config.creates
        (record_ending ending (record c { finish = now; duration = now -ℤ c.start })).0,
  )
  react-Holds _ c = ground arith

module _ {ℓ κ} {R : Type ℓ} {F : Type κ} (l : Library R F) where
  abbrev KeptOut : Command R → String → Command R → Type ℓ
  KeptOut c line c' =
      (keep_line c.config.stdout_history line c.stdout ≡ returned c'.stdout)
      × (c'.stderr ≡ c.stderr)
      × (c'.config ≡ c.config)

  abbrev KeptErr : Command R → String → Command R → Type ℓ
  KeptErr c line c' =
      (keep_line c.config.stderr_history line c.stderr ≡ returned c'.stderr)
      × (c'.stdout ≡ c.stdout)
      × (c'.config ≡ c.config)

  process_stdout-kept :
      (clock : Clock) (line : String) (c : Command R) {c' : Command R} {sends : List ReportReason}
      → process_stdout l clock line c ≡ returned (c', sends)
      → KeptOut c line c'
  unfolding process_stdout note_matches
  process_stdout-kept clock line c h = ground arith

  process_stderr-kept :
      (clock : Clock) (line : String) (c : Command R) {c' : Command R} {sends : List ReportReason}
      → process_stderr l clock line c ≡ returned (c', sends)
      → KeptErr c line c'
  unfolding process_stderr note_matches
  process_stderr-kept clock line c h = ground arith

  -- The histories of `c'` are those of `c` with the lines of the happenings.
  abbrev pub Keeps : Command R → List Happening → Command R → Type ℓ
  Keeps c hs c' =
      (keep_lines c.config.stdout_history (out_lines hs) c.stdout ≡ returned c'.stdout)
      × (keep_lines c.config.stderr_history (err_lines hs) c.stderr ≡ returned c'.stderr)
      × (c'.config ≡ c.config)

  happen-Keeps :
      (h : Happening) (hs : List Happening) (c c' c'' : Command R) {sends : List ReportReason}
      {e : Option (Option String)}
      → happen l h c ≡ returned (c', sends, e)
      → Keeps c' hs c''
      → Keeps c (h ∷ hs) c''
  unfolding happen report_error keep_lines
  happen-Keeps (stdin_done none) hs c c' c'' at k = ground arith
  happen-Keeps (stdin_done (some stat_failed)) hs c c' c'' at k = ground arith
  happen-Keeps (stdin_done (some copy_failed)) hs c c' c'' at k = ground arith
  happen-Keeps (out_line unwritten clock line) hs c c' c'' {sends} at k =
      ground (arith, process_stdout-kept clock line c {c' = c'} {sends = sends})
  happen-Keeps (err_line unwritten clock line) hs c c' c'' {sends} at k =
      ground (arith, process_stderr-kept clock line c {c' = c'} {sends = sends})
  happen-Keeps (loop_event e unsent) hs c c' c'' at k = ground (arith, react-Holds e c)

  -- where a run goes on behind its first happening
  abbrev pub GoesOn : Outcome (Progress R) → List Happening → Command R → List ReportReason → Type ℓ
  GoesOn first hs c' sends =
      (c : Command R) × (some_sends : List ReportReason) × (more : List ReportReason) × (first
        ≡ returned (c, some_sends, none))
      × (exec_run l hs c ≡ returned (c', more, none))

  pub then_run-GoesOn :
      (first : Outcome (Progress R)) (hs : List Happening) (c' : Command R)
      (sends : List ReportReason)
      → then_call first (then_run l (exec_run l hs)) ≡ returned (c', sends, none)
      → GoesOn first hs c' sends
  then_run-GoesOn panic hs c' sends h = absurd (cc)
  then_run-GoesOn (returned (c, first_sends, some e)) hs c' sends h = absurd (ground arith)
  then_run-GoesOn (returned (c, first_sends, none)) hs c' sends h = go (exec_run l hs c) refl h
    where
      go :
          (rest : Outcome (Progress R))
          → exec_run l hs c ≡ rest
          → then_call rest (add_sends first_sends) ≡ returned (c', sends, none)
          → GoesOn (returned (c, first_sends, none)) hs c' sends
      go panic e h = absurd (cc)
      go (returned (c'', more, some x)) e h = absurd (ground arith)
      go (returned (c'', more, none)) e h = (c, first_sends, more, refl, ground arith)

  -- At every point of a run of a process, however the lines of standard output, those of standard
  -- error and the events of the loop have taken turns, each history is what its own lines alone,
  -- in their order, make of the one at the start.
  pub exec_run-Keeps :
      (hs : List Happening) (c c' : Command R) (sends : List ReportReason)
      → exec_run l hs c ≡ returned (c', sends, none)
      → (keep_lines c.config.stdout_history (out_lines hs) c.stdout ≡ returned c'.stdout)
        × (keep_lines c.config.stderr_history (err_lines hs) c.stderr ≡ returned c'.stderr)
        × (c'.config ≡ c.config)
  unfolding exec_run keep_lines
  exec_run-Keeps [] c c' sends h = ground arith
  exec_run-Keeps (h ∷ hs) c c' sends at =
      let (c1, some_sends, more, first, rest) = then_run-GoesOn (happen l h c) hs c' sends at in
      happen-Keeps h hs c c1 c' first (exec_run-Keeps hs c1 c' more rest)
