-- ===== src/Command/Handlers.antt =====
-- pkg/monny/handlers.go. A handler returns the new command and the reports that it starts to send
-- in the background, in order; the clock, the state of the process and what the operating system
-- answers are arguments. The signals to the process have no effect on the command.
use Prim.Native.String.{◌++◌ as concat}
use monny.Base.{
  ℕ, String, Bool, true, false, ◌&&◌, not, List, [], ◌∷◌, ◌++◌, ltb, leb, if◌then◌else◌,
}
use monny.Base.Int.{ℤ, ◌-ℤ◌}
use monny.Proto.{
  ReportReason, success, failure, memory_warning, time_warning, file_not_created, killed, timeout,
  memory, signal,
}
use monny.Command.Record.{Command, File}

-- What `cmd.ProcessState` says of a process that has ended: whether it succeeded, and its exit
-- status where the system gives one.
pub data Ending : Type 0 where
  succeeded : Ending
  failed_with : ℤ → Ending
  failed_unknown : Ending

-- what `os.Stat` answers
pub data FileState : Type 0 where
  not_exist : FileState
  found : File → FileState
  other_error : FileState

module _ {ℓ} {R : Type ℓ} where
  -- the body of the loop of `handleFileCreation`, by the answer for the file
  unfoldable pub check_file : String → FileState → Command R → Command R × List ReportReason
  check_file f not_exist c = (
    record c {
      success = false;
      messages = c.messages ++ (concat "file not created: " f ∷ []);
      report_reason = file_not_created;
    },
    file_not_created ∷ [],
  )
  check_file f (found info) c = (record c { created = c.created ++ (info ∷ []) }, [])
  check_file f other_error c = (c, [])

  -- the loop
  unfoldable pub check_files :
      (String → FileState) → List String → Command R → Command R × List ReportReason
  check_files stat [] c = (c, [])
  check_files stat (f ∷ fs) c =
      let (c', sends) = check_file f (stat f) c in
      let (c'', more) = check_files stat fs c' in (c'', sends ++ more)

  -- `handleFileCreation(c)`
  unfoldable pub handle_file_creation :
      (String → FileState) → Command R → Command R × List ReportReason
  handle_file_creation stat c = check_files stat c.config.creates c

  -- the `switch` of `Finished`
  unfoldable pub record_ending : Ending → Command R → Command R × List ReportReason
  record_ending succeeded c =
      (record c { success = true; exit_code_valid = true; report_reason = success }, success ∷ [])
  record_ending (failed_with code) c = (
    record c { exit_code = code; exit_code_valid = true; report_reason = failure; success = false },
    failure ∷ [],
  )
  record_ending failed_unknown c =
      (record c { report_reason = failure; success = false }, failure ∷ [])

  unfoldable pub finished :
      ℤ → Ending → (String → FileState) → Command R → Command R × List ReportReason
  finished now ending stat c =
      let (c', sends) =
        record_ending ending (record c { finish = now; duration = now -ℤ c.start }) in
      let (c'', more) = handle_file_creation stat c' in (c'', sends ++ more)

  -- `Signal(c, cmd, sig)`
  unfoldable pub on_signal : ℤ → Command R → Command R × List ReportReason
  on_signal now c = (
    record c {
      finish = now;
      duration = now -ℤ c.start;
      killed = true;
      kill_reason = signal;
      report_reason = killed;
    },
    killed ∷ [],
  )

  -- `Timeout(c, cmd)`: the duration is the start less the finish
  unfoldable pub on_timeout : ℤ → Command R → Command R × List ReportReason
  on_timeout now c = (
    record c {
      killed = true;
      kill_reason = timeout;
      finish = now;
      duration = c.start -ℤ now;
      report_reason = killed;
    },
    killed ∷ [],
  )

  -- `TimeWarning(c)`
  unfoldable pub on_time_warning : Command R → Command R × List ReportReason
  on_time_warning c =
      if c.time_warn_sent
      then (c, [])
      else (record c { report_reason = time_warning; time_warn_sent = true }, time_warning ∷ [])

  -- `CheckMemory(c, cmd)`, by the memory that `calculateMemory` returned: `true` is its error
  unfoldable pub check_memory : ℕ → Command R → Command R × List ReportReason × Bool
  check_memory mem c =
      let c' = if ltb c.max_memory mem then record c { max_memory = mem } else c in
      let warn =
        ltb 0 c'.config.memory_warn && leb c'.config.memory_warn mem && not c'.mem_warn_sent in
      let kill = ltb 0 c'.config.memory_kill && leb c'.config.memory_kill mem in
      if warn
      then (
        record c' { report_reason = memory_warning; mem_warn_sent = true },
        memory_warning ∷ [],
        kill,
      )
      else (c', [], kill)

  unfoldable pub kill_on_high_memory : ℤ → Command R → Command R × List ReportReason
  kill_on_high_memory now c = (
    record c {
      killed = true;
      kill_reason = memory;
      finish = now;
      duration = now -ℤ c.start;
      report_reason = killed;
    },
    killed ∷ [],
  )
