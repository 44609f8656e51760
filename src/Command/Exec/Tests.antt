-- ===== src/Command/Exec/Tests.antt =====
-- The start and the run of a process (pkg/monny/command.go) at a concrete one.
use monny.Base.{◌≡◌, refl, ℕ, List, [], ◌∷◌, ◌++◌, none, some, returned, panic}
use monny.Base.Int.{pos}
use monny.Config.{Config}
use monny.Config.Sample.{backup, backup_config}
use monny.Command.Record.{Command, new_command}
use monny.Command.Loop.{memory_profile, is_armed, react}
use monny.Command.Handlers.{check_memory}
use monny.Command.Output.{Library, process_stdout, process_stderr}
use monny.Command.Output.History.{keep_lines}
use monny.Command.Exec.{
  Happening, stdin_done, out_line, err_line, loop_event, exec_run, nil_callback, callback,
  run_cleanup,
}
use monny.Command.Exec.Histories.{out_lines, err_lines, exec_run-Keeps}
use monny.Command.Exec.Reported.{exec_run-panics}

abbrev library : Library ℕ ℕ
library = record {
  find_all_index = λ re t. none;
  unmarshal_raw = λ raw. none;
  unmarshal = λ raw. none;
  split_dots = λ field. field ∷ [];
  join_lines = λ lines. "";
  format_float = λ n. "";
  format_bool = λ b. "";
}

abbrev two_lines : Config ℕ
two_lines = record backup_config { stdout_history = pos 2 }

abbrev started : Command ℕ
started = record (new_command backup two_lines) { start = pos 3 }

abbrev mixed : List Happening
mixed =
    out_line none (λ n. pos 4) "one"
    ∷ loop_event (memory_profile 20 (pos 5)) none
    ∷ err_line none (λ n. pos 6) "warning"
    ∷ out_line none (λ n. pos 7) "two"
    ∷ stdin_done none
    ∷ out_line none (λ n. pos 8) "three"
    ∷ []

abbrev behind : Command ℕ
behind = record started { stdout = "three" ∷ []; stderr = "warning" ∷ []; max_memory = 20 }

runs : exec_run library mixed started ≡ returned (behind, [], none)
unfolding exec_run new_command process_stdout is_armed react check_memory process_stderr
runs = refl

exec_run-Keeps_example :
    (keep_lines (pos 2) (out_lines mixed) [] ≡ returned ("three" ∷ []))
    × (keep_lines (pos 30) (err_lines mixed) [] ≡ returned ("warning" ∷ []))
    × (behind.config ≡ two_lines)
unfolding new_command
exec_run-Keeps_example = exec_run-Keeps library mixed started behind [] runs

exec_run-panics_example :
    exec_run library (mixed ++ err_line (some "closed") (λ n. pos 9) "lost" ∷ []) started ≡ panic
exec_run-panics_example =
    exec_run-panics library backup two_lines (pos 3) mixed
      (err_line (some "closed") (λ n. pos 9) "lost") [] behind [] runs refl

second_fails :
    run_cleanup (callback none ∷ nil_callback ∷ callback (some "busy") ∷ []) ≡ "busy" ∷ []
unfolding run_cleanup
second_fails = refl
