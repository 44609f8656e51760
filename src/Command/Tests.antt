-- ===== src/Command/Tests.antt =====
-- The theorems about a monitored process (pkg/monny/command.go and handlers.go) at a concrete one.
use monny.Base.{
  some, none, returned, panic, arith, ℕ, ◌≡◌, refl, String, false, ◌&&◌, ◌||◌, not, List, [], ◌∷◌,
  ◌++◌, map, if◌then◌else◌, str_eq,
}
use monny.Base.Int.{pos, ◌-ℤ◌}
use monny.Proto.{file_not_created, ReportReason}
use monny.Config.Sample.{backup, backup_config}
use monny.Command.Record.{Command, new_command}
use monny.Command.Handlers.{
  FileState, not_exist, found, succeeded, failed_with, finished, check_memory, on_time_warning,
}
use monny.Command.Loop.{
  Event, run_finished, notify_timeout, memory_profile, react, is_armed, exec_loop,
}
use monny.Command.Files.{
  missing, existing, is_empty, text_of, has_succeeded, reason_of, finished_lem,
}
use monny.Command.Outcomes.{IsConsistent, exec_loop-IsConsistent}
use monny.Command.Output.{Library, Scalar, text, number, array, lookup, text_for, process_stdout}
use monny.Command.Output.Numbers.{reads, enters, process_stdout-panics}
use monny.Command.Output.Lines.{Entry, ReadsAll, process_lines, process_lines-last}
use monny.Command.Memory.{highest, reaches, count_warnings, exec_loop-memory}

abbrev on_disk : String → FileState
on_disk f =
    if str_eq f "backup.tar"
    then found (record { path = f; size = pos 9; time = pos 4 })
    else not_exist

abbrev begun : Command ℕ
begun = new_command backup backup_config

finished_lem_example :
    let absent = missing on_disk begun.config.creates in
    let (c', sends) = finished (pos 5) succeeded on_disk begun in
    (c'.success ≡ (has_succeeded succeeded && is_empty absent))
    × (c'.messages ≡ begun.messages ++ map text_of absent)
    × (c'.created ≡ begun.created ++ existing on_disk begun.config.creates)
    × (c'.report_reason ≡ (if is_empty absent then reason_of succeeded else file_not_created))
    × (sends ≡ reason_of succeeded ∷ map (λ f. file_not_created) absent)
    × (c'.duration ≡ pos 5 -ℤ begun.start)
finished_lem_example = finished_lem (pos 5) succeeded on_disk begun

abbrev measures : List Event
measures =
    memory_profile 40 (pos 1)
    ∷ notify_timeout
    ∷ memory_profile 60 (pos 2)
    ∷ memory_profile 55 (pos 3)
    ∷ []

exec_loop-IsConsistent_example :
    IsConsistent
      (exec_loop (measures ++ (run_finished (pos 5) (failed_with (pos 1)) on_disk ∷ [])) begun).0
exec_loop-IsConsistent_example =
    exec_loop-IsConsistent backup backup_config
      (measures ++ (run_finished (pos 5) (failed_with (pos 1)) on_disk ∷ []))

goes_on : (exec_loop measures begun).2 ≡ false
unfolding exec_loop react is_armed check_memory on_time_warning new_command
goes_on = refl

exec_loop-memory_example :
    let (c', sends, over) = exec_loop measures begun in
    (c'.max_memory ≡ highest begun.max_memory measures)
    × (c'.mem_warn_sent ≡ (begun.mem_warn_sent || reaches begun.config.memory_warn measures))
    × (count_warnings sends
        ≡ (if reaches begun.config.memory_warn measures && not begun.mem_warn_sent then 1 else 0))
exec_loop-memory_example = exec_loop-memory measures begun goes_on

-- an expression that finds the line "error", and no JSON
abbrev matcher : Library ℕ ℕ
matcher = record {
  find_all_index = λ re t. if str_eq t "error" then some ((0 ∷ 5 ∷ []) ∷ []) else none;
  unmarshal_raw = λ raw. none;
  unmarshal = λ raw. none;
  split_dots = λ field. field ∷ [];
  join_lines = λ lines. "";
  format_float = λ n. "";
  format_bool = λ b. "";
}

abbrev watched : Command ℕ
watched = record begun {
  config = record backup_config {
    rules = (record { field = ""; regex = some 0 }) ∷ [];
    stdout_history = pos 2;
  };
  stdout = [];
}

abbrev log : List Entry
log = (λ n. pos 1, "start") ∷ (λ n. pos 2, "error") ∷ (λ n. pos 3, "retry") ∷ []

log_reads : ReadsAll matcher log watched.config.rules
unfolding text_for
log_reads = ((("start", refl), tt), ((("error", refl), tt), ((("retry", refl), tt), tt)))

process_lines-last_example :
    (c' : Command ℕ) × (sends : List ReportReason) × (process_lines matcher log watched
      ≡ returned (c', sends))
    × (c'.stdout ≡ "retry" ∷ [])
    × (c'.stderr ≡ begun.stderr)
    × (c'.config ≡ watched.config)
process_lines-last_example =
    process_lines-last matcher 2 log watched (omega arith) refl ((0, refl), tt) log_reads refl

-- a line of JSON, decoded to an object whose result has a list of codes
abbrev codes : List (Scalar ℕ)
codes = text "ok" ∷ number 3 ∷ []

abbrev outer : List (String × String)
outer = ("result", "inner") ∷ []

abbrev decoder : Library ℕ ℕ
decoder = record matcher {
  unmarshal_raw = λ raw. some outer;
  unmarshal = λ raw. some (("codes", array codes) ∷ []);
  split_dots = λ field. "result" ∷ "codes" ∷ [];
}

abbrev coded : Command ℕ
coded = record begun {
  config = record backup_config {
    rules =
        (record { field = ""; regex = some 0 })
        ∷ (record { field = "result.codes"; regex = some 0 })
        ∷ [];
  };
}

codes_found : lookup "codes" (("codes", array codes) ∷ []) ≡ some (array codes)
unfolding lookup
codes_found = refl

result_found : lookup "result" outer ≡ some "inner"
unfolding lookup
result_found = refl

process_stdout-panics_example : process_stdout decoder (λ n. pos 1) "line" coded ≡ panic
process_stdout-panics_example =
    process_stdout-panics decoder (λ n. pos 1) "line" coded
      ((record { field = ""; regex = some 0 }) ∷ []) []
      (record { field = "result.codes"; regex = some 0 }) refl
      (
        refl,
        enters outer "inner" refl result_found
            (reads (("codes", array codes) ∷ []) codes refl codes_found refl),
      )
