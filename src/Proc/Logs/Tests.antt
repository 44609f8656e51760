-- ===== src/Proc/Logs/Tests.antt =====
-- The theorems about the log processor (pkg/monny/proc/logs.go and logopt.go) at concrete ones.
use monny.Base.{
  ℕ, ◌≤◌, ◌≡◌, refl, String, true, List, [], ◌∷◌, length, map, last, some, returned, arith,
}
use monny.Base.Int.{ℤ, pos}
use monny.Eventbus.{Bus, new_bus, default_topic}
use monny.Proc.Queue.{new_queue}
use monny.Proc.LogOption.{
  m_stdout, p_stdout, LogOption, with_history, with_command, with_no_stderr_output,
  new_log_processor, Cmd,
}
use monny.Proc.LogOption.Order.{swap, at, new_log_processor-Reordered}
use monny.Proc.LogOption.Sorting.{insertion_sort, insertion_sort_lem}
use monny.Proc.Logs.{Io, start_log_emitter}
use monny.Proc.Logs.Emitted.{line_of, all_written, dispatched_lines, start_log_emitter-last}

abbrev backup : Cmd
backup = record { path = "/bin/backup"; stdout_pipe = true; stderr_pipe = true }

abbrev given : List LogOption
given = with_no_stderr_output ∷ with_command backup ∷ with_history 5 ∷ []

abbrev turned : List LogOption
turned = with_command backup ∷ with_no_stderr_output ∷ with_history 5 ∷ []

one_each : (p : ℕ) → length (at p given) ≤ 1
one_each p = ground arith

new_log_processor-Reordered_example :
    new_log_processor insertion_sort given ≡ new_log_processor insertion_sort turned
new_log_processor-Reordered_example =
    new_log_processor-Reordered insertion_sort insertion_sort insertion_sort_lem insertion_sort_lem
      given turned (swap with_no_stderr_output (with_command backup) (with_history 5 ∷ [])) one_each

abbrev console : Io String
console = record {
  log_event = λ now line. some line;
  no_event = "";
  event_error = "event";
  sink_error = λ s. "sink";
  writes = λ s line. true;
}

abbrev lines : List (ℤ × String)
lines = (pos 1, "a") ∷ (pos 2, "b") ∷ (pos 3, "c") ∷ []

abbrev watched : Bus String
watched = record (new_bus {E = String}) { subscribers = (default_topic, 0 ∷ []) ∷ []; next = 1 }

start_log_emitter-last_example :
    start_log_emitter console p_stdout
      (m_stdout ∷ [])
      lines
      (record { q = new_queue 2; bus = watched; written = [] })
    ≡ returned (record {
      q = record { q = last 2 (map line_of lines); capacity = 2 };
      bus = dispatched_lines (λ now line. line) lines watched;
      written = all_written (m_stdout ∷ []) lines;
    })
start_log_emitter-last_example =
    start_log_emitter-last console (λ now line. line) p_stdout (m_stdout ∷ []) (λ now line. refl)
      (λ s line. refl) 2 lines watched (omega arith)
