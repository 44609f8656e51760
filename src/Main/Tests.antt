-- ===== src/Main/Tests.antt =====
-- The program on a small command line (cmd/monny/main.go).
use monny.Base.{◌≡◌, refl, ℕ, String, false, List, [], ◌∷◌, ◌++◌, none, some, ok, returned, panic}
use monny.Base.Int.{pos}
use monny.Config.{Config}
use monny.Config.Options.{
  ConfigOption, id, System, default_config, new_config, apply_option, apply_options,
}
use monny.Parse.{Readers, parse, handle_option}
use monny.Command.{
  Event, run_finished, failed_with, not_exist, is_armed, react, new_command, finished,
  record_ending, handle_file_creation, check_files,
}
use monny.Command.Output.{Library, process_stdout, check_rule, note_matches, keep_line}
use monny.Command.Exec.{out_line, loop_event, happen}
use monny.Report.{send, delivered, undelivered, decide, await_result}
use monny.Main.{
  Surroundings, Turn, happening, send_begins, send_ends, Program, begun, pick, turn, run_turns,
  main,
}
use monny.Main.ExitCode.{at_start, main-no_command, main-exit}
use monny.Main.LostReports.{main-lost_report}

abbrev readers : Readers
readers = record {
  parse_all = λ args. record { flags = ("id", "backup") ∷ []; refused = false; args = args };
  read_file = λ path. none;
  decode_map = λ content. none;
  decode_lists = λ content. none;
}

abbrev shell_system : System ℕ
shell_system = record {
  compile = λ text. some 0;
  parse_duration = λ text. none;
  look_path = λ name. none;
  hostname = none;
  shell_variable = "/bin/sh";
}

abbrev library : Library ℕ ℕ
library = record {
  find_all_index = λ re t. none;
  unmarshal_raw = λ raw. none;
  unmarshal = λ raw. none;
  split_dots = λ field. field ∷ [];
  join_lines = λ lines. "";
  format_float = λ n. "";
  format_bool = λ b. "";
}

abbrev surroundings : Surroundings ℕ ℕ
surroundings = record {
  readers = readers;
  system = shell_system;
  library = library;
  launch = record {
    stdin_pipe = none;
    stdout_pipe = none;
    stderr_pipe = none;
    start_error = none;
    now = pos 1;
    pid = 17;
  };
}

abbrev options : List ConfigOption
options = id "backup" ∷ []

abbrev config : Config ℕ
config = record (default_config shell_system) { id = "backup"; shell = "/bin/sh" }

accepted : (new_config shell_system false options).0 ≡ ok config
unfolding new_config apply_option apply_options default_config
accepted = refl

parsed_none : parse readers [] ≡ ([], options, none)
unfolding parse handle_option
parsed_none = refl

no_command : main surroundings [] [] ≡ panic
no_command = main-no_command surroundings [] options config [] parsed_none accepted

abbrev tar : List String
tar = "tar" ∷ []

parsed_tar : parse readers tar ≡ (tar, options, none)
unfolding parse handle_option
parsed_tar = refl

-- a line of output, which a process that has been started writes
abbrev printed : List Turn
printed = happening (out_line none (λ n. pos 2) "saved") ∷ []

abbrev printed_one : Program ℕ
printed_one = begun (record (at_start surroundings tar config).command { stdout = "saved" ∷ [] })

prints : run_turns library printed (at_start surroundings tar config) ≡ returned printed_one
unfolding run_turns turn happen process_stdout check_rule note_matches keep_line new_command
    default_config
prints = refl

abbrev ended : Event
ended = run_finished (pos 5) (failed_with (pos 3)) (λ f. not_exist)

-- the code 3 of the process is not passed on; its failure is reported while main waits
main-exit_example :
    main surroundings tar (
      printed
      ++ happening (loop_event ended none) ∷ send_begins 0 (pos 6) ∷ send_ends 0 delivered ∷ [])
    ≡ returned (some 0)
unfolding is_armed react run_turns turn pick decide await_result finished record_ending
    handle_file_creation check_files new_command default_config
main-exit_example =
    main-exit surroundings tar "tar" [] options config printed ended none
      (send_begins 0 (pos 6) ∷ send_ends 0 delivered ∷ []) printed_one parsed_tar accepted
      (refl, refl, refl, refl) prints refl refl refl

-- the report of that failure, handed to the transport
abbrev failing : List Turn
failing =
    happening (loop_event (run_finished (pos 5) (failed_with (pos 3)) (λ f. not_exist)) none)
    ∷ send_begins 0 (pos 6)
    ∷ []

abbrev failed : Program ℕ
failed = record {
  command = (react ended (at_start surroundings tar config).command).0;
  started = [];
  waiting = send ∷ [];
  exec_result = some none;
}

fails : run_turns library failing (at_start surroundings tar config) ≡ returned failed
unfolding run_turns turn happen is_armed react finished record_ending handle_file_creation
    check_files pick decide new_command default_config
fails = refl

-- main waits for it and dies of it
main-lost_report_example : main surroundings tar (failing ++ send_ends 0 undelivered ∷ []) ≡ panic
unfolding pick
main-lost_report_example =
    main-lost_report surroundings tar "tar" [] options config failing 0 [] failed send [] parsed_tar
      accepted (refl, refl, refl, refl) fails refl (λ e. cc)
