-- ===== src/Main/ExitCode.antt =====
-- How the program ends (cmd/monny/main.go, pkg/monny/command.go).
use monny.Base.{
  ◌≡◌, refl, ap, ap₂, ◌∙◌, ℕ, true, false, List, [], ◌∷◌, ◌++◌, Option, none, some, ok, Outcome,
  returned, panic, then_call, String, arith, if_true,
}
use monny.Config.{Config}
use monny.Config.Options.{ConfigOption, new_config}
use monny.Parse.{parse}
use monny.Command.{
  new_command, Event, run_finished, os_signal, kill_timeout, notify_timeout, memory_profile,
  is_armed, react,
}
use monny.Command.Output.{Library}
use monny.Command.Exec.{
  Launch, Running, pipe_error, launched, nil_callback, start_process, loop_event, exec_error,
  after_event, happen,
}
use monny.Main.{
  Surroundings, prepared, prepare, Turn, happening, Program, begun, noted, first_of, happens,
  exit_code, exited_with, exit_of, turn, run_turns, run_started, exec_prepared, main_parsed, main,
}
use monny.Main.Turns.{run_turns-append, turn-result}

module _ {ℓ κ} {R : Type ℓ} {F : Type κ} (l : Library R F) where
  -- the program behind an event that ends the loop of Exec
  abbrev pub ended_by : Event → Option String → Program R → Program R
  ended_by e unsent p =
      let (c, sends, over) = react e p.command in
      record p {
        command = c;
        started = p.started ++ sends;
        exec_result = some (exec_error e unsent);
      }

  turn-ended_by :
      (e : Event) (unsent : Option String) (p : Program R)
      → p.exec_result ≡ none
      → is_armed p.command.config e ≡ true
      → (react e p.command).2 ≡ true
      → turn l (happening (loop_event e unsent)) p ≡ returned (ended_by e unsent p)
  unfolding turn happen
  turn-ended_by e unsent p running armed over =
      let err = exec_error e unsent in
      let (c, sends, over') = react e p.command in
      ap (λ r. then_call (happens l r (loop_event e unsent) p.command) (noted p)) running
      ∙ (ap (λ o. then_call o (noted p))
            (if_true _ _ armed
              ∙ ap (λ b. after_event err ((react e p.command).0, (react e p.command).1, b)) over)
          ∙ ap
              (λ r. returned (record p {
                command = (react e p.command).0;
                started = p.started ++ (react e p.command).1;
                exec_result = first_of r (some err);
              }))
              running)

  then_exit :
      (o : Outcome (Program R)) (f : Program R → Outcome (Program R)) (code : Option ℕ)
      → ((q : Program R)
          → o ≡ returned q
          → then_call (f q) exit_of ≡ then_call (f q) (λ p. returned code))
      → then_call (then_call o f) exit_of ≡ then_call (then_call o f) (λ p. returned code)
  then_exit panic f code h = refl
  then_exit (returned q) f code h = h q refl

  -- What Exec has returned makes the exit code, whatever follows.
  run_turns-exit :
      (ts : List Turn) (p : Program R) (e : Option String)
      → p.exec_result ≡ some e
      → then_call (run_turns l ts p) exit_of
        ≡ then_call (run_turns l ts p) (λ p'. returned (some (exit_code e)))
  unfolding run_turns
  run_turns-exit [] p e over = ap (λ r. returned (exited_with r)) over
  run_turns-exit (t ∷ ts) p e over =
      then_exit (turn l t p) (run_turns l ts) (some (exit_code e))
        (λ q first. run_turns-exit ts q e (turn-result l t p q e over first))

-- 1 exactly where a process that has not ended could not be sent its signal
abbrev pub expected_code : Event → Option String → ℕ
expected_code (run_finished now ending stat) unsent = 0
expected_code _ none = 0
expected_code _ (some e) = 1

exit_code-exec_error :
    (e : Event) (unsent : Option String) → exit_code (exec_error e unsent) ≡ expected_code e unsent
exit_code-exec_error (run_finished now ending stat) unsent = refl
exit_code-exec_error (os_signal now) none = refl
exit_code-exec_error (os_signal now) (some e) = refl
exit_code-exec_error (kill_timeout now) none = refl
exit_code-exec_error (kill_timeout now) (some e) = refl
exit_code-exec_error notify_timeout none = refl
exit_code-exec_error notify_timeout (some e) = refl
exit_code-exec_error (memory_profile mem now) none = refl
exit_code-exec_error (memory_profile mem now) (some e) = refl

-- The process starts without an error.
abbrev pub IsStarted : Launch → Type 0
IsStarted s =
    (s.stdin_pipe ≡ none) × (s.stdout_pipe ≡ none) × (s.stderr_pipe ≡ none) × (s.start_error ≡ none)

no_pipe_error : (s : Launch) → IsStarted s → pipe_error s ≡ none
no_pipe_error s (a, b, c, d) = ground arith

module _ {ℓ κ} {R : Type ℓ} {F : Type κ} (s : Surroundings R F) where
  main-prepared :
      (args user_command : List String) (opts : List ConfigOption) (cfg : Config R) (ts : List Turn)
      → parse s.readers args ≡ (user_command, opts, none)
      → (new_config s.system false opts).0 ≡ ok cfg
      → main s args ts
        ≡ then_call
            (start_process s.launch
              (record { command = new_command user_command cfg; pid = 0; cleanup = [] }))
            (run_started s ts)
  unfolding main prepare
  main-prepared args user_command opts cfg ts parsed accepted =
      ap (main_parsed s ts) parsed
      ∙ ap (λ result. exec_prepared s ts (prepared user_command result)) accepted

  -- Without a command to run behind the flags, a configuration that is accepted makes the program
  -- panic.
  pub main-no_command :
      (args : List String) (opts : List ConfigOption) (cfg : Config R) (ts : List Turn)
      → parse s.readers args ≡ ([], opts, none)
      → (new_config s.system false opts).0 ≡ ok cfg
      → main s args ts ≡ panic
  unfolding start_process new_command
  main-no_command args opts cfg ts parsed accepted =
      main-prepared args [] opts cfg ts parsed accepted

  abbrev pub at_start : List String → Config R → Program R
  at_start user_command cfg = begun (record (new_command user_command cfg) { start = s.launch.now })

  -- With a process that starts, main runs the turns and ends with the code of what Exec returned.
  pub main-started :
      (args : List String) (name : String) (rest : List String) (opts : List ConfigOption)
      (cfg : Config R) (ts : List Turn)
      → parse s.readers args ≡ (name ∷ rest, opts, none)
      → (new_config s.system false opts).0 ≡ ok cfg
      → IsStarted s.launch
      → main s args ts ≡ then_call (run_turns s.library ts (at_start (name ∷ rest) cfg)) exit_of
  unfolding start_process new_command
  main-started args name rest opts cfg ts parsed accepted started =
      let c = new_command (name ∷ rest) cfg in
      let r : Running R = record { command = c; pid = 0; cleanup = nil_callback ∷ [] } in
      let r' : Running R = record r { command = record c { start = s.launch.now } } in
      main-prepared args (name ∷ rest) opts cfg ts parsed accepted
      ∙ ap₂
          (λ bad e.
            then_call (launched r r' (record r' { pid = s.launch.pid }) bad e) (run_started s ts))
          (no_pipe_error s.launch started) started.3

  -- Where the arguments are parsed, the configuration is accepted and the process starts without an
  -- error, the first event that ends the loop of Exec, after any turns of the goroutines, the loop
  -- and the sends, makes the exit code of every continuation up to the exit that does not panic: 0 if
  -- the process has ended, whatever its own exit code, and where it is killed, 1 exactly if the
  -- signal to it could not be sent. Where the continuation panics, the program panics.
  pub main-exit :
      (args : List String) (name : String) (rest : List String) (opts : List ConfigOption)
      (cfg : Config R) (before : List Turn) (e : Event) (unsent : Option String) (more : List Turn)
      (p : Program R)
      → parse s.readers args ≡ (name ∷ rest, opts, none)
      → (new_config s.system false opts).0 ≡ ok cfg
      → IsStarted s.launch
      → run_turns s.library before (at_start (name ∷ rest) cfg) ≡ returned p
      → p.exec_result ≡ none
      → is_armed p.command.config e ≡ true
      → (react e p.command).2 ≡ true
      → main s args (before ++ happening (loop_event e unsent) ∷ more)
        ≡ then_call
            (run_turns s.library more (ended_by s.library e unsent p))
            (λ p'. returned (some (expected_code e unsent)))
  unfolding run_turns
  main-exit args name rest opts cfg before e unsent more p parsed accepted started goes running
        armed over =
      let end = happening (loop_event e unsent) in
      let l = s.library in
      main-started args name rest opts cfg (before ++ end ∷ more) parsed accepted started
      ∙ (ap (λ o. then_call o exit_of)
            (run_turns-append l before (end ∷ more) (at_start (name ∷ rest) cfg)
              ∙ (ap (λ o. then_call o (run_turns l (end ∷ more))) goes
                  ∙ ap (λ o. then_call o (run_turns l more))
                      (turn-ended_by l e unsent p running armed over)))
          ∙ (run_turns-exit l more (ended_by l e unsent p) (exec_error e unsent) refl
              ∙ ap
                  (λ code.
                    then_call (run_turns l more (ended_by l e unsent p))
                      (λ p'. returned (some code)))
                  (exit_code-exec_error e unsent)))
