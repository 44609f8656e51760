-- ===== src/Main.antt =====
-- cmd/monny/main.go, with New of pkg/monny/command.go: from the arguments of the command line to the
-- exit code, with the sends of reports that run beside Exec and while main waits
-- (pkg/monny/report.go, Send). What main prints is left out.
pub mod ExitCode
pub mod LostReports
pub mod Turns
mod Tests
use monny.Base.{
  ℕ, zero, suc, String, false, List, [], ◌∷◌, ◌++◌, Option, none, some, Result, ok, err, Outcome,
  returned, panic, then_call,
}
use monny.Base.Int.{ℤ}
use monny.Proto.{ReportReason}
use monny.Config.{Config}
use monny.Config.Options.{ConfigOption, ConfigError, System, new_config}
use monny.Parse.{Readers, ParseError, parse}
use monny.Command.{Command, new_command}
use monny.Command.Output.{Library}
use monny.Command.Exec.{Launch, Running, start_process, Happening, loop_event, Progress, happen}
use monny.Report.{Decision, Delivery, decide, await_result}

-- what the program asks of the packages that it uses
pub record Surroundings {ℓ κ} (R : Type ℓ) (F : Type κ) : Type (ℓ ⊔ κ) where
  pub readers : Readers
  pub system : System R
  pub library : Library R F
  pub launch : Launch

module _ {ℓ} {R : Type ℓ} where
  -- `New(usercmd, options...)`
  abbrev pub prepared :
      List String → Result (List ConfigError) (Config R) → Result (List ConfigError) (Running R)
  prepared user_command (err es) = err es
  prepared user_command (ok cfg) =
      ok (record { command = new_command user_command cfg; pid = 0; cleanup = [] })

  unfoldable pub prepare :
      System R → List String → List ConfigOption → Result (List ConfigError) (Running R)
  prepare sys user_command opts = prepared user_command (new_config sys false opts).0

-- What happens while the program runs: something in the goroutines and the loop of Exec; the send of
-- a report decides what it does with it; or such a send ends. The numbers count the sends that have
-- not begun, and those that have begun and not ended.
pub data Turn : Type 0 where
  happening : Happening → Turn
  send_begins : ℕ → ℤ → Turn
  send_ends : ℕ → Delivery → Turn

-- The command, the reports whose `Send` was started and has not begun, what those that have begun
-- wait for, and what Exec has returned, once it has.
pub record Program {ℓ} (R : Type ℓ) : Type ℓ where
  pub command : Command R
  pub started : List ReportReason
  pub waiting : List Decision
  pub exec_result : Option (Option String)

abbrev pub begun {ℓ} : {R : Type ℓ} → Command R → Program R
begun c = record { command = c; started = []; waiting = []; exec_result = none }

abbrev pub pick_behind {ℓ} : {A : Type ℓ} → A → Option (A × List A) → Option (A × List A)
pick_behind x none = none
pick_behind x (some (y, rest)) = some (y, x ∷ rest)

-- one entry and the others
unfoldable pub pick {ℓ} : {A : Type ℓ} → ℕ → List A → Option (A × List A)
pick i [] = none
pick zero (x ∷ xs) = some (x, xs)
pick (suc i) (x ∷ xs) = pick_behind x (pick i xs)

abbrev pub first_of : Option (Option String) → Option (Option String) → Option (Option String)
first_of none e = e
first_of (some e) later = some e

abbrev pub noted {ℓ} : {R : Type ℓ} → Program R → Progress R → Outcome (Program R)
noted p (c, sends, e) =
    returned (record p {
      command = c;
      started = p.started ++ sends;
      exec_result = first_of p.exec_result e;
    })

-- the `switch` of `Send`
abbrev pub send_begun {ℓ} :
    {R : Type ℓ} → ℤ → Program R → Option (ReportReason × List ReportReason) → Outcome (Program R)
send_begun now p none = returned p
send_begun now p (some (reason, rest)) =
    returned
      (record p { started = rest; waiting = p.waiting ++ (decide now reason p.command ∷ []) })

-- the `select` of `Send`
abbrev pub send_ended {ℓ} :
    {R : Type ℓ} → Delivery → Program R → Option (Decision × List Decision) → Outcome (Program R)
send_ended result p none = returned p
send_ended result p (some (d, rest)) =
    then_call (await_result d result p.command)
      (λ c. returned (record p { command = c; waiting = rest }))

-- The exit code behind `Exec`: `Wait` never returns an error.
abbrev pub exit_code : Option String → ℕ
exit_code none = 0
exit_code (some e) = 1

abbrev pub exited_with : Option (Option String) → Option ℕ
exited_with none = none
exited_with (some e) = some (exit_code e)

abbrev pub exit_of {ℓ} : {R : Type ℓ} → Program R → Outcome (Option ℕ)
exit_of p = returned (exited_with p.exec_result)

module _ {ℓ κ} {R : Type ℓ} {F : Type κ} (l : Library R F) where
  -- The loop receives nothing once Exec has returned; the other goroutines go on until the exit.
  abbrev pub happens : Option (Option String) → Happening → Command R → Outcome (Progress R)
  happens (some e) (loop_event _ _) c = returned (c, [], none)
  happens e h c = happen l h c

  unfoldable pub turn : Turn → Program R → Outcome (Program R)
  turn (happening h) p = then_call (happens p.exec_result h p.command) (noted p)
  turn (send_begins i now) p = send_begun now p (pick i p.started)
  turn (send_ends i result) p = send_ended result p (pick i p.waiting)

  unfoldable pub run_turns : List Turn → Program R → Outcome (Program R)
  run_turns [] p = returned p
  run_turns (t ∷ ts) p = then_call (turn t p) (run_turns ts)

module _ {ℓ κ} {R : Type ℓ} {F : Type κ} (s : Surroundings R F) where
  -- `Exec` and `Wait`, unless the process could not be started. The turns behind the return of Exec
  -- are those before the exit: `Wait` decides which these are, and Report/Goroutines is about that.
  abbrev pub run_started : List Turn → Running R × Option String → Outcome (Option ℕ)
  run_started ts (r, some e) = returned (some 1)
  run_started ts (r, none) = then_call (run_turns s.library ts (begun r.command)) exit_of

  abbrev pub exec_prepared : List Turn → Result (List ConfigError) (Running R) → Outcome (Option ℕ)
  exec_prepared ts (err es) = returned (some 1)
  exec_prepared ts (ok r) = then_call (start_process s.launch r) (run_started ts)

  abbrev pub main_parsed :
      List Turn → List String × List ConfigOption × Option ParseError → Outcome (Option ℕ)
  main_parsed ts (user_command, opts, some e) = returned (some 1)
  main_parsed ts (user_command, opts, none) = exec_prepared ts (prepare s.system user_command opts)

  -- `main()`: the exit code of a program that exits after these turns, none if Exec has not returned
  -- in them
  unfoldable pub main : List String → List Turn → Outcome (Option ℕ)
  main args ts = main_parsed ts (parse s.readers args)
