-- ===== src/Main/LostReports.antt =====
-- Reports that are not delivered while the program runs or waits (pkg/monny/report.go, Send, and
-- cmd/monny/main.go).
use monny.Base.{
  ◌≡◌, ◌≢◌, ap, ◌∙◌, ℕ, false, List, ◌∷◌, ◌++◌, none, some, ok, returned, panic, then_call, String,
  arith,
}
use monny.Config.{Config}
use monny.Config.Options.{ConfigOption, new_config}
use monny.Parse.{parse}
use monny.Command.{Command, new_command}
use monny.Command.Output.{Library}
use monny.Report.{Decision, drop, undelivered, await_result}
use monny.Main.{
  Surroundings, send_ends, Turn, Program, pick, send_ended, exit_of, turn, run_turns, main,
}
use monny.Main.Turns.{run_turns-append, run_turns-errors}
use monny.Main.ExitCode.{IsStarted, at_start, main-started}

module _ {ℓ} {R : Type ℓ} where
  await_result-panics :
      (d : Decision) (c : Command R)
      → c.has_errors ≡ false
      → d ≢ drop
      → await_result d undelivered c ≡ panic
  unfolding await_result
  await_result-panics d c none_yet sent = ground arith

module _ {ℓ κ} {R : Type ℓ} {F : Type κ} where
  turn-panics :
      (l : Library R F) (i : ℕ) (d : Decision) (others : List Decision) (p : Program R)
      → p.command.has_errors ≡ false
      → pick i p.waiting ≡ some (d, others)
      → d ≢ drop
      → turn l (send_ends i undelivered) p ≡ panic
  unfolding turn
  turn-panics l i d others p none_yet at sent =
      ap (send_ended undelivered p) at
      ∙ ap (λ o. then_call o (λ c. returned (record p { command = c; waiting = others })))
          (await_result-panics d p.command none_yet sent)

  -- Where the arguments are parsed, the configuration is accepted and the process starts without an
  -- error, the program panics as soon as a Send learns, at any turn before the exit and so also while
  -- main waits, that the report which it has handed to the transport is not delivered.
  pub main-lost_report :
      (s : Surroundings R F) (args : List String) (name : String) (rest : List String)
      (opts : List ConfigOption) (cfg : Config R) (before : List Turn) (i : ℕ) (more : List Turn)
      (p : Program R) (d : Decision) (others : List Decision)
      → parse s.readers args ≡ (name ∷ rest, opts, none)
      → (new_config s.system false opts).0 ≡ ok cfg
      → IsStarted s.launch
      → run_turns s.library before (at_start s (name ∷ rest) cfg) ≡ returned p
      → pick i p.waiting ≡ some (d, others)
      → d ≢ drop
      → main s args (before ++ send_ends i undelivered ∷ more) ≡ panic
  unfolding run_turns new_command
  main-lost_report s args name rest opts cfg before i more p d others parsed accepted started goes
        at sent =
      let l = s.library in
      let ts = send_ends i undelivered ∷ more in
      main-started s args name rest opts cfg (before ++ ts) parsed accepted started
      ∙ ap (λ o. then_call o exit_of)
          (run_turns-append l before ts (at_start s (name ∷ rest) cfg)
            ∙ (ap (λ o. then_call o (run_turns l ts)) goes
                ∙ ap (λ o. then_call o (run_turns l more))
                    (turn-panics l i d others p
                      (run_turns-errors l before (at_start s (name ∷ rest) cfg) p goes) at sent)))
