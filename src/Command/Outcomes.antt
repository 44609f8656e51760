-- ===== src/Command/Outcomes.antt =====
-- What the record of a command says when Exec returns (pkg/monny/command.go and handlers.go).
use mathlib.Core.Path.{subst}
use monny.Base.{◌≡◌, ◌≢◌, refl, sym, true, false, List, [], ◌∷◌, arith, inl, inr, ◌⊎◌, String}
use monny.Base.Int.{ℤ, ◌-ℤ◌}
use monny.Proto.{not_killed, killed}
use monny.Config.{Config}
use monny.Command.Record.{Command, new_command}
use monny.Command.Handlers.{
  FileState, Ending, check_file, check_files, handle_file_creation, record_ending, finished,
  on_signal, on_timeout, on_time_warning, check_memory, kill_on_high_memory,
}
use monny.Command.Loop.{Event, run_finished, react, exec_loop}

module _ {ℓ} {R : Type ℓ} where
  -- A process that monny did not kill has no reason to have been; one that it killed has a reason,
  -- is reported as killed, and did not succeed.
  pub record IsConsistent (c : Command R) : Type 0 where
    pub alive : c.killed ≡ false → c.kill_reason ≡ not_killed
    pub dead :
        c.killed ≡ true
        → (c.kill_reason ≢ not_killed) × (c.report_reason ≡ killed) × (c.success ≡ false)

  -- what holds in front of each round of the loop
  abbrev IsRunning : Command R → Type 0
  IsRunning c = (c.killed ≡ false) × (c.kill_reason ≡ not_killed) × (c.success ≡ false)

  check_files-keeps :
      (stat : String → FileState) (fs : List String) (c : Command R)
      → ((check_files stat fs c).0.killed ≡ c.killed)
        × ((check_files stat fs c).0.kill_reason ≡ c.kill_reason)
  unfolding check_files check_file
  check_files-keeps stat [] c = (refl, refl)
  check_files-keeps stat (f ∷ fs) c =
      ground (arith, check_files-keeps stat fs (check_file f (stat f) c).0)

  finished-keeps :
      (now : ℤ) (ending : Ending) (stat : String → FileState) (c : Command R)
      → ((finished now ending stat c).0.killed ≡ c.killed)
        × ((finished now ending stat c).0.kill_reason ≡ c.kill_reason)
  unfolding finished record_ending handle_file_creation
  finished-keeps now ending stat c = ground (
    arith,
    check_files-keeps stat c.config.creates
        (record_ending ending (record c { finish = now; duration = now -ℤ c.start })).0,
  )

  react-IsConsistent : (e : Event) (c : Command R) → IsRunning c → IsConsistent (react e c).0
  unfolding react on_signal on_timeout on_time_warning check_memory kill_on_high_memory
  react-IsConsistent (run_finished now ending stat) c h =
      ground (arith, finished-keeps now ending stat c)
  react-IsConsistent _ c h = ground arith

  react-IsRunning :
      (e : Event) (c : Command R) → IsRunning c → (react e c).2 ≡ false → IsRunning (react e c).0
  unfolding react on_signal on_timeout on_time_warning check_memory kill_on_high_memory
  react-IsRunning (run_finished now ending stat) c h over = ground arith
  react-IsRunning _ c h over = ground arith

  IsRunning-IsConsistent : (c : Command R) → IsRunning c → IsConsistent c
  IsRunning-IsConsistent c h = ground arith

  exec_loop-cases :
      (e : Event) (es : List Event) (c : Command R)
      → ((exec_loop (e ∷ es) c).0 ≡ (exec_loop es c).0)
        ⊎ (((exec_loop (e ∷ es) c).0 ≡ (react e c).0)
            ⊎ (((react e c).2 ≡ false)
                × ((exec_loop (e ∷ es) c).0 ≡ (exec_loop es (react e c).0).0)))
  unfolding exec_loop
  exec_loop-cases e es c = ground arith

  exec_loop-IsRunning :
      (es : List Event) (c : Command R) → IsRunning c → IsConsistent (exec_loop es c).0
  exec_loop-IsRunning [] c h = unfold exec_loop in IsRunning-IsConsistent c h
  exec_loop-IsRunning (e ∷ es) c h = elim (exec_loop-cases e es c) [
    | inl skipped ↦ subst IsConsistent (sym skipped) (exec_loop-IsRunning es c h)
    | inr (inl last) ↦ subst IsConsistent (sym last) (react-IsConsistent e c h)
    | inr (inr (more, rest)) ↦
        subst IsConsistent (sym rest)
          (exec_loop-IsRunning es (react e c).0 (react-IsRunning e c h more))
  ]

  -- Whatever events the loop of Exec takes for a new command, in whatever order, the record is
  -- consistent: unless monny killed the process there is no reason for a kill, and if it did
  -- there is one, the reason to report is the kill, and the process does not count as a success.
  pub exec_loop-IsConsistent :
      (user_command : List String) (cfg : Config R) (es : List Event)
      → IsConsistent (exec_loop es (new_command user_command cfg)).0
  unfolding new_command
  exec_loop-IsConsistent user_command cfg es =
      exec_loop-IsRunning es (new_command user_command cfg) (refl, refl, refl)
