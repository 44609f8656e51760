-- ===== src/Report/Warnings.antt =====
-- The warnings of the handlers (pkg/monny/handlers.go) and the sends that they start
-- (pkg/monny/report.go): the goroutines of Send run at any later time and in any order.

use monny.Base.{
  ◌≡◌, refl, ap, ◌∙◌, Bool, true, false, ◌&&◌, ◌||◌, List, [], ◌∷◌, ◌++◌, map, String, arith,
  returned,
}
use monny.Base.Int.{ℤ, ◌-ℤ◌}
use monny.Proto.{ReportReason, memory_warning, time_warning, file_not_created}
use monny.Config.{Config}
use monny.Command.{
  Command, new_command, Ending, succeeded, FileState, finished, record_ending, handle_file_creation,
  on_signal, on_timeout, on_time_warning, check_memory, kill_on_high_memory, Event, run_finished,
  react,
}
use monny.Command.Files.{missing, check_files_lem, finished_lem}
use monny.Report.{drop, Delivery, decide, await_result, send_report}

-- A command, the sends that wait to run, and the reports that were handed to the transport.
pub record World {ℓ} (R : Type ℓ) : Type ℓ where
  pub command : Command R
  pub waiting : List ReportReason
  pub transmitted : List ReportReason

-- what a send adds to the reports that were handed over
abbrev handed {ℓ} :
    {R : Type ℓ} → ℤ → ReportReason → Command R → List ReportReason → List ReportReason
handed now r c done = elim (decide now r c) [ drop ↦ done | _ ↦ r ∷ done ]

-- An event of the loop of Exec starts its sends, and any send that waits may run, with any result,
-- as long as it does not panic.
pub data Runs {ℓ} {R : Type ℓ} (w : World R) : World R → Type ℓ where
  begin : Runs w w
  then_react :
      {c : Command R} {waiting transmitted : List ReportReason}
      → Runs w (record { command = c; waiting = waiting; transmitted = transmitted })
      → (e : Event)
      → Runs w (record {
        command = (react e c).0;
        waiting = waiting ++ (react e c).1;
        transmitted = transmitted;
      })
  then_send :
      {c c' : Command R} {transmitted : List ReportReason} (before behind : List ReportReason)
      (r : ReportReason) (now : ℤ) (result : Delivery)
      → Runs w (record { command = c; waiting = before ++ (r ∷ behind); transmitted = transmitted })
      → send_report now r result c ≡ returned c'
      → Runs w (record {
        command = c';
        waiting = before ++ behind;
        transmitted = handed now r c transmitted;
      })

abbrev is_warning : ReportReason → Bool
is_warning memory_warning = true
is_warning time_warning = true
is_warning _ = false

unfoldable pub has_warning : List ReportReason → Bool
has_warning [] = false
has_warning (r ∷ rs) = is_warning r || has_warning rs

module _ {ℓ} {R : Type ℓ} where
  -- whether the flag of a warning is set; other reasons have none
  abbrev flagged : Command R → ReportReason → Bool
  flagged c memory_warning = c.mem_warn_sent
  flagged c time_warning = c.time_warn_sent
  flagged c _ = true

  unfoldable all_flagged : Command R → List ReportReason → Bool
  all_flagged c [] = true
  all_flagged c (r ∷ rs) = flagged c r && all_flagged c rs

  abbrev Keeps : Command R → Command R → Type 0
  Keeps c c' =
      (c.mem_warn_sent ≡ true → c'.mem_warn_sent ≡ true)
      × (c.time_warn_sent ≡ true → c'.time_warn_sent ≡ true)

  all_flagged-append :
      (c : Command R) (xs ys : List ReportReason)
      → all_flagged c (xs ++ ys) ≡ (all_flagged c xs && all_flagged c ys)
  unfolding all_flagged
  all_flagged-append c [] ys = refl
  all_flagged-append c (x ∷ xs) ys = ground (arith, all_flagged-append c xs ys)

  all_flagged_kept :
      (c c' : Command R) (rs : List ReportReason)
      → Keeps c c'
      → all_flagged c rs ≡ true
      → all_flagged c' rs ≡ true
  unfolding all_flagged
  all_flagged_kept c c' [] k h = refl
  all_flagged_kept c c' (memory_warning ∷ rs) k h = ground (arith, all_flagged_kept c c' rs k)
  all_flagged_kept c c' (time_warning ∷ rs) k h = ground (arith, all_flagged_kept c c' rs k)
  all_flagged_kept c c' (_ ∷ rs) k h = ground (arith, all_flagged_kept c c' rs k)

  all_flagged-files :
      (c : Command R) (fs : List String) → all_flagged c (map (λ f. file_not_created) fs) ≡ true
  unfolding all_flagged
  all_flagged-files c [] = refl
  all_flagged-files c (f ∷ fs) = all_flagged-files c fs

  finished-flagged :
      (now : ℤ) (ending : Ending) (stat : String → FileState) (c : Command R)
      → Keeps c (finished now ending stat c).0
  unfolding finished record_ending handle_file_creation
  finished-flagged now ending stat c = ground (
    arith,
    check_files_lem stat c.config.creates
        (record_ending ending (record c { finish = now; duration = now -ℤ c.start })).0,
  )

  react-flagged : (e : Event) (c : Command R) → Keeps c (react e c).0
  unfolding react on_signal on_timeout on_time_warning check_memory kill_on_high_memory
  react-flagged (run_finished now ending stat) c = finished-flagged now ending stat c
  react-flagged _ c = ground arith

  sends-flagged : (e : Event) (c : Command R) → all_flagged (react e c).0 (react e c).1 ≡ true
  unfolding react on_signal on_timeout on_time_warning check_memory kill_on_high_memory all_flagged
  sends-flagged (run_finished now succeeded stat) c = ground (
    arith,
    finished_lem now succeeded stat c,
    all_flagged-files (finished now succeeded stat c).0 (missing stat c.config.creates),
  )
  sends-flagged (run_finished now ending stat) c = ground (
    arith,
    finished_lem now ending stat c,
    all_flagged-files (finished now ending stat c).0 (missing stat c.config.creates),
  )
  sends-flagged _ c = ground arith

  send_report-flagged :
      (now : ℤ) (r : ReportReason) (result : Delivery) (c : Command R) {c' : Command R}
      → send_report now r result c ≡ returned c'
      → Keeps c c'
  unfolding send_report decide await_result
  send_report-flagged now r result c h = ground arith

  handed-quiet :
      (now : ℤ) (r : ReportReason) (c : Command R) (done : List ReportReason)
      → flagged c r ≡ true
      → has_warning done ≡ false
      → has_warning (handed now r c done) ≡ false
  unfolding decide has_warning
  handed-quiet now memory_warning c done h q = ground arith
  handed-quiet now time_warning c done h q = ground arith
  handed-quiet now _ c done h q = ground arith

  abbrev IsQuiet : World R → Type 0
  IsQuiet w = (all_flagged w.command w.waiting ≡ true) × (has_warning w.transmitted ≡ false)

  all_flagged-between :
      (c : Command R) (before behind : List ReportReason) (r : ReportReason)
      → all_flagged c (before ++ (r ∷ behind)) ≡ true
      → (flagged c r ≡ true) × (all_flagged c (before ++ behind) ≡ true)
  unfolding all_flagged
  all_flagged-between c before behind r h =
      ground (arith, all_flagged-append c before (r ∷ behind), all_flagged-append c before behind)

  react-IsQuiet :
      (c : Command R) (e : Event) (waiting : List ReportReason)
      → all_flagged c waiting ≡ true
      → all_flagged (react e c).0 (waiting ++ (react e c).1) ≡ true
  react-IsQuiet c e waiting h =
      all_flagged-append (react e c).0 waiting (react e c).1
      ∙ (ap (λ b. b && all_flagged (react e c).0 (react e c).1)
            (all_flagged_kept c (react e c).0 waiting (react-flagged e c) h)
          ∙ sends-flagged e c)

  Runs-IsQuiet : {w v : World R} → IsQuiet w → Runs w v → IsQuiet v
  Runs-IsQuiet q begin = q
  Runs-IsQuiet q (then_react {c} {waiting} {transmitted} run e) =
      let h = Runs-IsQuiet q run in (react-IsQuiet c e waiting h.0, h.1)
  Runs-IsQuiet q (then_send {c} {c'} {transmitted} before behind r now result run sent) =
      let h = Runs-IsQuiet q run in
      let split = all_flagged-between c before behind r h.0 in
      (
        all_flagged_kept c c' (before ++ behind) (send_report-flagged now r result c sent) split.1,
        handed-quiet now r c transmitted split.0 h.1,
      )

  abbrev pub at_start : List String → Config R → World R
  at_start user_command cfg = record {
    command = new_command user_command cfg;
    waiting = [];
    transmitted = [];
  }

  begins-IsQuiet :
      (user_command : List String) (cfg : Config R) → IsQuiet (at_start user_command cfg)
  unfolding all_flagged has_warning
  begins-IsQuiet user_command cfg = (refl, refl)

  -- However the loop of Exec and the sends that it starts interleave, from a new command on, no
  -- memory warning and no time warning is ever handed to the transport.
  pub never_warns :
      (user_command : List String) (cfg : Config R) {v : World R}
      → Runs (at_start user_command cfg) v
      → has_warning v.transmitted ≡ false
  never_warns user_command cfg run = (Runs-IsQuiet (begins-IsQuiet user_command cfg) run).1
