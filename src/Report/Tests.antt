-- ===== src/Report/Tests.antt =====
-- The theorems about reports (pkg/monny/report.go) at concrete commands.
use mathlib.Core.Path.{subst}
use monny.Base.{ℕ, ◌≡◌, ◌≢◌, ◌⊎◌, refl, arith, true, false, List, [], ◌∷◌, returned, panic}
use monny.Base.Int.{ℤ, pos, ◌-ℤ◌}
use monny.Proto.{failure, alert, alert_rate, memory_warning}
use monny.Config.Sample.{backup, backup_config}
use monny.Command.{Command, RuleMatch, new_command, check_memory, react, memory_profile}
use monny.Report.{count_recent, calc_alert_rate, drop, delivered, undelivered, decide, send_report}
use monny.Report.Warnings.{
  World, Runs, begin, then_react, then_send, at_start, has_warning, never_warns,
}
use monny.Report.Sending.{send_report-clears, lost_report_panics}

abbrev match_at : ℤ → RuleMatch
match_at t = record { time = t; line = "error"; index = [] }

abbrev matches : List RuleMatch
matches = match_at (pos 95) ∷ match_at (pos 98) ∷ []

often : calc_alert_rate (pos 100) matches (pos 2) (pos 10) ≡ true
unfolding calc_alert_rate count_recent ◌-ℤ◌
often = refl

abbrev alerting : Command ℕ
alerting = record (new_command backup backup_config) { rule_matches = matches }

clears :
    send_report (pos 100) alert delivered alerting
    ≡ returned (record alerting { rule_matches = [] })
unfolding send_report
clears = refl

alert_clears :
    (record alerting { rule_matches = [] } ≡ alerting)
    ⊎ ((record alerting { rule_matches = [] } ≡ record alerting { rule_matches = [] })
        × (delivered ≡ delivered)
        × ((alert ≡ alert)
            ⊎ ((alert ≡ alert_rate) × (calc_alert_rate (pos 100) matches (pos 0) (pos 0) ≡ true))))
unfolding new_command
alert_clears = send_report-clears (pos 100) alert delivered alerting clears

-- a measure of memory raises a warning, whose send then runs
abbrev begun : Command ℕ
begun = new_command backup backup_config

abbrev raised : Command ℕ
raised = record begun { max_memory = 60; report_reason = memory_warning; mem_warn_sent = true }

raises : react (memory_profile 60 (pos 1)) begun ≡ (raised, memory_warning ∷ [], false)
unfolding react check_memory new_command
raises = refl

dropped : send_report (pos 2) memory_warning delivered raised ≡ returned raised
unfolding send_report
dropped = refl

abbrev quiet : World ℕ
quiet = record { command = raised; waiting = []; transmitted = [] }

after_warning :
    Runs
      (at_start backup backup_config)
      (record { command = raised; waiting = memory_warning ∷ []; transmitted = [] })
after_warning =
    subst
      (λ t.
        Runs (at_start backup backup_config)
          (record { command = t.0; waiting = t.1; transmitted = [] }))
      raises (then_react begin (memory_profile 60 (pos 1)))

warning_sent : Runs (at_start backup backup_config) quiet
unfolding decide
warning_sent = then_send [] [] memory_warning (pos 2) delivered after_warning dropped

never_warns_example : has_warning quiet.transmitted ≡ false
never_warns_example = never_warns backup backup_config warning_sent

hands_over : decide (pos 3) failure raised ≢ drop
unfolding decide new_command
hands_over = ground arith

fatal_report : send_report (pos 3) failure undelivered raised ≡ panic
fatal_report = lost_report_panics backup backup_config (pos 3) failure warning_sent hands_over
