-- ===== src/Report/Sending.antt =====
-- What a send leaves behind (pkg/monny/report.go, Send).
use monny.Base.{◌≡◌, ◌≢◌, ◌⊎◌, refl, ◌∙◌, true, false, List, [], String, arith, returned, panic}
use monny.Base.Int.{ℤ}
use monny.Proto.{ReportReason, alert, alert_rate}
use monny.Config.{Config}
use monny.Command.{Command, new_command}
use monny.Command.Exec.Reported.{react-errors}
use monny.Report.{
  calc_alert_rate, drop, Delivery, delivered, undelivered, decide, await_result, send_report,
}
use monny.Report.Warnings.{Runs, begin, then_react, then_send, World, at_start}

module _ {ℓ} {R : Type ℓ} where
  -- A send that returns either leaves the command as it was, or clears its rule matches; the
  -- latter only if the report was delivered, and was an alert, or an alert by rate whose rate was
  -- exceeded.
  pub send_report-clears :
      (now : ℤ) (r : ReportReason) (result : Delivery) (c : Command R) {c' : Command R}
      → send_report now r result c ≡ returned c'
      → (c' ≡ c)
        ⊎ ((c' ≡ record c { rule_matches = [] })
            × (result ≡ delivered)
            × ((r ≡ alert)
                ⊎ ((r ≡ alert_rate)
                    × (calc_alert_rate now c.rule_matches c.config.rule_quantity
                          c.config.rule_period
                        ≡ true))))
  unfolding send_report decide await_result
  send_report-clears now r result c h = ground arith

  send_report-errors :
      (now : ℤ) (r : ReportReason) (result : Delivery) (c : Command R) {c' : Command R}
      → send_report now r result c ≡ returned c'
      → c'.has_errors ≡ c.has_errors
  unfolding send_report decide await_result
  send_report-errors now r result c h = ground arith

  Runs-errors : {w v : World R} → Runs w v → v.command.has_errors ≡ w.command.has_errors
  Runs-errors begin = refl
  Runs-errors (then_react {c} run e) = react-errors e c ∙ Runs-errors run
  Runs-errors (then_send {c} before behind r now result run sent) =
      send_report-errors now r result c sent ∙ Runs-errors run

  undelivered-panics :
      (now : ℤ) (r : ReportReason) (c : Command R)
      → c.has_errors ≡ false
      → decide now r c ≢ drop
      → send_report now r undelivered c ≡ panic
  unfolding send_report decide await_result
  undelivered-panics now r c none sent = ground arith

  -- At every point of a run of a command from `New`, a report that is handed to the transport and
  -- not delivered makes the program panic.
  pub lost_report_panics :
      (user_command : List String) (cfg : Config R) {v : World R} (now : ℤ) (r : ReportReason)
      → Runs (at_start user_command cfg) v
      → decide now r v.command ≢ drop
      → send_report now r undelivered v.command ≡ panic
  unfolding new_command
  lost_report_panics user_command cfg {v} now r run sent =
      undelivered-panics now r v.command (Runs-errors run) sent
