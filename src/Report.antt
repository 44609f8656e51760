-- ===== src/Report.antt =====
-- pkg/monny/report.go: which reports are sent, and what a send does to the command. The transport
-- (gRPC, retries with backoff) is outside: a send has the result that it reports.
pub mod Rate
pub mod Warnings
pub mod Sending
pub mod Goroutines
pub mod ErrorService
pub mod Message
mod Tests
use monny.Base.{
  ℕ, zero, suc, Bool, true, false, List, [], ◌∷◌, length, Outcome, returned, panic, if◌then◌else◌,
}
use monny.Base.Int.{ℤ, pos, ◌-ℤ◌, ltb_ℤ}
use monny.Proto.{
  ReportReason, no_report, success, failure, alert, alert_rate, memory_warning, time_warning,
  file_not_created, killed, start,
}
use monny.Command.{Command, RuleMatch}

-- the loop of `calcAlertRate`; `now` is read once before it
unfoldable pub count_recent : ℤ → ℤ → List RuleMatch → ℕ
count_recent now period [] = 0
count_recent now period (m ∷ matches) =
    let rest = count_recent now period matches in
    if ltb_ℤ period (now -ℤ m.time) then rest else suc rest

-- `calcAlertRate(matches, quantity, period)`
unfoldable pub calc_alert_rate : ℤ → List RuleMatch → ℤ → ℤ → Bool
calc_alert_rate now matches quantity period =
    let in_period =
      if ltb_ℤ (pos 0) period then count_recent now period matches else length matches in
    if ltb_ℤ (pos in_period) quantity then false else true

-- What `Send` does with a report: it drops it, or hands it to the transport; then, for an alert,
-- a success clears the rule matches. The value 0 of a reason does nothing.
pub data Decision : Type 0 where
  drop send send_and_clear : Decision

-- the `switch` of `Send(c, reason)`
unfoldable pub decide {ℓ} : {R : Type ℓ} → ℤ → ReportReason → Command R → Decision
decide now failure c = if c.config.notify_on_failure then send else drop
decide now success c = if c.config.notify_on_success then send else drop
decide now file_not_created c = send
decide now killed c = send
decide now alert c = send_and_clear
decide now alert_rate c =
    if calc_alert_rate now c.rule_matches c.config.rule_quantity c.config.rule_period
    then send_and_clear
    else drop
decide now memory_warning c = if c.mem_warn_sent then drop else send
decide now time_warning c = if c.time_warn_sent then drop else send
decide now start c = if c.config.daemon then send else drop
decide now no_report c = drop

-- How the wait for the transport ends: with success, or with an error or the timeout, which are
-- both handed to `c.errors`.
pub data Delivery : Type 0 where
  delivered undelivered : Delivery

-- the `select` of `Send`, for a report that was handed over
unfoldable pub await_result {ℓ} :
    {R : Type ℓ} → Decision → Delivery → Command R → Outcome (Command R)
await_result drop result c = returned c
await_result send delivered c = returned c
await_result send_and_clear delivered c = returned (record c { rule_matches = [] })
await_result send undelivered c = if c.has_errors then returned c else panic
await_result send_and_clear undelivered c = if c.has_errors then returned c else panic

-- `Send(c, reason)`
unfoldable pub send_report {ℓ} :
    {R : Type ℓ} → ℤ → ReportReason → Delivery → Command R → Outcome (Command R)
unfolding decide await_result
send_report now reason result c = await_result (decide now reason c) result c
