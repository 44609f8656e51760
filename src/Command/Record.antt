-- ===== src/Command/Record.antt =====
-- The type `Command` of pkg/monny/command.go, without its process id and its callbacks, which only
-- the start of the process uses (`Running` of Exec.antt), and the interfaces `handler`, `report`,
-- `out` and `err`. Times and durations are whole nanoseconds.
use monny.Base.{ℕ, String, Bool, false, List, []}
use monny.Base.Int.{ℤ, pos}
use monny.Proto.{ReportReason, no_report, KillReason, not_killed}
use monny.Config.{Config}

-- an artifact that the process has produced
pub record File : Type 0 where
  pub path : String
  pub size : ℤ
  pub time : ℤ

-- the matches of a rule in one line, as pairs of byte indices
pub record RuleMatch : Type 0 where
  pub time : ℤ
  pub line : String
  pub index : List (List ℕ)

pub record Command {ℓ} (R : Type ℓ) : Type ℓ where
  pub config : Config R
  pub user_command : List String
  pub stdout : List String
  pub stderr : List String
  pub success : Bool
  pub rule_matches : List RuleMatch
  pub killed : Bool
  pub kill_reason : KillReason
  pub created : List File
  pub max_memory : ℕ
  pub report_reason : ReportReason
  pub start : ℤ
  pub finish : ℤ
  pub duration : ℤ
  pub exit_code : ℤ
  pub exit_code_valid : Bool
  pub messages : List String
  pub mem_warn_sent : Bool
  pub time_warn_sent : Bool
  -- whether the interface `errors` holds a reporter; a call of a nil interface panics
  pub has_errors : Bool

-- The value that `New(usercmd, options...)` returns for a configuration that was accepted.
unfoldable pub new_command {ℓ} : {R : Type ℓ} → List String → Config R → Command R
new_command user_command cfg = record {
  config = cfg;
  user_command = user_command;
  stdout = [];
  stderr = [];
  success = false;
  rule_matches = [];
  killed = false;
  kill_reason = not_killed;
  created = [];
  max_memory = 0;
  report_reason = no_report;
  start = pos 0;
  finish = pos 0;
  duration = pos 0;
  exit_code = pos 0;
  exit_code_valid = false;
  messages = [];
  mem_warn_sent = false;
  time_warn_sent = false;
  has_errors = false;
}
