-- ===== src/Report/Message.antt =====
-- create, reportFromCommand and the marshal functions of pkg/monny/report.go: the
-- message of a report and the options of its connection. encoding/json, the printing of durations
-- and strings.Join are parameters; the message of pkg/pb has the fields that the code sets.
pub mod Options
use monny.Base.{ℕ, String, Bool, List, [], ◌∷◌, ◌++◌, Result, ok, err, if◌then◌else◌}
use monny.Base.Int.{ℤ}
use monny.Proto.{ReportReason, KillReason}
use monny.Config.{Config}
use monny.Report.ErrorService.{sent_errors}
use monny.Command.{Command, File, RuleMatch}

-- `unix` gives the seconds of a time; a function of encoding/json that fails gives its error.
pub record Codec {ℓ} (R : Type ℓ) : Type ℓ where
  pub marshal_matches : List RuleMatch → Result String String
  pub marshal_created : List File → Result String String
  pub marshal_config : Config R → Result String String
  pub duration_text : ℤ → String
  pub join_words : List String → String
  pub unix : ℤ → ℤ

-- `pb.Report`, with encoded fields as texts
pub record Message : Type 0 where
  pub id : String
  pub hostname : String
  pub stdout : List String
  pub stderr : List String
  pub success : Bool
  pub max_memory : ℕ
  pub killed : Bool
  pub kill_reason : KillReason
  pub created : String
  pub report_reason : ReportReason
  pub start : ℤ
  pub finish : ℤ
  pub duration : String
  pub exit_code : ℤ
  pub exit_code_valid : Bool
  pub messages : List String
  pub matches : String
  pub user_command : String
  pub config : String
  pub created_at : ℤ

-- the common text of the three marshal functions: the bytes, nil beside an error, and the errors
-- that `onError` gets
abbrev pub bytes_of : Result String String → String
bytes_of (ok bytes) = bytes
bytes_of (err e) = ""

abbrev pub errors_of : Result String String → List String
errors_of (ok bytes) = []
errors_of (err e) = e ∷ []

module _ {ℓ} {R : Type ℓ} (codec : Codec R) where
  -- `reportFromCommand(c, reason, onError)`, with the errors in the order of the calls
  unfoldable pub report_from_command : ℤ → ReportReason → Command R → Message × List String
  report_from_command now reason c =
      let created = codec.marshal_created c.created in
      let matches = codec.marshal_matches c.rule_matches in
      let config = codec.marshal_config c.config in
      (
        record {
          id = c.config.id;
          hostname = c.config.hostname;
          stdout = c.stdout;
          stderr = c.stderr;
          success = c.success;
          max_memory = c.max_memory;
          killed = c.killed;
          kill_reason = c.kill_reason;
          created = bytes_of created;
          report_reason = reason;
          start = codec.unix c.start;
          finish = codec.unix c.finish;
          duration = codec.duration_text c.duration;
          exit_code = c.exit_code;
          exit_code_valid = c.exit_code_valid;
          messages = c.messages;
          matches = bytes_of matches;
          user_command = codec.join_words c.user_command;
          config = bytes_of config;
          created_at = codec.unix now;
        },
        errors_of created ++ (errors_of matches ++ errors_of config),
      )

-- the options of a connection: credentials, or none
pub data DialOption : Type 0 where
  transport_credentials insecure : DialOption

-- `senderService`, without its wait group
pub record Service : Type 0 where
  pub host : String
  pub port : String
  pub opts : List DialOption

module _ {ℓ} {R : Type ℓ} (codec : Codec R) where
  abbrev pub dial_option : Config R → DialOption
  dial_option cfg = if cfg.use_tls then transport_credentials else insecure

  -- `create(c, reason)`
  unfoldable pub create :
      ℤ → Bool → ReportReason → Command R → Service → Message × Service × List String
  unfolding report_from_command
  create now suppressed reason c s =
      let (message, errors) = report_from_command codec now reason c in
      (
        message,
        record s { opts = s.opts ++ (dial_option c.config ∷ []) },
        sent_errors suppressed errors,
      )
