-- ===== src/Config/Sample.antt =====
-- A configuration for the tests, with a memory warning and two files to create.
use monny.Base.{ℕ, true, false, List, [], ◌∷◌, String}
use monny.Base.Int.{pos}
use monny.Config.Record.{Config}

abbrev pub backup_config : Config ℕ
backup_config = record {
  id = "backup";
  rules = [];
  rule_quantity = pos 0;
  rule_period = pos 0;
  hostname = "host";
  notify_timeout = pos 0;
  kill_timeout = pos 0;
  memory_warn = 50;
  memory_kill = 0;
  daemon = false;
  creates = "backup.tar" ∷ "backup.log" ∷ [];
  stdout_history = pos 30;
  stderr_history = pos 30;
  notify_on_success = true;
  notify_on_failure = true;
  shell = "sh";
  host = "report.lmkwtf.com";
  port = "443";
  use_tls = true;
}

abbrev pub backup : List String
backup = "backup" ∷ []
