-- ===== src/Config/Record.antt =====
-- The type `Config` of pkg/monny/config.go, without the two writers that only Exec uses. `R` is
-- the type of compiled regular expressions; a rule whose expression did not compile holds nil.
use monny.Base.{ℕ, String, Bool, List, Option}
use monny.Base.Int.{ℤ}

pub record Rule {ℓ} (R : Type ℓ) : Type ℓ where
  pub field : String
  pub regex : Option R

pub record Config {ℓ} (R : Type ℓ) : Type ℓ where
  pub id : String
  pub rules : List (Rule R)
  pub rule_quantity : ℤ
  pub rule_period : ℤ
  pub hostname : String
  pub notify_timeout : ℤ
  pub kill_timeout : ℤ
  pub memory_warn : ℕ
  pub memory_kill : ℕ
  pub daemon : Bool
  pub creates : List String
  pub stdout_history : ℤ
  pub stderr_history : ℤ
  pub notify_on_success : Bool
  pub notify_on_failure : Bool
  pub shell : String
  pub host : String
  pub port : String
  pub use_tls : Bool
