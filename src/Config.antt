-- ===== src/Config.antt =====
-- pkg/monny/config.go: the configuration of the monitor and the options that set it.
mod Record
pub mod Options
pub mod Accepted
pub mod Limits
pub mod Sample
mod Tests
pub use Record.{Rule, Config}
