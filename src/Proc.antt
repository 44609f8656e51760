-- ===== src/Proc.antt =====
-- pkg/monny/proc: the processor that reads log lines, keeps the recent ones and passes them on.
pub mod Queue
pub mod LogOption
pub mod Logs
pub mod Waiting
mod Tests
