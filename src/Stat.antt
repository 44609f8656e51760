-- ===== src/Stat.antt =====
-- pkg/stat: statistics that watch a series and raise an alarm when it drifts.
pub mod Machine
pub mod Pdf
pub mod Statistic
pub mod Suite
pub mod Calibrate
mod Tests
