-- ===== src/Metric.antt =====
-- pkg/metric: the series and counters that observations are recorded in.
pub mod Name
pub mod Series
pub mod Counter
pub mod Recorder
pub mod Sampled
mod Tests
