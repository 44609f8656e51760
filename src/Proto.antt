-- ===== src/Proto.antt =====
-- pkg/proto/enum.go: why a report is sent and why a process was killed. The zero values are
-- `no_report` and `not_killed`.
pub data ReportReason : Type 0 where
  no_report success failure alert alert_rate memory_warning time_warning : ReportReason
  file_not_created killed start : ReportReason

pub data KillReason : Type 0 where
  not_killed timeout memory signal : KillReason
