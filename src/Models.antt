-- ===== src/Models.antt =====
-- src/autoperf/models.py: statuses, origins, samples and events.
-- A time is a number of microseconds since the epoch: `utc_now` writes every instant in UTC and in
-- one ISO-8601 form, in which texts compare as the instants do. A float is a whole number of the
-- smallest unit that the program reads (microseconds for a time, thousandths for a metric).
use auto_perf.Prelude.{ℕ, String, Bool, true, false}
use auto_perf.Prelude.Int.{ℤ}

-- class RunStatus
pub data RunStatus : Type 0 where
  pending running completed failed interrupted : RunStatus

-- status='pending'
abbrev pub is_pending : RunStatus → Bool
is_pending RunStatus.pending = true
is_pending _ = false

-- status='running'
abbrev pub is_running : RunStatus → Bool
is_running RunStatus.running = true
is_running _ = false

-- status='completed'
abbrev pub is_completed : RunStatus → Bool
is_completed RunStatus.completed = true
is_completed _ = false

-- status IN ('failed','interrupted')
abbrev pub is_errored : RunStatus → Bool
is_errored RunStatus.failed = true
is_errored RunStatus.interrupted = true
is_errored _ = false

-- status IN ('completed','failed','interrupted')
abbrev pub is_terminal : RunStatus → Bool
is_terminal RunStatus.completed = true
is_terminal RunStatus.failed = true
is_terminal RunStatus.interrupted = true
is_terminal _ = false

-- class RunOrigin
pub data RunOrigin : Type 0 where
  manual dashboard campaign suite unknown : RunOrigin

-- origin=?
abbrev pub is_origin : RunOrigin → RunOrigin → Bool
is_origin RunOrigin.manual RunOrigin.manual = true
is_origin RunOrigin.dashboard RunOrigin.dashboard = true
is_origin RunOrigin.campaign RunOrigin.campaign = true
is_origin RunOrigin.suite RunOrigin.suite = true
is_origin RunOrigin.unknown RunOrigin.unknown = true
is_origin _ _ = false

-- class MetricSample, with the labels left out (no code reads them back)
pub record MetricSample : Type 0 where
  pub run_id : String
  pub collector : String
  pub name : String
  pub value : ℤ
  pub unit : String
  pub timestamp : ℕ

-- The kinds of event that the runner writes.
pub data Kind : Type 0 where
  lifecycle app_version_unavailable collector_error collector_timeout : Kind
  adapter_action adapter_error adapter_timeout : Kind
  verification_failed selector_fallback selector_stale ui_introspection : Kind
