-- ===== src/Storage/Rows.antt =====
-- src/autoperf/storage.py: SCHEMA and the columns that `initialize` adds.
-- A table is the list of its rows in rowid order, and NULL is `none`.
use auto_perf.Prelude.{ℕ, String, Bool, Option, List, []}
use auto_perf.Prelude.Int.{ℤ}
use auto_perf.Models.{RunStatus, RunOrigin, MetricSample, Kind}

-- test_runs
pub record Run : Type 0 where
  pub id : String
  pub device_serial : String
  pub status : RunStatus
  pub started_at : Option ℕ
  pub finished_at : Option ℕ
  pub checkpoint : Option String
  pub error : Option String
  pub youtube_scenario : Option String
  pub cancel_requested : Bool
  pub campaign_id : Option String
  pub app_package : Option String
  pub app_version_name : Option String
  pub app_version_code : Option ℕ
  pub origin : RunOrigin
  pub heartbeat_at : Option ℕ
  pub duration : Option ℤ
  pub blind_targets : Option (List String)
  pub queued_at : Option ℕ

-- preflight_reports; the summary is kept for its `ok` field alone
pub record Preflight : Type 0 where
  pub id : String
  pub device_serial : String
  pub scenario : Option String
  pub status : RunStatus
  pub created_at : ℕ
  pub started_at : Option ℕ
  pub finished_at : Option ℕ
  pub app_package : Option String
  pub app_version_name : Option String
  pub app_version_code : Option ℕ
  pub summary_ok : Option Bool
  pub error : Option String
  pub cancel_requested : Bool

-- campaigns
pub record Campaign : Type 0 where
  pub id : String
  pub kind : String
  pub device_serial : String
  pub scenario : Option String
  pub tier : Option String
  pub duration : ℤ
  pub iterations : ℤ
  pub status : RunStatus
  pub cancel_requested : Bool
  pub created_at : ℕ
  pub started_at : Option ℕ
  pub finished_at : Option ℕ
  pub error : Option String

-- baselines
pub record Baseline : Type 0 where
  pub device_serial : String
  pub scenario : String
  pub run_id : String
  pub created_at : ℕ

-- test_events, with the kind read as the runner's own; the message and the details are for display
pub record Event : Type 0 where
  pub run_id : String
  pub timestamp : ℕ
  pub kind : Kind

-- the database file
pub record Storage : Type 0 where
  pub test_runs : List Run
  pub preflight_reports : List Preflight
  pub campaigns : List Campaign
  pub baselines : List Baseline
  pub metric_samples : List MetricSample
  pub test_events : List Event

abbrev pub empty : Storage
empty = record {
  test_runs = [];
  preflight_reports = [];
  campaigns = [];
  baselines = [];
  metric_samples = [];
  test_events = [];
}
