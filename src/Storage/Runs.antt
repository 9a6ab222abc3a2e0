-- ===== src/Storage/Runs.antt =====
-- src/autoperf/storage.py: one run's row, from its creation to its deletion.
use auto_perf.Prelude.{
  ℕ, String, Bool, true, false, Option, none, some, List, [], ◌∷◌, ◌++◌, ◌==◌, if◌then◌else◌,
  coalesce,
}
use auto_perf.Prelude.Count.{any, first, update_where, delete_where}
use auto_perf.Prelude.Int.{ℤ}
use auto_perf.Models.{RunStatus, RunOrigin, MetricSample, is_running, is_terminal}
use auto_perf.Storage.Rows.{Run, Baseline, Event, Storage}

-- WHERE id=?
abbrev pub has_id : String → Run → Bool
has_id run_id r = r.id == run_id

-- `json.dumps(blind_targets) if blind_targets else None`: an empty list is stored as NULL
abbrev pub or_null : Option (List String) → Option (List String)
or_null (some (t ∷ ts)) = some (t ∷ ts)
or_null _ = none

abbrev pub new_run :
    String
    → String
    → Option String
    → Option String
    → RunOrigin
    → Option ℤ
    → Option (List String)
    → Run
new_run run_id serial youtube_scenario campaign_id origin duration blind_targets = record {
  id = run_id;
  device_serial = serial;
  status = RunStatus.pending;
  started_at = none;
  finished_at = none;
  checkpoint = none;
  error = none;
  youtube_scenario = youtube_scenario;
  cancel_requested = false;
  campaign_id = campaign_id;
  app_package = none;
  app_version_name = none;
  app_version_code = none;
  origin = origin;
  heartbeat_at = none;
  duration = duration;
  blind_targets = or_null blind_targets;
  queued_at = none;
}

-- `none` is the IntegrityError of a primary key that is taken.
unfoldable pub create_run : Run → Storage → Option Storage
create_run r db =
    if any (has_id r.id) db.test_runs
    then none
    else some (record db { test_runs = db.test_runs ++ r ∷ [] })

-- the SET list of `update_run`: every update stamps the heartbeat and writes the error
abbrev pub stamp : ℕ → RunStatus → Option String → Option String → Run → Run
stamp now status checkpoint error r = record r {
  status = status;
  started_at = if is_running status then coalesce r.started_at (some now) else r.started_at;
  finished_at = if is_terminal status then some now else r.finished_at;
  checkpoint = coalesce checkpoint r.checkpoint;
  heartbeat_at = some now;
  error = error;
}

unfoldable pub update_run :
    ℕ → String → RunStatus → Option String → Option String → Storage → Storage
update_run now run_id status checkpoint error db = record db {
  test_runs = update_where (has_id run_id) (stamp now status checkpoint error) db.test_runs;
}

-- no version, no write
unfoldable pub set_run_app_version :
    String → Option (Option String × Option String × Option ℕ) → Storage → Storage
set_run_app_version run_id none db = db
set_run_app_version run_id (some (app, version_name, version_code)) db = record db {
  test_runs =
      update_where (has_id run_id)
        (λ r. record r {
          app_package = app;
          app_version_name = version_name;
          app_version_code = version_code;
        })
        db.test_runs;
}

unfoldable pub request_cancel : String → Storage → Storage
request_cancel run_id db = record db {
  test_runs = update_where (has_id run_id) (λ r. record r { cancel_requested = true }) db.test_runs;
}

unfoldable pub delete_run : String → Storage → Storage
delete_run run_id db = record db {
  metric_samples = delete_where (λ (m : MetricSample). m.run_id == run_id) db.metric_samples;
  test_events = delete_where (λ (e : Event). e.run_id == run_id) db.test_events;
  baselines = delete_where (λ (b : Baseline). b.run_id == run_id) db.baselines;
  test_runs = delete_where (has_id run_id) db.test_runs;
}

unfoldable pub get_run : Storage → String → Option Run
get_run db run_id = first (has_id run_id) db.test_runs
