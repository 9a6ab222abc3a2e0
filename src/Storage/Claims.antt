-- ===== src/Storage/Claims.antt =====
-- src/autoperf/storage.py: who drives a device. A run and a preflight claim it by `try_start_…`,
-- after rows whose worker is gone have been released.
use auto_perf.Prelude.{
  ℕ, ◌-◌, String, Bool, true, false, not, ◌&&◌, ◌||◌, Option, none, some, List, [], ◌∷◌, ◌++◌, ◌==◌,
  eqb, if◌then◌else◌, coalesce, before, take,
}
use mathlib.Core.List.{reverse}
use auto_perf.Prelude.Count.{count, any, first, select, update_where}
use auto_perf.Models.{RunStatus, is_running, is_pending}
use auto_perf.Storage.Rows.{Run, Preflight, Storage}
use auto_perf.Storage.Runs.{has_id}

-- ABANDONED_RUN_SECONDS and ABANDONED_PREFLIGHT_SECONDS, in microseconds
abbrev pub abandoned_run : ℕ
abandoned_run = 120_000_000

abbrev pub abandoned_preflight : ℕ
abandoned_preflight = 900_000_000

-- `_release_abandoned_preflights`
abbrev pub is_abandoned_preflight : ℕ → Preflight → Bool
is_abandoned_preflight now p =
    is_running p.status && before p.started_at (now - abandoned_preflight)

abbrev pub release_preflight : ℕ → Preflight → Preflight
release_preflight now p = record p {
  status = RunStatus.failed;
  finished_at = some now;
  error = some "abandoned: ran past its ceiling, its worker is gone";
}

unfoldable pub release_abandoned_preflights : ℕ → Storage → Storage
release_abandoned_preflights now db = record db {
  preflight_reports =
      update_where (is_abandoned_preflight now) (release_preflight now) db.preflight_reports;
}

-- `_release_abandoned_runs`
abbrev pub is_abandoned_run : ℕ → Run → Bool
is_abandoned_run now r =
    is_running r.status && before (coalesce r.heartbeat_at r.started_at) (now - abandoned_run)

abbrev pub release_run : ℕ → Run → Run
release_run now r = record r {
  status = RunStatus.interrupted;
  finished_at = some now;
  error = some "abandoned: no heartbeat, its worker is gone";
}

unfoldable pub release_abandoned_runs : ℕ → Storage → Storage
release_abandoned_runs now db = record db {
  test_runs = update_where (is_abandoned_run now) (release_run now) db.test_runs;
}

unfoldable pub release_abandoned : ℕ → Storage → Storage
unfolding release_abandoned_runs release_abandoned_preflights
release_abandoned now db = release_abandoned_preflights now (release_abandoned_runs now db)

-- the rows that hold a device
abbrev pub run_holds : String → Run → Bool
run_holds serial r = r.device_serial == serial && is_running r.status

abbrev pub preflight_holds : String → Preflight → Bool
preflight_holds serial p = p.device_serial == serial && is_running p.status

abbrev pub has_preflight_id : String → Preflight → Bool
has_preflight_id preflight_id p = p.id == preflight_id

-- the two NOT EXISTS of `try_start_run`, over the claimed row's own device
unfoldable pub run_is_free : String → String → Storage → Bool
run_is_free run_id serial db =
    not (any (λ r. run_holds serial r && not (has_id run_id r)) db.test_runs)
    && not (any (preflight_holds serial) db.preflight_reports)

abbrev pub claim_run : ℕ → Run → Run
claim_run now r = record r {
  status = RunStatus.running;
  started_at = coalesce r.started_at (some now);
}

-- the UPDATE; its subquery for the device is NULL where the row is missing, and then so is the row
unfoldable pub claim_run_row : ℕ → String → Option Run → Storage → Storage × Bool
unfolding run_is_free
claim_run_row now run_id none db = (db, false)
claim_run_row now run_id (some row) db =
    if run_is_free run_id row.device_serial db
    then (
      record db { test_runs = update_where (has_id run_id) (claim_run now) db.test_runs },
      eqb (count (has_id run_id) db.test_runs) 1,
    )
    else (db, false)

unfoldable pub try_start_run : ℕ → String → Storage → Storage × Bool
try_start_run now run_id db =
    let released = release_abandoned now db in
    claim_run_row now run_id (first (has_id run_id) released.test_runs) released

abbrev pub new_preflight : ℕ → String → String → Option String → Preflight
new_preflight now preflight_id serial scenario = record {
  id = preflight_id;
  device_serial = serial;
  scenario = scenario;
  status = RunStatus.pending;
  created_at = now;
  started_at = none;
  finished_at = none;
  app_package = none;
  app_version_name = none;
  app_version_code = none;
  summary_ok = none;
  error = none;
  cancel_requested = false;
}

-- `none` is the IntegrityError of a primary key that is taken.
unfoldable pub create_preflight : ℕ → String → String → Option String → Storage → Option Storage
create_preflight now preflight_id serial scenario db =
    if any (has_preflight_id preflight_id) db.preflight_reports
    then none
    else some (record db {
      preflight_reports =
          db.preflight_reports ++ new_preflight now preflight_id serial scenario ∷ [];
    })

-- WHERE id=? AND status IN ('pending','running')
abbrev pub is_stoppable : String → Preflight → Bool
is_stoppable preflight_id p =
    has_preflight_id preflight_id p && (is_pending p.status || is_running p.status)

unfoldable pub request_preflight_cancel : String → Storage → Storage × Bool
request_preflight_cancel preflight_id db = (
  record db {
    preflight_reports =
        update_where (is_stoppable preflight_id) (λ p. record p { cancel_requested = true })
          db.preflight_reports;
  },
  eqb (count (is_stoppable preflight_id) db.preflight_reports) 1,
)

unfoldable pub preflight_cancel_requested : Storage → String → Bool
preflight_cancel_requested db preflight_id =
    elim (first (has_preflight_id preflight_id) db.preflight_reports) [
      | none ↦ false
      | some p ↦ p.cancel_requested
    ]

-- the two NOT EXISTS of `try_start_preflight`
unfoldable pub preflight_is_free : String → String → Storage → Bool
preflight_is_free preflight_id serial db =
    not (
      any (λ p. preflight_holds serial p && not (has_preflight_id preflight_id p))
        db.preflight_reports)
    && not (any (run_holds serial) db.test_runs)

abbrev pub claim_preflight : ℕ → Preflight → Preflight
claim_preflight now p = record p {
  status = RunStatus.running;
  started_at = coalesce p.started_at (some now);
}

abbrev pub is_waiting : String → Preflight → Bool
is_waiting preflight_id p = has_preflight_id preflight_id p && is_pending p.status

unfoldable pub claim_preflight_row : ℕ → String → Option Preflight → Storage → Storage × Bool
unfolding preflight_is_free
claim_preflight_row now preflight_id none db = (db, false)
claim_preflight_row now preflight_id (some row) db =
    if preflight_is_free preflight_id row.device_serial db
    then (
      record db {
        preflight_reports =
            update_where (is_waiting preflight_id) (claim_preflight now) db.preflight_reports;
      },
      eqb (count (is_waiting preflight_id) db.preflight_reports) 1,
    )
    else (db, false)

unfoldable pub try_start_preflight : ℕ → String → Storage → Storage × Bool
try_start_preflight now preflight_id db =
    let released = release_abandoned now db in
    claim_preflight_row now preflight_id
      (first (has_preflight_id preflight_id) released.preflight_reports) released

-- the verdict: what the summary says of `ok`, the error, and the versions that were read
unfoldable pub finish_preflight :
    ℕ
    → String
    → RunStatus
    → Option Bool
    → Option String
    → Option String × Option String × Option ℕ
    → Storage
    → Storage
finish_preflight now preflight_id status ok error (app, version_name, version_code) db = record db {
  preflight_reports =
      update_where (has_preflight_id preflight_id)
        (λ p. record p {
          status = status;
          finished_at = some now;
          summary_ok = ok;
          error = error;
          app_package = coalesce app p.app_package;
          app_version_name = coalesce version_name p.app_version_name;
          app_version_code = coalesce version_code p.app_version_code;
        })
        db.preflight_reports;
}

-- `list_running_runs`: what holds a device, after the release, newest first and at most `limit`
unfoldable pub list_running_runs : ℕ → ℕ → Storage → Storage × List Run
list_running_runs now limit db =
    let released = release_abandoned now db in
    (released, take limit (reverse (select (λ r. is_running r.status) released.test_runs)))
