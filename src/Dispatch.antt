-- ===== src/Dispatch.antt =====
-- webapp/dashboard/services.py: handing runs to the task queue, one at a time for each device,
-- and cancelling a run. What the task queue is handed is the result; the queue is not modelled.
pub mod OneAtATime
use auto_perf.Prelude.{
  ℕ, String, Bool, true, false, Option, none, some, List, [], ◌∷◌, if◌then◌else◌,
}
use auto_perf.Prelude.Int.{ℤ, pos, negsuc}
use auto_perf.Prelude.{eqb}
use auto_perf.Models.{RunStatus, RunOrigin, is_pending, is_running}
use auto_perf.Storage.Rows.{Run, Storage}
use auto_perf.Storage.Runs.{new_run, create_run, update_run, request_cancel, get_run}
use auto_perf.Storage.Queue.{
  device_has_inflight_run, next_pending_run, mark_run_queued, devices_with_pending_runs,
}

-- the arguments of `run_test_task`, without the path of the database
pub record Task : Type 0 where
  pub serial : String
  pub duration : ℤ
  pub run_id : String
  pub youtube_scenario : Option String
  pub blind_targets : Option (List String)

-- `run["duration"] or 60.0`, in microseconds: 0 counts as missing
abbrev pub or_minute : Option ℤ → ℤ
or_minute none = pos 60_000_000
or_minute (some (pos n)) = if eqb n 0 then pos 60_000_000 else pos n
or_minute (some (negsuc n)) = negsuc n

abbrev pub task_of : String → Run → Task
task_of serial run = record {
  serial = serial;
  duration = or_minute run.duration;
  run_id = run.id;
  youtube_scenario = run.youtube_scenario;
  blind_targets = run.blind_targets;
}

-- the rest of `dispatch_pending`, once nothing is on its way to the device
abbrev pub hand_out : ℕ → String → Option Run → Storage → Storage × Option Task
hand_out now serial none db = (db, none)
hand_out now serial (some run) db = (mark_run_queued now run.id db, some (task_of serial run))

unfoldable pub dispatch_pending : ℕ → String → Storage → Storage × Option Task
dispatch_pending now serial db =
    if device_has_inflight_run now serial db
    then (db, none)
    else hand_out now serial (next_pending_run now serial db) db

abbrev cons_some : Option Task → List Task → List Task
cons_some none ts = ts
cons_some (some t) ts = t ∷ ts

unfoldable pub dispatch_each : ℕ → List String → Storage → Storage × List Task
dispatch_each now [] db = (db, [])
dispatch_each now (serial ∷ serials) db =
    let (after, task) = dispatch_pending now serial db in
    let (final, tasks) = dispatch_each now serials after in (final, cons_some task tasks)

unfoldable pub dispatch_stalled : ℕ → Storage → Storage × List Task
unfolding dispatch_each
dispatch_stalled now db = dispatch_each now (devices_with_pending_runs now db) db

-- `trigger_run`; `run_id` is the id that uuid4 draws, and `none` is the IntegrityError
unfoldable pub trigger_run :
    ℕ
    → String
    → String
    → ℤ
    → Option String
    → Option (List String)
    → Storage
    → Option (Storage × Option Task)
trigger_run now run_id serial duration youtube_scenario blind_targets db =
    elim (create_run
      (new_run run_id serial youtube_scenario none RunOrigin.dashboard (some duration)
        blind_targets)
      db) [ none ↦ none | some created ↦ some (dispatch_pending now serial created) ]

-- what `cancel_run` answers; the last two are its ValueErrors
pub data Cancelled : Type 0 where
  interrupted cancelling : Cancelled
  run_not_found nothing_to_cancel : Cancelled

abbrev pub cancel_found : ℕ → String → RunStatus → Storage → Storage × Cancelled
cancel_found now run_id RunStatus.pending db = (
  update_run now run_id RunStatus.interrupted none (some "cancelled before starting")
      (request_cancel run_id db),
  interrupted,
)
cancel_found now run_id RunStatus.running db = (request_cancel run_id db, cancelling)
cancel_found now run_id _ db = (db, nothing_to_cancel)

unfoldable pub cancel_run : ℕ → String → Storage → Storage × Cancelled
cancel_run now run_id db = elim (get_run db run_id) [
  | none ↦ (db, run_not_found)
  | some run ↦ cancel_found now run_id run.status db
]
