-- ===== src/Tasks.antt =====
-- webapp/dashboard/tasks.py: run_test_task, before and after the run that it makes.
pub mod Revived
pub mod Seeded
pub mod Checking
pub mod Covered
pub mod Checked
use auto_perf.Prelude.{
  ℕ, String, Bool, true, false, ◌&&◌, Option, none, some, List, is_none, if◌then◌else◌,
}
use auto_perf.Models.{RunOrigin, is_completed}
use auto_perf.Storage.Rows.{Run, Storage}
use auto_perf.Storage.Runs.{new_run, create_run, get_run}
use auto_perf.Storage.Baselines.{set_baseline, get_baseline}
use auto_perf.Dispatch.{Task, dispatch_pending}
use auto_perf.Runner.Start.{Started, Actions, integrity_error, start}

-- `if storage.get_run(run_id) is None: storage.create_run(...)`
unfoldable pub ensure_row : String → String → Option String → Storage → Option Storage
ensure_row serial run_id youtube_scenario db = elim (get_run db run_id) [
  | none ↦ create_run (new_run run_id serial youtube_scenario none RunOrigin.dashboard none none) db
  | some r ↦ some db
]

-- the task up to the first event of its run: `require_existing` is set
unfoldable pub begin_task :
    Option Actions → List String → ℕ → String → String → Option String → Storage → Storage × Started
begin_task adapter actions now serial run_id youtube_scenario db =
    elim (ensure_row serial run_id youtube_scenario db) [
      | none ↦ (db, integrity_error)
      | some there ↦ start adapter actions now serial run_id true there
    ]

-- `completed and completed["status"] == "completed" and get_baseline(...) is None`
abbrev pub seeds : String → Option String → Storage → Option Run → Bool
seeds serial youtube_scenario db none = false
seeds serial youtube_scenario db (some r) =
    is_completed r.status && is_none (get_baseline db serial youtube_scenario)

unfoldable pub seed_baseline : ℕ → String → String → Option String → Storage → Storage
seed_baseline now serial run_id youtube_scenario db =
    if seeds serial youtube_scenario db (get_run db run_id)
    then set_baseline now serial run_id db
    else db

-- the task after a run that came back, up to its end; after an exception the baseline is skipped
unfoldable pub finish_task :
    Bool → ℕ → String → String → Option String → Storage → Storage × Option Task
unfolding seed_baseline
finish_task came_back now serial run_id youtube_scenario db =
    dispatch_pending now serial
      (if came_back then seed_baseline now serial run_id youtube_scenario db else db)
