-- ===== src/Tasks/Checking.antt =====
-- webapp/dashboard/tasks.py: run_preflight_task.
use auto_perf.Prelude.{
  ℕ, String, Bool, true, false, Option, none, some, List, [], ◌∷◌, ◌==◌, if◌then◌else◌,
}
use auto_perf.Prelude.Count.{first}
use auto_perf.Models.{RunStatus}
use auto_perf.Storage.Rows.{Preflight, Storage}
use auto_perf.Storage.Claims.{
  has_preflight_id, create_preflight, try_start_preflight, finish_preflight,
}
use auto_perf.Preflight.Grade.{ScenarioReport}
use auto_perf.Preflight.Cover.{covering_scenarios}
use auto_perf.Preflight.Summary.{is_ok}
use auto_perf.Preflight.Session.{Stage, Walked, walked, broke, walk_scenarios}

unfoldable pub get_preflight : Storage → String → Option Preflight
get_preflight db preflight_id = first (has_preflight_id preflight_id) db.preflight_reports

-- `if storage.get_preflight(preflight_id) is None: storage.create_preflight(...)`
unfoldable pub ensure_preflight : ℕ → String → String → Option String → Storage → Option Storage
ensure_preflight now preflight_id serial scenario db = elim (get_preflight db preflight_id) [
  | none ↦ create_preflight now preflight_id serial scenario db
  | some p ↦ some db
]

-- How the task ends: it is put off while the device is busy, it has graded, or it raises.
pub data TaskEnd : Type 0 where
  integrity_error retried : TaskEnd
  graded : List ScenarioReport → TaskEnd
  raised : TaskEnd

-- the app's version, `none` where reading it raises
abbrev pub VersionRead : Type 0
VersionRead = Option (Option String × Option String × Option ℕ)

abbrev pub failed_preflight : ℕ → String → Storage → Storage × TaskEnd
failed_preflight now preflight_id db = (
  finish_preflight now preflight_id RunStatus.failed none (some "error") (none, none, none) db,
  raised,
)

-- `RunStatus.INTERRUPTED if summary.get("stopped_early") else RunStatus.COMPLETED`
abbrev pub status_of : Bool → RunStatus
status_of true = RunStatus.interrupted
status_of false = RunStatus.completed

abbrev pub finished : ℕ → String → VersionRead → Storage × Walked → Storage × TaskEnd
finished now preflight_id version (db, broke) = failed_preflight now preflight_id db
finished now preflight_id none (db, walked reports stopped) = failed_preflight now preflight_id db
finished now preflight_id (some version) (db, walked reports stopped) = (
  finish_preflight now preflight_id (status_of stopped) (some (is_ok reports)) none version db,
  graded reports,
)

-- `[scenario] if scenario else preflight.covering_scenarios()`, and `scenarios or covering_scenarios()`
abbrev pub names_of : (String → List String) → Option String → List String
names_of targets none = covering_scenarios targets []
names_of targets (some s) = if s == "" then covering_scenarios targets [] else s ∷ []

-- What the task reads of the world, the database apart.
pub record Visit : Type 0 where
  pub claimed_at : ℕ
  pub finished_at : ℕ
  pub profile_raises : Bool
  pub screen : ℕ × ℕ
  pub introspectable : Bool
  pub stages : ℕ → Stage
  pub version : VersionRead

module _ (lower : String → String) (targets : String → List String) where
  abbrev pub graded_all : Visit → String → Option String → Storage → Storage × TaskEnd
  graded_all v preflight_id scenario db =
      if v.profile_raises
      then failed_preflight v.finished_at preflight_id db
      else finished v.finished_at preflight_id v.version (
          walk_scenarios lower v.screen v.introspectable preflight_id v.stages 0
            (names_of targets scenario) db)

  abbrev pub claimed : Visit → String → Option String → Storage × Bool → Storage × TaskEnd
  claimed v preflight_id scenario (db, false) = (db, retried)
  claimed v preflight_id scenario (db, true) = graded_all v preflight_id scenario db

  abbrev pub ensured : Visit → String → Option String → Storage → Option Storage → Storage × TaskEnd
  ensured v preflight_id scenario db none = (db, integrity_error)
  ensured v preflight_id scenario db (some there) =
      claimed v preflight_id scenario (try_start_preflight v.claimed_at preflight_id there)

  unfoldable pub run_preflight_task :
      Visit → String → String → Option String → Storage → Storage × TaskEnd
  run_preflight_task v serial preflight_id scenario db =
      ensured v preflight_id scenario db
        (ensure_preflight v.claimed_at preflight_id serial scenario db)
