-- ===== src/Runner/Start.antt =====
-- src/autoperf/runner.py, `run`: what happens before the first event is written.
use auto_perf.Prelude.{
  ℕ, String, Bool, true, false, not, Option, none, some, List, [], ◌∷◌, ◌==◌, if◌then◌else◌,
}
use auto_perf.Prelude.Count.{all}
use auto_perf.Models.{RunStatus, RunOrigin}
use auto_perf.Storage.Rows.{Run, Storage}
use auto_perf.Storage.Runs.{new_run, create_run, update_run, get_run}
use auto_perf.Storage.Claims.{try_start_run}

-- `started` is the one answer after which the device is driven. `returned` gives the run id back
-- with nothing done; the rest are the exceptions.
pub data Started : Type 0 where
  started returned : Started
  no_adapter no_action other_device device_busy integrity_error : Started

-- the adapter's actions, by name
abbrev pub Actions : Type 0
Actions = String → Bool

-- `scenario requires an adapter`, and `Adapter has no action`
unfoldable pub check_scenario : Option Actions → List String → Option Started
check_scenario adapter [] = none
check_scenario none (action ∷ actions) = some no_adapter
check_scenario (some has_action) (action ∷ actions) =
    if all has_action (action ∷ actions) then none else some no_action

abbrev pub answer : Storage × Bool → Storage × Started
answer (db, true) = (db, started)
answer (db, false) = (db, device_busy)

unfoldable pub claim : ℕ → String → Storage → Storage × Started
claim now run_id db = answer (try_start_run now run_id db)

-- `storage.create_run(run_id, serial)`, where the caller made no row
abbrev pub created : ℕ → String → Option Storage → Storage → Storage × Started
created now run_id none db = (db, integrity_error)
created now run_id (some db') db = claim now run_id db'

-- the three cases of the row that is there, or is not
unfoldable pub start_existing :
    ℕ → String → String → Bool → Option Run → Storage → Storage × Started
unfolding claim
start_existing now serial run_id require_existing none db =
    if require_existing
    then (db, returned)
    else created now run_id
        (create_run (new_run run_id serial none none RunOrigin.unknown none none) db) db
start_existing now serial run_id require_existing (some existing) db =
    if not (existing.device_serial == serial)
    then (db, other_device)
    else if existing.cancel_requested
    then (
      update_run now run_id RunStatus.interrupted none (some "cancelled before starting") db,
      returned,
    )
    else claim now run_id db

abbrev pub start_checked : Option Started → ℕ → String → String → Bool → Storage → Storage × Started
start_checked (some refused) now serial run_id require_existing db = (db, refused)
start_checked none now serial run_id require_existing db =
    start_existing now serial run_id require_existing (get_run db run_id) db

unfoldable pub start :
    Option Actions → List String → ℕ → String → String → Bool → Storage → Storage × Started
unfolding start_existing
start adapter actions now serial run_id require_existing db =
    start_checked (check_scenario adapter actions) now serial run_id require_existing db
