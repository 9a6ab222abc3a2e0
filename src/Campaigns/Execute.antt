-- ===== src/Campaigns/Execute.antt =====
-- src/autoperf/campaigns.py, `execute_campaign`: the command line's loop over a campaign's runs.
use auto_perf.Prelude.{
  ℕ, suc, String, Bool, true, false, Option, none, some, List, [], ◌∷◌, if◌then◌else◌,
}
use auto_perf.Prelude.Int.{or_zero}
use auto_perf.Models.{RunStatus, is_terminal}
use auto_perf.Storage.Rows.{Run, Campaign, Storage}
use auto_perf.Storage.Runs.{update_run}
use auto_perf.Storage.Campaigns.{get_campaign, list_campaign_runs, update_campaign}
use auto_perf.Runner.Start.{Started}
use auto_perf.Runner.Loop.{TestRunner}
use auto_perf.Runner.Run.{RunResult, refused, ended, World, run}
use auto_perf.Tasks.{seed_baseline}
use auto_perf.Campaigns.Status.{status_from_runs}

-- What one turn of the loop reads of the world: what other processes did to the database before it;
-- the runner that the profile, the adapter and the scenario's preset give (`none` where building them
-- raises); what the run reads; and the clock after it.
pub record Turn : Type 0 where
  pub others : Storage → Storage
  pub built : Option TestRunner
  pub world : World
  pub now : ℕ

-- `TestRunner.run` raises for every refusal but the early return
abbrev pub raises : RunResult → Bool
raises (refused Started.returned) = false
raises (refused _) = true
raises (ended b) = b

abbrev pub failed_run : ℕ → String → Storage → Storage
failed_run now run_id db = update_run now run_id RunStatus.failed none (some "error") db

-- `except Exception`
abbrev pub caught : ℕ → String → Option (Storage × RunResult) → Option Storage
caught now run_id none = none
caught now run_id (some (db, result)) =
    some (if raises result then failed_run now run_id db else db)

-- `TestRunner(...).run(serial, duration, run["id"])`, without `require_existing`
abbrev pub runner_of : Campaign → Run → TestRunner → TestRunner
runner_of c row r = record r { run_id = row.id; duration = or_zero c.duration }

abbrev pub try_run :
    (ℕ → String) → Campaign → Run → Turn → Option TestRunner → Storage → Option Storage
try_run str c row t none db = some (failed_run t.now row.id db)
try_run str c row t (some r) db =
    caught t.now row.id (run (runner_of c row r) str c.device_serial false t.world db)

abbrev pub seeded : ℕ → String → Run → Option Storage → Option Storage
seeded now serial row none = none
seeded now serial row (some db) = some (seed_baseline now serial row.id row.youtube_scenario db)

-- one run, with its baseline; `none` while the run goes on
unfoldable pub execute_run : (ℕ → String) → Campaign → Run → Turn → Storage → Option Storage
execute_run str c row t db = seeded t.now c.device_serial row (try_run str c row t t.built db)

-- `current and current.get("cancel_requested")`
abbrev pub is_cancelled : Option Campaign → Bool
is_cancelled none = false
is_cancelled (some c) = c.cancel_requested

-- the database, the ids of the runs that were executed, and `cancelled`
abbrev pub Progress : Type 0
Progress = Storage × List String × Bool

abbrev pub executed_first : String → Option Progress → Option Progress
executed_first run_id none = none
executed_first run_id (some (db, executed, cancelled)) = some (db, run_id ∷ executed, cancelled)

-- the loop over the rows that were read at the start; `turns i` is for the i-th of them
unfoldable pub execute_runs :
    (ℕ → String) → Campaign → (ℕ → Turn) → ℕ → List Run → Storage → Option Progress
execute_runs str c turns i [] db = some (db, [], false)
execute_runs str c turns i (row ∷ rows) db =
    let here = (turns i).others db in
    let skipped = execute_runs str c turns (suc i) rows here in
    if is_cancelled (get_campaign here c.id)
    then some (here, [], true)
    else if is_terminal row.status
    then skipped
    else elim (execute_run str c row (turns i) here) [
      | none ↦ none
      | some db' ↦ executed_first row.id (execute_runs str c turns (suc i) rows db')
    ]

-- `campaign not found`, or the reply with the number of runs executed and the status
pub data Reply : Type 0 where
  not_found : Reply
  reply : List String → RunStatus → Reply

abbrev pub final_status : Bool → List Run → RunStatus
final_status true runs = RunStatus.interrupted
final_status false runs = status_from_runs runs

abbrev pub concluded : ℕ → String → Option Progress → Option (Storage × Reply)
concluded now campaign_id none = none
concluded now campaign_id (some (db, executed, cancelled)) =
    let status = final_status cancelled (list_campaign_runs db campaign_id) in
    some (update_campaign now campaign_id status none db, reply executed status)

abbrev pub execute_found :
    (ℕ → String)
    → ℕ
    → ℕ
    → (ℕ → Turn)
    → String
    → Option Campaign
    → Storage
    → Option (Storage × Reply)
execute_found str began now turns campaign_id none db = some (db, not_found)
execute_found str began now turns campaign_id (some c) db =
    let opened = update_campaign began campaign_id RunStatus.running none db in
    concluded now campaign_id
      (execute_runs str c turns 0 (list_campaign_runs opened campaign_id) opened)

unfoldable pub execute_campaign :
    (ℕ → String) → ℕ → ℕ → (ℕ → Turn) → String → Storage → Option (Storage × Reply)
execute_campaign str began now turns campaign_id db =
    execute_found str began now turns campaign_id (get_campaign db campaign_id) db
