-- ===== src/Campaigns/Orphaned.antt =====
-- src/autoperf/campaigns.py, `execute_campaign`: a campaign that is deleted while it is executed.
use auto_perf.Prelude.{
  ℕ, suc, String, ◌≡◌, refl, ap, ◌∙◌, true, false, Option, none, some, List, ◌∷◌, map,
}
use auto_perf.Prelude.Count.{any}
use auto_perf.Models.{RunOrigin, is_terminal}
use auto_perf.Storage.Rows.{Run, Campaign, Storage}
use auto_perf.Storage.Runs.{get_run}
use auto_perf.Storage.Campaigns.{get_campaign}
use auto_perf.Storage.Claims.{release_abandoned, try_start_run}
use auto_perf.Storage.Exclusive.{IsValid, load}
use auto_perf.Runner.Start.{Started, started, Actions, check_scenario, start_existing, claim, start}
use auto_perf.Runner.Outcome.{ScenarioStep}
use auto_perf.Runner.Loop.{TestRunner}
use auto_perf.Runner.Rounds.{is_last}
use auto_perf.Campaigns.Execute.{Turn, runner_of, execute_run, executed_first, execute_runs}
use auto_perf.Campaigns.Executed.{execute_run-Closed}
use auto_perf.Campaigns.Sweep.{some-Closed}
use auto_perf.Tasks.Revived.{made, with_new, created_row, claimed, answered}

abbrev pub actions_of : TestRunner → List String
actions_of r = map (λ (step : ScenarioStep). step.action) r.scenario

-- A run that starts without a row makes one, which belongs to no campaign, and drives the device.
pub start-orphan :
    (adapter : Option Actions) (actions : List String) (now : ℕ) (serial run_id : String)
    (db : Storage)
    → IsValid db
    → check_scenario adapter actions ≡ none
    → get_run db run_id ≡ none
    → load (release_abandoned now db) serial ≡ 0
    → start adapter actions now serial run_id false db
      ≡ claim now run_id (with_new (made RunOrigin.unknown run_id serial none) db)
unfolding start start_existing
start-orphan adapter actions now serial run_id db v fits gone idle =
    rw (fits) (rw gone (rw (created_row RunOrigin.unknown run_id serial none db gone) refl))

orphan_started :
    (now : ℕ) (serial run_id : String) (db : Storage)
    → IsValid db
    → get_run db run_id ≡ none
    → load (release_abandoned now db) serial ≡ 0
    → (claim now run_id (with_new (made RunOrigin.unknown run_id serial none) db)).1 ≡ started
unfolding claim
orphan_started now serial run_id db v gone idle =
    answered (try_start_run now run_id (with_new (made RunOrigin.unknown run_id serial none) db))
      (claimed RunOrigin.unknown now run_id serial none db v gone idle)

-- A campaign that is executed and whose rows are gone at one of its turns: the executor does not stop.
-- Where nothing holds the device and the scenario fits the adapter, the turn's run, which was open at
-- the start, is started, which drives the device, and the executor goes on to the next run.
pub deleted_campaign_goes_on :
    (str : ℕ → String) (c : Campaign) (turns : ℕ → Turn) (i : ℕ) (row : Run) (rows : List Run)
    (db : Storage) (r : TestRunner)
    → is_terminal row.status ≡ false
    → (turns i).built ≡ some r
    → any (is_last (runner_of c row r)) (turns i).world.ticks ≡ true
    → check_scenario r.adapter (actions_of r) ≡ none
    → let here = (turns i).others db in
      IsValid here
      → get_campaign here c.id ≡ none
      → get_run here row.id ≡ none
      → load (release_abandoned (turns i).world.claimed_at here) c.device_serial ≡ 0
      → ((start r.adapter
            (actions_of r)
            (turns i).world.claimed_at
            c.device_serial
            row.id
            false
            here).1
          ≡ started)
        × (db' : Storage) × (execute_run str c row (turns i) here ≡ some db')
        × (execute_runs str c turns i (row ∷ rows) db
            ≡ executed_first row.id (execute_runs str c turns (suc i) rows db'))
unfolding execute_runs
deleted_campaign_goes_on str c turns i row rows db r is_one built ends fits v gone no_row idle =
    let here = (turns i).others db in
    let now = (turns i).world.claimed_at in
    let begun =
      start-orphan r.adapter (actions_of r) now c.device_serial row.id here v fits no_row idle in
    let (db', e) =
      some-Closed row.id (execute_run str c row (turns i) here)
        (execute_run-Closed str c row (turns i) here (rw built ends)) in
    (
      ap (λ (a : Storage × Started). a.1) begun
          ∙ orphan_started now c.device_serial row.id here v no_row idle,
      db',
      e,
      rw (execute_runs, gone) (rw is_one (rw e refl)),
    )
