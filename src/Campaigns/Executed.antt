-- ===== src/Campaigns/Executed.antt =====
-- src/autoperf/campaigns.py, `execute_campaign`: which runs are executed, and what is left of them.
use auto_perf.Prelude.{
  ℕ, String, ◌≡◌, refl, ap, ◌∙◌, inl, inr, Bool, true, false, Option, none, some, List, [], ◌∷◌,
  map, Bool-cases, ◌==◌,
}
use auto_perf.Prelude.Count.{all, any}
use auto_perf.Models.{RunStatus, is_terminal}
use auto_perf.Storage.Rows.{Run, Campaign, Storage}
use auto_perf.Storage.Runs.{get_run}
use auto_perf.Storage.Baselines.{set_baseline}
use auto_perf.Runner.Start.{
  Started, Actions, check_scenario, start_existing, created, claim, answer, start,
}
use auto_perf.Storage.Claims.{try_start_run}
use auto_perf.Runner.Outcome.{ScenarioStep}
use auto_perf.Runner.Loop.{TestRunner}
use auto_perf.Runner.Rounds.{is_last}
use auto_perf.Runner.Run.{World, begun, result_of, run}
use auto_perf.Runner.Ending.{run_started}
use auto_perf.Runner.Ended.{HasStatus, Ends, update_run-status, run_started-Ends}
use auto_perf.Tasks.{seeds, seed_baseline}
use auto_perf.Campaigns.Execute.{Turn, failed_run, caught, runner_of, try_run, seeded, execute_run}

-- A run's row is in a terminal status, or another process deleted it.
abbrev pub IsClosed : Option Run → Type 0
IsClosed none = Unit
IsClosed (some row) = is_terminal row.status ≡ true

abbrev pub Closed : String → Option Storage → Type 0
Closed run_id none = ⊥
Closed run_id (some db) = IsClosed (get_run db run_id)

-- The clock of a turn comes to the end of its run.
abbrev pub RunEnds : Campaign → Run → World → Option TestRunner → Type 0
RunEnds c row w none = Unit
RunEnds c row w (some r) = any (is_last (runner_of c row r)) w.ticks ≡ true

IsClosed-status :
    (status : RunStatus) (row : Option Run)
    → is_terminal status ≡ true
    → HasStatus status row
    → IsClosed row
IsClosed-status status none t h = tt
IsClosed-status status (some row) t h = ap is_terminal h ∙ t

failed-IsClosed :
    (now : ℕ) (run_id : String) (db : Storage)
    → IsClosed (get_run (failed_run now run_id db) run_id)
failed-IsClosed now run_id db =
    IsClosed-status RunStatus.failed _ refl
      (update_run-status now run_id RunStatus.failed none (some "error") db)

-- The early return of a run that was to be started afresh.
abbrev ReturnedClosed : String → Storage × Started → Type 0
ReturnedClosed run_id (db, Started.returned) = IsClosed (get_run db run_id)
ReturnedClosed run_id (db, _) = Unit

answered : (run_id : String) (t : Storage × Bool) → ReturnedClosed run_id (answer t)
answered run_id (db, true) = tt
answered run_id (db, false) = tt

claim-returned :
    (now : ℕ) (run_id : String) (db : Storage) → ReturnedClosed run_id (claim now run_id db)
unfolding claim
claim-returned now run_id db = answered run_id (try_start_run now run_id db)

created-returned :
    (now : ℕ) (run_id : String) (made : Option Storage) (db : Storage)
    → ReturnedClosed run_id (created now run_id made db)
created-returned now run_id none db = tt
created-returned now run_id (some made) db = claim-returned now run_id made

start_existing-returned :
    (now : ℕ) (serial run_id : String) (existing : Option Run) (db : Storage)
    → ReturnedClosed run_id (start_existing now serial run_id false existing db)
unfolding start_existing
start_existing-returned now serial run_id none db = created-returned now run_id _ db
start_existing-returned now serial run_id (some existing) db =
    elim (Bool-cases (existing.device_serial == serial)) [
      | inr other ↦ rw other tt
      | inl same ↦ rw same (elim (Bool-cases existing.cancel_requested) [
        | inl flagged ↦ rw flagged (
            IsClosed-status RunStatus.interrupted _ refl (
              update_run-status now run_id RunStatus.interrupted none
                (some "cancelled before starting") db))
        | inr free ↦ rw free (claim-returned now run_id db)
      ])
    ]

start-returned :
    (adapter : Option Actions) (actions : List String) (now : ℕ) (serial run_id : String)
    (db : Storage)
    → ReturnedClosed run_id (start adapter actions now serial run_id false db)
unfolding start check_scenario
start-returned adapter [] now serial run_id db =
    start_existing-returned now serial run_id (get_run db run_id) db
start-returned none (a ∷ more) now serial run_id db = tt
start-returned (some has_action) (a ∷ more) now serial run_id db =
    elim (Bool-cases (all has_action (a ∷ more))) [
      | inl able ↦ rw able (start_existing-returned now serial run_id (get_run db run_id) db)
      | inr unable ↦ rw unable tt
    ]

ended-Closed :
    (now : ℕ) (run_id : String) (result : Option (Storage × Bool))
    → Ends run_id (result_of result)
    → Closed run_id (caught now run_id (result_of result))
ended-Closed now run_id none h = h
ended-Closed now run_id (some (db, true)) h = failed-IsClosed now run_id db
ended-Closed now run_id (some (db, false)) (inl done) =
    IsClosed-status RunStatus.completed _ refl done
ended-Closed now run_id (some (db, false)) (inr stopped) =
    IsClosed-status RunStatus.interrupted _ refl stopped

-- A run that was begun, or was refused.
begun-Closed :
    (r : TestRunner) (str : ℕ → String) (w : World) (now : ℕ) (db : Storage) (answer : Started)
    → any (is_last r) w.ticks ≡ true
    → ReturnedClosed r.run_id (db, answer)
    → Closed r.run_id (caught now r.run_id (begun r str w (db, answer)))
begun-Closed r str w now db Started.started h back =
    ended-Closed now r.run_id (run_started r str w.schedule w.version w.wall w.ticks w.close db)
      (run_started-Ends r str w db h)
begun-Closed r str w now db Started.returned h back = back
begun-Closed r str w now db _ h back = failed-IsClosed now r.run_id db

run-Closed :
    (r : TestRunner) (str : ℕ → String) (serial : String) (w : World) (now : ℕ) (db : Storage)
    → any (is_last r) w.ticks ≡ true
    → Closed r.run_id (caught now r.run_id (run r str serial false w db))
unfolding run
run-Closed r str serial w now db h =
    let actions = map (λ (step : ScenarioStep). step.action) r.scenario in
    let begin = start r.adapter actions w.claimed_at serial r.run_id false db in
    begun-Closed r str w now begin.0 begin.1 h
      (start-returned r.adapter actions w.claimed_at serial r.run_id db)

try_run-Closed :
    (str : ℕ → String) (c : Campaign) (row : Run) (t : Turn) (built : Option TestRunner)
    (db : Storage)
    → RunEnds c row t.world built
    → Closed row.id (try_run str c row t built db)
try_run-Closed str c row t none db h = failed-IsClosed t.now row.id db
try_run-Closed str c row t (some r) db h =
    run-Closed (runner_of c row r) str c.device_serial t.world t.now db h

seed_baseline-runs :
    (now : ℕ) (serial run_id : String) (scenario : Option String) (db : Storage)
    → (seed_baseline now serial run_id scenario db).test_runs ≡ db.test_runs
unfolding seed_baseline set_baseline
seed_baseline-runs now serial run_id scenario db =
    elim (Bool-cases (seeds serial scenario db (get_run db run_id))) [
      | inl first_one ↦ rw first_one refl
      | inr other ↦ rw other refl
    ]

seeded-Closed :
    (now : ℕ) (serial : String) (row : Run) (tried : Option Storage)
    → Closed row.id tried
    → Closed row.id (seeded now serial row tried)
unfolding get_run
seeded-Closed now serial row none h = h
seeded-Closed now serial row (some db) h =
    rw (seed_baseline-runs now serial row.id row.youtube_scenario db) h

-- Whatever becomes of a run of a campaign that is executed (it completes, it is stopped, it was
-- cancelled before, its device is busy, its scenario cannot be built, or it raises), its turn comes to an
-- end when the clock comes to the end of the run, and its row is in a terminal status then,
-- unless another process deleted it.
pub execute_run-Closed :
    (str : ℕ → String) (c : Campaign) (row : Run) (t : Turn) (db : Storage)
    → RunEnds c row t.world t.built
    → Closed row.id (execute_run str c row t db)
unfolding execute_run
execute_run-Closed str c row t db h =
    seeded-Closed t.now c.device_serial row (try_run str c row t t.built db)
      (try_run-Closed str c row t t.built db h)
