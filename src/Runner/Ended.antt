-- ===== src/Runner/Ended.antt =====
-- src/autoperf/runner.py, `run`: how a run ends, and what its row says then.
use mathlib.Core.Path.{subst}
use auto_perf.Prelude.{
  ℕ, String, ◌≡◌, refl, sym, ◌≢◌, ◌⊎◌, inl, inr, Bool, true, false, Option, none, some, List, map,
  Option-cases,
}
use auto_perf.Prelude.Count.{any, first-none-update}
use auto_perf.Models.{RunStatus}
use auto_perf.Storage.Rows.{Run, Storage}
use auto_perf.Storage.Runs.{has_id, get_run, update_run, stamp}
use auto_perf.Runner.Start.{Started, started, start}
use auto_perf.Runner.Resurrection.{get_run-update_run}
use auto_perf.Runner.Outcome.{ScenarioStep}
use auto_perf.Runner.Loop.{TestRunner, Tick, Outcome, going, raised, and_then}
use auto_perf.Runner.Ending.{
  Close, final_status, wind_down, conclude, begin, looped, after_loop, run_started,
}
use auto_perf.Runner.Rounds.{is_last, rounds-end}
use auto_perf.Runner.Run.{RunResult, refused, ended, World, result_of, begun, run}

-- A row that is gone was deleted by another process.
abbrev pub HasStatus : RunStatus → Option Run → Type 0
HasStatus status none = Unit
HasStatus status (some row) = row.status ≡ status

get_run-update_none :
    (now : ℕ) (run_id : String) (status : RunStatus) (checkpoint error : Option String)
    (db : Storage)
    → get_run db run_id ≡ none
    → get_run (update_run now run_id status checkpoint error db) run_id ≡ none
unfolding get_run update_run
get_run-update_none now run_id status checkpoint error db gone =
    first-none-update (has_id run_id) (has_id run_id) (stamp now status checkpoint error)
      (λ r. refl) db.test_runs gone

pub update_run-status :
    (now : ℕ) (run_id : String) (status : RunStatus) (checkpoint error : Option String)
    (db : Storage)
    → HasStatus status (get_run (update_run now run_id status checkpoint error db) run_id)
update_run-status now run_id status checkpoint error db = elim (Option-cases (get_run db run_id)) [
  | inl gone ↦ rw (get_run-update_none now run_id status checkpoint error db gone) tt
  | inr (row, found) ↦ rw (get_run-update_run now run_id status checkpoint error db found) refl
]

-- Of an end without an exception: interrupted if the run was stopped, else completed.
abbrev pub ConcludedAs : Bool → Option Run → Bool → Type 0
ConcludedAs stopped row true = HasStatus RunStatus.failed row
ConcludedAs stopped row false = HasStatus (final_status stopped) row

pub stopped_at : Outcome → Bool
stopped_at (going s) = s.stop
stopped_at (raised s) = s.stop

pub conclude-status :
    (r : TestRunner) (str : ℕ → String) (e : Close) (o : Outcome)
    → let (db, raises) = conclude r str e o in
      ConcludedAs (stopped_at o) (get_run db r.run_id) raises
unfolding conclude stopped_at
conclude-status r str e (going s) =
    update_run-status e.wall r.run_id (final_status s.stop) (some (str e.elapsed)) none
      (e.others s.db)
conclude-status r str e (raised s) =
    update_run-status e.wall r.run_id RunStatus.failed none (some "error") (e.others s.db)

-- What the row of a run says when `run` has come to its end.
abbrev pub Ended : Option Run → RunResult → Type 0
Ended row (refused answer) = answer ≢ started
Ended row (ended true) = HasStatus RunStatus.failed row
Ended row (ended false) = HasStatus RunStatus.completed row ⊎ HasStatus RunStatus.interrupted row

either_status :
    (stopped raises : Bool) (row : Option Run)
    → ConcludedAs stopped row raises
    → Ended row (ended raises)
either_status stopped true row h = h
either_status true false row h = inr h
either_status false false row h = inl h

pub looped_ends :
    (r : TestRunner) (str : ℕ → String) (ticks : List Tick) (o : Outcome)
    → any (is_last r) ticks ≡ true
    → (end : Outcome) × (looped r str ticks o ≡ some end)
looped_ends r str ticks (going s) h = rounds-end r str ticks s h
looped_ends r str ticks (raised s) h = (raised s, refl)

-- What is to be shown of a run: that it ends, and how.
abbrev pub Ends : String → Option (Storage × RunResult) → Type 0
Ends run_id none = ⊥
Ends run_id (some (db, result)) = Ended (get_run db run_id) result

pub run_started-Ends :
    (r : TestRunner) (str : ℕ → String) (w : World) (db : Storage)
    → any (is_last r) w.ticks ≡ true
    → Ends r.run_id (result_of (run_started r str w.schedule w.version w.wall w.ticks w.close db))
unfolding run_started
run_started-Ends r str w db h =
    let o = begin r w.schedule w.version w.wall db in
    let (end, e) = looped_ends r str w.ticks o h in
    let last = and_then end (wind_down r w.close) in
    subst (λ x. Ends r.run_id (result_of (after_loop r str w.close x))) (sym e)
      (either_status (stopped_at last) (conclude r str w.close last).1 _
        (conclude-status r str w.close last))

begun-Ends :
    (r : TestRunner) (str : ℕ → String) (w : World) (db : Storage) (answer : Started)
    → any (is_last r) w.ticks ≡ true
    → Ends r.run_id (begun r str w (db, answer))
begun-Ends r str w db Started.started h = run_started-Ends r str w db h
begun-Ends r str w db Started.returned h = λ e. cc
begun-Ends r str w db Started.no_adapter h = λ e. cc
begun-Ends r str w db Started.no_action h = λ e. cc
begun-Ends r str w db Started.other_device h = λ e. cc
begun-Ends r str w db Started.device_busy h = λ e. cc
begun-Ends r str w db Started.integrity_error h = λ e. cc

-- A run among whose rounds one comes with Ctrl+C or after the run's duration comes to its end. If
-- it drove the device, its row does not stay running: it says failed if `run` raises, and else
-- completed or interrupted, unless another process deleted the row.
pub run-Ends :
    (r : TestRunner) (str : ℕ → String) (serial : String) (require_existing : Bool) (w : World)
    (db : Storage)
    → any (is_last r) w.ticks ≡ true
    → Ends r.run_id (run r str serial require_existing w db)
unfolding run
run-Ends r str serial require_existing w db h =
    let (db', answer) =
      start r.adapter (map (λ (step : ScenarioStep). step.action) r.scenario) w.claimed_at serial
        r.run_id require_existing db in
    begun-Ends r str w db' answer h
