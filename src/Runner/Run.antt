-- ===== src/Runner/Run.antt =====
-- src/autoperf/runner.py: the whole of TestRunner.run.
use auto_perf.Prelude.{ℕ, String, Bool, Option, none, some, List, map}
use auto_perf.Storage.Rows.{Storage}
use auto_perf.Runner.Start.{Started, started, start}
use auto_perf.Runner.Outcome.{ScenarioStep}
use auto_perf.Runner.Loop.{TestRunner, Tick}
use auto_perf.Runner.Ending.{AppVersion, Close, run_started}

-- `refused`: nothing was driven, and the answer says why. `ended`: the device was driven, and `run`
-- raises an exception or not.
pub data RunResult : Type 0 where
  refused : Started → RunResult
  ended : Bool → RunResult

-- What a run reads of the world.
pub record World : Type 0 where
  pub claimed_at : ℕ
  pub schedule : List (List Bool)
  pub version : AppVersion
  pub wall : ℕ
  pub ticks : List Tick
  pub close : Close

abbrev pub result_of : Option (Storage × Bool) → Option (Storage × RunResult)
result_of none = none
result_of (some (db, raises)) = some (db, ended raises)

abbrev pub begun :
    TestRunner → (ℕ → String) → World → Storage × Started → Option (Storage × RunResult)
begun r str w (db, answer) = elim answer [
  | started ↦ result_of (run_started r str w.schedule w.version w.wall w.ticks w.close db)
  | refusal ↦ some (db, refused refusal)
]

-- `none` while the run goes on
unfoldable pub run :
    TestRunner → (ℕ → String) → String → Bool → World → Storage → Option (Storage × RunResult)
run r str serial require_existing w db = begun r str w (
    start r.adapter (map (λ (step : ScenarioStep). step.action) r.scenario) w.claimed_at serial
      r.run_id require_existing db)
