-- ===== src/Preflight/Session.antt =====
-- src/autoperf/preflight.py, `run_preflight`: the loop over the scenarios. What each scenario meets on
-- the device is an argument.
use auto_perf.Prelude.{ℕ, suc, String, Bool, true, false, List, [], ◌∷◌, if◌then◌else◌}
use auto_perf.Storage.Rows.{Storage}
use auto_perf.Storage.Claims.{preflight_cancel_requested}
use auto_perf.Preflight.Grade.{ScenarioReport}
use auto_perf.Preflight.Walk.{Step, check_scenario}

-- One turn of the loop: what other processes did to the database before it, what the scenario's steps
-- meet, and whether something raises (a preset that is not known, a device that is gone).
pub record Stage : Type 0 where
  pub others : Storage → Storage
  pub steps : List Step
  pub raises : Bool

-- the reports with `stopped_early`, or an exception
pub data Walked : Type 0 where
  walked : List ScenarioReport → Bool → Walked
  broke : Walked

abbrev pub first_report : ScenarioReport → Storage × Walked → Storage × Walked
first_report r (db, broke) = (db, broke)
first_report r (db, walked rs stopped) = (db, walked (r ∷ rs) stopped)

module _ (lower : String → String) (screen : ℕ × ℕ) (introspectable : Bool) where
  -- `should_stop` asks the database before each scenario
  unfoldable pub walk_scenarios :
      String → (ℕ → Stage) → ℕ → List String → Storage → Storage × Walked
  walk_scenarios preflight_id stages i [] db = (db, walked [] false)
  walk_scenarios preflight_id stages i (name ∷ names) db =
      let here = (stages i).others db in
      let rest = walk_scenarios preflight_id stages (suc i) names here in
      if preflight_cancel_requested here preflight_id
      then (here, walked [] true)
      else if (stages i).raises
      then (here, broke)
      else first_report (check_scenario lower screen introspectable name (stages i).steps) rest
