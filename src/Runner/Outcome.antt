-- ===== src/Runner/Outcome.antt =====
-- src/autoperf/runner.py, `_record_step_outcome`: a finished scenario step, as events.
use auto_perf.Prelude.{
  ℕ, String, Bool, false, Option, none, some, List, [], ◌∷◌, ◌++◌, ◌==◌, ltb, if◌then◌else◌,
}
use auto_perf.Models.{Kind}
use auto_perf.Storage.Rows.{Event}

-- `step.kwargs["target"]`, as far as the runner reads it
pub record Target : Type 0 where
  pub name : String
  pub coordinate_only : Bool

-- adapters.py, class ScenarioStep; the time is in microseconds
pub record ScenarioStep : Type 0 where
  pub at : ℕ
  pub action : String
  pub target : Option Target
  pub app_package : Option String

-- the dict that an element action returns, or the cost that its error carries
pub record Report : Type 0 where
  pub strategy : Option String
  pub dumps : ℕ

-- `future.result()`: what the action returned, or the exception it raised
pub data StepResult : Type 0 where
  returned : Option Report → StepResult
  verification_error : ℕ → StepResult
  other_error : StepResult

abbrev event : ℕ → String → Kind → Event
event now run_id kind = record { run_id = run_id; timestamp = now; kind = kind }

-- `bool(getattr(target, "coordinate_only", False))`
abbrev pub is_expected : Option Target → Bool
is_expected none = false
is_expected (some t) = t.coordinate_only

-- `outcome.get("strategy") == "coordinates"`
abbrev pub fell_back : Option String → Bool
fell_back none = false
fell_back (some s) = s == "coordinates"

abbrev introspection : ℕ → String → ℕ → List Event
introspection now run_id dumps =
    if ltb 0 dumps then event now run_id Kind.ui_introspection ∷ [] else []

abbrev fallback : ℕ → String → ScenarioStep → Option String → List Event
fallback now run_id step strategy =
    if fell_back strategy
    then event now run_id Kind.selector_fallback
      ∷ (if is_expected step.target then [] else event now run_id Kind.selector_stale ∷ [])
    else []

unfoldable pub record_step_outcome : ℕ → String → ScenarioStep → StepResult → List Event
record_step_outcome now run_id step (verification_error dumps) =
    event now run_id Kind.verification_failed ∷ introspection now run_id dumps
record_step_outcome now run_id step other_error = event now run_id Kind.adapter_error ∷ []
record_step_outcome now run_id step (returned none) = event now run_id Kind.adapter_action ∷ []
record_step_outcome now run_id step (returned (some report)) =
    fallback now run_id step report.strategy
    ++ (introspection now run_id report.dumps ++ event now run_id Kind.adapter_action ∷ [])

-- the events of the steps that have finished, in their order
unfoldable pub record_outcomes : ℕ → String → List (ScenarioStep × StepResult) → List Event
record_outcomes now run_id [] = []
record_outcomes now run_id ((step, result) ∷ rest) =
    record_step_outcome now run_id step result ++ record_outcomes now run_id rest
