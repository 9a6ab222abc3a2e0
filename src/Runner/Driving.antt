-- ===== src/Runner/Driving.antt =====
-- src/autoperf/runner.py, `run`: which scenario steps are submitted in a round.
use auto_perf.Prelude.{ℕ, ◌+◌, Bool, List, [], ◌∷◌, ◌++◌, eqb, leb, if◌then◌else◌}
use auto_perf.Prelude.Count.{any, delete_where}
use auto_perf.Runner.Outcome.{ScenarioStep}

-- `sorted(self.scenario or [], key=lambda step: step.at)`, which is stable
unfoldable pub insert_step : ScenarioStep → List ScenarioStep → List ScenarioStep
insert_step step [] = step ∷ []
insert_step step (other ∷ rest) =
    let later = other ∷ insert_step step rest in
    if leb step.at other.at then step ∷ (other ∷ rest) else later

unfoldable pub sort_steps : List ScenarioStep → List ScenarioStep
unfolding insert_step
sort_steps [] = []
sort_steps (step ∷ rest) = insert_step step (sort_steps rest)

-- an entry of `scenario_active`: the step's index, the time it was submitted at, and the step
abbrev pub ActiveStep : Type 0
ActiveStep = ℕ × ℕ × ScenarioStep

-- `scenario_active`, `scenario_timed_out` and `next_step`; `waiting` are the sorted steps from
-- `next_step` on. `driven` lists the calls of `executor.submit` for steps, each with the time since
-- the run started, in their order.
pub record Driving : Type 0 where
  pub active : List ActiveStep
  pub timed_out : List ℕ
  pub next_step : ℕ
  pub waiting : List ScenarioStep
  pub driven : List (ScenarioStep × ℕ)

abbrev pub submitted_step : ℕ → ℕ → ScenarioStep → List ScenarioStep → Driving → Driving
submitted_step now elapsed step rest d = record d {
  active = d.active ++ (d.next_step, now, step) ∷ [];
  next_step = d.next_step + 1;
  waiting = rest;
  driven = d.driven ++ (step, elapsed) ∷ [];
}

-- the `while` loop over the steps that are due; the list is `waiting`
unfoldable pub submit_from : ℕ → ℕ → List ScenarioStep → Driving → Driving
submit_from now elapsed [] d = d
submit_from now elapsed (step ∷ rest) d =
    let next = submit_from now elapsed rest (submitted_step now elapsed step rest d) in
    if leb step.at elapsed then next else d

unfoldable pub submit_steps : ℕ → ℕ → Driving → Driving
unfolding submit_from
submit_steps now elapsed d = submit_from now elapsed d.waiting d

abbrev pub is_index : ℕ → ActiveStep → Bool
is_index i entry = eqb entry.0 i

abbrev pub step_timed_out : ℕ → Driving → Bool
step_timed_out i d = any (λ j. eqb j i) d.timed_out

-- `del scenario_active[idx]`, and `scenario_timed_out.remove(idx)` where it is there
unfoldable pub settle_step : ℕ → Driving → Driving
settle_step i d = record d {
  active = delete_where (is_index i) d.active;
  timed_out = delete_where (λ j. eqb j i) d.timed_out;
}
