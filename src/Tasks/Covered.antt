-- ===== src/Tasks/Covered.antt =====
-- webapp/dashboard/tasks.py and src/autoperf/preflight.py: which scenarios a preflight's reports are of.
use mathlib.Core.Bool.{true≢false}
use auto_perf.Prelude.{
  sym, ℕ, suc, String, ◌≡◌, refl, ap, ◌⊎◌, inl, inr, Bool, true, false, Option, none, some, List,
  [], ◌∷◌, ◌++◌, map, Bool-cases, Option-cases,
}
use auto_perf.Prelude.Count.{first}
use auto_perf.Storage.Rows.{Preflight, Storage}
use auto_perf.Storage.Claims.{has_preflight_id, preflight_cancel_requested}
use auto_perf.Preflight.Grade.{ScenarioReport}
use auto_perf.Preflight.Walk.{Step, tap, verify, navigate, walk_steps, check_scenario}
use auto_perf.Preflight.Session.{Stage, Walked, walked, broke, first_report, walk_scenarios}
use auto_perf.Tasks.Checking.{get_preflight}

abbrev pub scenario_of : ScenarioReport → String
scenario_of r = r.scenario

-- The preflight's row is flagged as cancelled.
abbrev pub IsFlagged : Option Preflight → Type 0
IsFlagged none = ⊥
IsFlagged (some p) = p.cancel_requested ≡ true

cancelled-IsFlagged :
    (preflight_id : String) (db : Storage)
    → preflight_cancel_requested db preflight_id ≡ true
    → IsFlagged (get_preflight db preflight_id)
unfolding preflight_cancel_requested get_preflight
cancelled-IsFlagged preflight_id db h =
    elim (Option-cases (first (has_preflight_id preflight_id) db.preflight_reports)) [
      | inl gone ↦ absurd (true≢false (sym (rw (preflight_cancel_requested, gone) at h)))
      | inr (p, found) ↦ rw found (rw (preflight_cancel_requested, found) at h)
    ]

-- The reports are of the first of the scenarios, of all of them unless the database says that the
-- preflight was cancelled; or something raised.
abbrev pub WalkCovers : String → (ℕ → Stage) → List String → Storage × Walked → Type 0
WalkCovers preflight_id stages names (db, walked reports stopped) =
    (rest : List String) × (map scenario_of reports ++ rest ≡ names)
    × (((stopped ≡ true) × IsFlagged (get_preflight db preflight_id))
        ⊎ ((stopped ≡ false) × (rest ≡ [])))
WalkCovers preflight_id stages names (db, broke) = (i : ℕ) × ((stages i).raises ≡ true)

module _ (lower : String → String) (screen : ℕ × ℕ) (introspectable : Bool) where
  scenario_of-walk_steps :
      (name : String) (steps : List Step) (lost : Bool)
      → (walk_steps lower screen introspectable name lost steps).scenario ≡ name
  unfolding walk_steps
  scenario_of-walk_steps name [] lost = refl
  scenario_of-walk_steps name (tap at t visit ∷ steps) lost = scenario_of-walk_steps name steps _
  scenario_of-walk_steps name (verify at action verdict ∷ steps) lost =
      scenario_of-walk_steps name steps lost
  scenario_of-walk_steps name (navigate at ∷ steps) lost = scenario_of-walk_steps name steps lost

  first_report-Covers :
      (preflight_id : String) (stages : ℕ → Stage) (name : String) (names : List String)
      (steps : List Step) (w : Storage × Walked)
      → WalkCovers preflight_id stages names w
      → WalkCovers preflight_id stages
          (name ∷ names)
          (first_report (check_scenario lower screen introspectable name steps) w)
  unfolding check_scenario
  first_report-Covers preflight_id stages name names steps (db, broke) h = h
  first_report-Covers preflight_id stages name names steps (db, walked reports stopped)
        (rest, split, all_of) =
      (rest, rw (scenario_of-walk_steps name steps false) (ap (λ l. name ∷ l) split), all_of)

  pub walk_scenarios-Covers :
      (preflight_id : String) (stages : ℕ → Stage) (i : ℕ) (names : List String) (db : Storage)
      → WalkCovers preflight_id stages names
          (walk_scenarios lower screen introspectable preflight_id stages i names db)
  unfolding walk_scenarios
  walk_scenarios-Covers preflight_id stages i [] db = ([], refl, inr (refl, refl))
  walk_scenarios-Covers preflight_id stages i (name ∷ names) db =
      let here = (stages i).others db in
      elim (Bool-cases (preflight_cancel_requested here preflight_id)) [
        | inl stop ↦
            rw (walk_scenarios, stop)
              (name ∷ names, refl, inl (refl, cancelled-IsFlagged preflight_id here stop))
        | inr on ↦
            rw (walk_scenarios, on)
              (elim (Bool-cases (stages i).raises) [
                | inl fails ↦ rw fails (i, fails)
                | inr works ↦ rw works (
                    first_report-Covers preflight_id stages name names (stages i).steps
                      (walk_scenarios lower screen introspectable preflight_id stages (suc i) names
                        here)
                      (walk_scenarios-Covers preflight_id stages (suc i) names here))
              ])
      ]
