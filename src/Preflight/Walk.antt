-- ===== src/Preflight/Walk.antt =====
-- src/autoperf/preflight.py, `check_scenario`: a scenario's steps, each with what the device makes of
-- it. The steps are in the order of their times, as `sorted` puts them.
use auto_perf.Prelude.{ℕ, String, Bool, true, false, ◌||◌, none, List, [], ◌∷◌, if◌then◌else◌}
use auto_perf.UiAuto.{Target}
use auto_perf.Adapters.Lookup.{Verdict}
use auto_perf.Preflight.Grade.{
  Grade, TargetCheck, VerificationCheck, ScenarioReport, Visit, graded, check_target,
}

-- a `tap_element`, an assertion with its verdict, or a step that is performed and not graded
pub data Step : Type 0 where
  tap : ℕ → Target → Visit → Step
  verify : ℕ → String → Verdict → Step
  navigate : ℕ → Step

-- `lost_the_screen` after a grade: FALLBACK and BY_DESIGN tapped blind, MISSING and ERROR not at all
abbrev pub loses : Grade → Bool
loses Grade.fallback = true
loses Grade.by_design = true
loses Grade.missing = true
loses Grade.error = true
loses _ = false

module _ (lower : String → String) (screen : ℕ × ℕ) (introspectable : Bool)
    (scenario : String) where
  -- one target, where the screen is lost already or the device is locked now, or not
  abbrev pub visit_target : Bool → ℕ → Target → Visit → TargetCheck
  visit_target lost at t visit =
      if lost || visit.locked
      then graded scenario at t Grade.unreliable none none
      else check_target lower screen introspectable scenario at t visit

  abbrev pub add_target : TargetCheck → ScenarioReport → ScenarioReport
  add_target c r = record r { targets = c ∷ r.targets }

  abbrev pub add_verification : VerificationCheck → ScenarioReport → ScenarioReport
  add_verification v r = record r { verifications = v ∷ r.verifications }

  -- the loop, from a step on
  unfoldable pub walk_steps : Bool → List Step → ScenarioReport
  walk_steps lost [] = record { scenario = scenario; targets = []; verifications = [] }
  walk_steps lost (tap at t visit ∷ steps) =
      let check = visit_target lost at t visit in
      add_target check (walk_steps (lost || visit.locked || loses check.status) steps)
  walk_steps lost (verify at action verdict ∷ steps) =
      add_verification (record { scenario = scenario; at = at; action = action; result = verdict })
        (walk_steps lost steps)
  walk_steps lost (navigate at ∷ steps) = walk_steps lost steps

  -- `check_scenario`
  unfoldable pub check_scenario : List Step → ScenarioReport
  unfolding walk_steps
  check_scenario steps = walk_steps false steps
