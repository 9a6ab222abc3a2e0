-- ===== src/Preflight/Grade.antt =====
-- src/autoperf/preflight.py: the grades, and how one target is graded. Of a check the detail and the
-- observed elements are left out: they are for display.
use auto_perf.Prelude.{
  ℕ, zero, suc, String, Bool, true, false, not, ◌&&◌, Option, none, some, List, [], ◌==◌, eqb,
  if◌then◌else◌, length,
}
use auto_perf.Prelude.Count.{any}
use auto_perf.UiAuto.{Node, Target, Resolution, resolve}
use auto_perf.Adapters.Lookup.{Verdict, failed}

-- MATCHED, FALLBACK, MISSING, ERROR, NOT_APPLICABLE, UNRELIABLE, BY_DESIGN
pub data Grade : Type 0 where
  matched fallback missing error not_applicable unreliable by_design : Grade

-- DEGRADED
abbrev pub is_degraded : Grade → Bool
is_degraded Grade.fallback = true
is_degraded Grade.missing = true
is_degraded Grade.error = true
is_degraded _ = false

pub record TargetCheck : Type 0 where
  pub scenario : String
  pub at : ℕ
  pub target : String
  pub status : Grade
  pub strategy : Option String
  pub selector_index : Option ℕ

pub record VerificationCheck : Type 0 where
  pub scenario : String
  pub at : ℕ
  pub action : String
  pub result : Verdict

pub record ScenarioReport : Type 0 where
  pub scenario : String
  pub targets : List TargetCheck
  pub verifications : List VerificationCheck

abbrev pub is_failed : Verdict → Bool
is_failed failed = true
is_failed _ = false

-- `ScenarioReport.ok`
unfoldable pub ok : ScenarioReport → Bool
ok r =
    not (any (λ c. is_degraded c.status) r.targets)
    && not (any (λ v. is_failed v.result) r.verifications)

-- one dump: its nodes, or what the exception says
pub data Screen : Type 0 where
  shown : List Node → Screen
  raised : String → Screen

abbrev pub same_size : Option ℕ → ℕ → Bool
same_size none n = false
same_size (some previous) n = eqb previous n

-- the nodes and the failure, which is "" where there is none
abbrev pub settled : Screen → Option ℕ → (List Node → List Node × String) → List Node × String
settled (raised why) previous rest = ([], why)
settled (shown nodes) previous rest =
    if same_size previous (length nodes) then (nodes, "") else rest nodes

-- the loop of `_settled_nodes`, with `left` dumps to go
unfoldable pub settle : (ℕ → Screen) → ℕ → ℕ → Option ℕ → List Node → List Node × String
settle screens zero i previous nodes = (nodes, "")
settle screens (suc left) i previous nodes =
    settled (screens i) previous (λ read. settle screens left (suc i) (some (length read)) read)

unfoldable pub settled_nodes : (ℕ → Screen) → List Node × String
unfolding settle
settled_nodes screens = settle screens 3 0 none []

-- what a target's step meets: the device's lock, its dumps, and whether the tap raises
pub record Visit : Type 0 where
  pub locked : Bool
  pub screens : ℕ → Screen
  pub tap_raises : Bool

abbrev pub graded : String → ℕ → Target → Grade → Option String → Option ℕ → TargetCheck
graded scenario at t status strategy selector_index = record {
  scenario = scenario;
  at = at;
  target = t.name;
  status = status;
  strategy = strategy;
  selector_index = selector_index;
}

-- the grade of a target that was reached by its coordinate
abbrev pub by_coordinates : Target → String → Grade
by_coordinates t dump_failed =
    if t.coordinate_only && dump_failed == "" then Grade.by_design else Grade.fallback

-- a tap was made, or it raised
abbrev pub grade_resolved : String → ℕ → Target → Bool → String → Option Resolution → TargetCheck
grade_resolved scenario at t tap_raises dump_failed none =
    graded scenario at t Grade.missing none none
grade_resolved scenario at t tap_raises dump_failed (some r) =
    if tap_raises
    then graded scenario at t Grade.error none none
    else if r.strategy == "coordinates"
    then graded scenario at t (by_coordinates t dump_failed) (some "coordinates") none
    else graded scenario at t Grade.matched (some r.strategy) r.selector_index

-- `_check_target`; `introspectable` is the profile's `ui_is_introspectable`, or true without one
unfoldable pub check_target :
    (String → String) → ℕ × ℕ → Bool → String → ℕ → Target → Visit → TargetCheck
unfolding settled_nodes
check_target lower screen introspectable scenario at t visit =
    let (nodes, dump_failed) = settled_nodes visit.screens in
    if introspectable
    then grade_resolved scenario at t visit.tap_raises dump_failed (resolve lower t nodes screen)
    else graded scenario at t Grade.not_applicable none none
