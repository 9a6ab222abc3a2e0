-- ===== src/Tests/Grades.antt =====
-- A scenario with two taps, of which the first finds nothing.
use auto_perf.Prelude.Count.{any, count, select}
use auto_perf.Scenarios.{sorted, insert}
use auto_perf.Preflight.Cover.{is_in, has, covering_scenarios, all_targets, cover, union, best_from}
use auto_perf.Preflight.Covered.{covering_scenarios_complete}
use auto_perf.Prelude.{
  ◌==◌, if◌then◌else◌, String, List, ◌≡◌, refl, true, false, none, some, [], ◌∷◌, map,
}
use auto_perf.UiAuto.{Target, resolve, resolve_from}
use auto_perf.Preflight.Grade.{Grade, Visit, shown, settled_nodes, settle, check_target}
use auto_perf.Preflight.Walk.{Step, tap, navigate, check_scenario, walk_steps}
use auto_perf.Preflight.Trail.{Trail, taps_of, check_scenario-Trail}

abbrev plain : String → String
plain s = s

abbrev gone : Target
gone = record { selectors = []; fallback = none; name = "gone"; coordinate_only = false }

abbrev drawn : Target
drawn = record {
  selectors = [];
  fallback = some (500, 500);
  name = "drawn";
  coordinate_only = true;
}

abbrev empty_screen : Visit
empty_screen = record { locked = false; screens = λ i. shown []; tap_raises = false }

abbrev two_taps : List Step
two_taps = navigate 0 ∷ tap 3 gone empty_screen ∷ tap 5 drawn empty_screen ∷ []

missing_then_unreliable :
    map (λ c. c.status) (check_scenario plain (1080, 2340) true "demo" two_taps).targets
    ≡ Grade.missing ∷ Grade.unreliable ∷ []
unfolding check_scenario walk_steps check_target settled_nodes settle resolve resolve_from
missing_then_unreliable = refl

by_design_alone :
    map
      (λ c. c.status)
      (check_scenario plain (1080, 2340) true "demo" (tap 5 drawn empty_screen ∷ [])).targets
    ≡ Grade.by_design ∷ []
unfolding check_scenario walk_steps check_target settled_nodes settle resolve resolve_from
by_design_alone = refl

check_scenario-Trail_example :
    Trail (taps_of two_taps) (check_scenario plain (1080, 2340) true "demo" two_taps).targets
check_scenario-Trail_example = check_scenario-Trail plain (1080, 2340) true "demo" two_taps

-- Two scenarios that use every target between them, and one that uses more than either.
abbrev uses : String → List String
uses name =
    if name == "odd"
    then "1" ∷ "3" ∷ "5" ∷ []
    else if name == "even"
    then "2" ∷ "4" ∷ "6" ∷ []
    else if name == "wide"
    then "1" ∷ "2" ∷ "3" ∷ "4" ∷ []
    else []

abbrev presets : List String
presets = "odd" ∷ "wide" ∷ "deep_link" ∷ "even" ∷ []

-- The greedy choice takes three where two would do.
greedy_takes_three : covering_scenarios uses presets ≡ "wide" ∷ "even" ∷ "odd" ∷ []
unfolding covering_scenarios all_targets cover union best_from sorted insert count any select
greedy_takes_three = refl

is_preset : is_in "odd" presets ≡ true
unfolding any
is_preset = refl

uses_five : has uses "odd" "5" ≡ true
unfolding any
uses_five = refl

covering_scenarios_complete_example :
    any (λ n. has uses n "5") (covering_scenarios uses presets) ≡ true
covering_scenarios_complete_example =
    covering_scenarios_complete uses presets "odd" "5" is_preset uses_five
