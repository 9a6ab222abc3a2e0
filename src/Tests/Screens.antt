-- ===== src/Tests/Screens.antt =====
-- A screen with a button in a row, found by its id.
use auto_perf.Prelude.{
  ℕ, zero, suc, String, ◌≡◌, refl, true, false, not, ◌&&◌, ◌||◌, Option, none, some, List, [], ◌∷◌,
  is_none,
}
use auto_perf.Prelude.Count.{select, first}
use auto_perf.Prelude.Int.{pos}
use auto_perf.UiAuto.{
  Node, Selector, Target, find_node, resolve, resolve_from, matches, smallest, strategy_of,
}
use auto_perf.UiAuto.Found.{ResolveOutcome, resolve_exact}
use auto_perf.Adapters.Lookup.{Dump, waits, lookup, attempts, is_match, tap_element, step_result}
use auto_perf.Adapters.Retries.{Attempted, lookup_exact}
use auto_perf.Adapters.Trusted.{tap_step, tap_element_recorded}
use auto_perf.Adapters.Focus.{Key, tap_element_tv, walk, selected}
use auto_perf.Adapters.Reached.{Walked, tap_element_tv_exact}
use auto_perf.Runner.Quality.{Finished, is_trustworthy, has_dumped}

abbrev pub plain : String → String
plain s = s

abbrev row : Node
row = record {
  resource_id = "app:id/row";
  text = "";
  content_desc = "";
  class_name = "android.view.View";
  bounds = record { left = pos 0; top = pos 0; right = pos 100; bottom = pos 50 };
  clickable = false;
  focused = true;
  enabled = true;
  selected = false;
  checked = false;
}

abbrev pub button : Node
button = record row {
  resource_id = "app:id/search";
  bounds = record { left = pos 40; top = pos 10; right = pos 60; bottom = pos 30 };
  clickable = true;
  focused = false;
}

abbrev by_id : Selector
by_id = record {
  resource_id = some "search";
  text = none;
  content_desc = none;
  class_name = none;
  clickable = none;
  index = none;
  min_area = none;
  exact = false;
}

abbrev pub search_icon : Target
search_icon = record {
  selectors = by_id ∷ [];
  fallback = some (500, 55);
  name = "search_icon";
  coordinate_only = false;
}

abbrev screen : ℕ × ℕ
screen = (1080, 2340)

-- The app is ready at the second dump.
abbrev device : ℕ → Dump
device zero = record { nodes = row ∷ []; spent = 2_600_000; lag = 0 }
device (suc i) = record { nodes = row ∷ button ∷ []; spent = 2_600_000; lag = 0 }

finds_button : find_node plain (row ∷ button ∷ []) by_id ≡ some button
unfolding find_node select matches smallest
finds_button = refl

resolve_exact_example :
    ResolveOutcome plain 0
      (by_id ∷ [])
      (some (500, 55))
      (row ∷ [])
      screen
      (resolve plain search_icon (row ∷ []) screen)
resolve_exact_example = resolve_exact plain search_icon (row ∷ []) screen

found_by_id : is_match (lookup plain search_icon screen device waits).0 ≡ true
unfolding lookup attempts resolve resolve_from find_node select matches smallest strategy_of
found_by_id = refl

lookup_exact_example :
    Attempted plain search_icon screen device waits 0 2 0 0
      (lookup plain search_icon screen device waits)
lookup_exact_example = lookup_exact plain search_icon screen device waits 2 refl

tap_element_recorded_example :
    let found = (lookup plain search_icon screen device waits).0 in
    let finished : Finished = (
      tap_step 3 search_icon,
      step_result (tap_element plain search_icon screen device waits true),
    ) in
    (is_trustworthy finished ≡ (is_match found || (not (is_none found) && (false || true))))
    × (has_dumped finished ≡ (is_none found || not true))
tap_element_recorded_example =
    tap_element_recorded plain search_icon screen device waits 2 3 true refl

-- A television on which the focus goes from the row to the button.
abbrev television : ℕ → Option (List Node)
television zero = some (row ∷ button ∷ [])
television (suc i) = some (record row { focused = false } ∷ record button { focused = true } ∷ [])

two_keys :
    tap_element_tv plain search_icon screen television waits
    ≡ (Key.dpad_up ∷ Key.dpad_center ∷ [], selected "resource_id")
unfolding tap_element_tv walk first resolve resolve_from find_node select matches smallest
    strategy_of
two_keys = refl

tap_element_tv_exact_example :
    Walked plain search_icon screen television 12 0
      (tap_element_tv plain search_icon screen television waits)
tap_element_tv_exact_example = tap_element_tv_exact plain search_icon screen television waits
