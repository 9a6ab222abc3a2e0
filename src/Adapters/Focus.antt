-- ===== src/Adapters/Focus.antt =====
-- src/autoperf/adapters.py, AndroidTvAdapter: a remote control moves the focus and presses select.
use auto_perf.Prelude.{ℕ, zero, suc, String, Option, none, some, List, [], ◌∷◌, leb, if◌then◌else◌}
use auto_perf.Prelude.Count.{first}
use auto_perf.Prelude.Int.{ℤ, ◌-ℤ◌, abs, is_positive}
use auto_perf.UiAuto.{Node, Target, Resolution, center, same_bounds, resolve}
use auto_perf.Adapters.Lookup.{Waits}

pub data Key : Type 0 where
  dpad_up dpad_down dpad_left dpad_right dpad_center : Key

-- `_step_toward`, from the gaps
abbrev pub toward : ℤ → ℤ → Key
toward dx dy =
    if leb (abs dx) (abs dy)
    then (if is_positive dy then Key.dpad_down else Key.dpad_up)
    else if is_positive dx
    then Key.dpad_right
    else Key.dpad_left

abbrev pub step_toward : ℤ × ℤ → ℤ × ℤ → Key
step_toward (x1, y1) (x2, y2) = toward (x2 -ℤ x1) (y2 -ℤ y1)

-- the element is not there, the steps are used up, a dump failed, or the element was selected
pub data Pressed : Type 0 where
  not_on_screen not_reached dump_error : Pressed
  selected : String → Pressed

abbrev pub target_node : Option Resolution → Option Node
target_node none = none
target_node (some r) = r.node

abbrev pub strategy_found : Option Resolution → String
strategy_found none = ""
strategy_found (some r) = r.strategy

abbrev press : Key → List Key × Pressed → List Key × Pressed
press key (keys, result) = (key ∷ keys, result)

-- one turn of the loop: the node that is sought, and the node that has the focus
abbrev pub turn : Option Node → Option Node → String → List Key × Pressed → List Key × Pressed
turn none focused strategy rest = ([], not_on_screen)
turn (some target) none strategy rest = press Key.dpad_down rest
turn (some target) (some focused) strategy rest =
    if same_bounds focused.bounds target.bounds
    then (Key.dpad_center ∷ [], selected strategy)
    else press (step_toward (center focused) (center target)) rest

module _ (lower : String → String) (t : Target) (screen : ℕ × ℕ) where
  -- what a dump that did not fail leads to
  abbrev pub turn_on : Option (List Node) → List Key × Pressed → List Key × Pressed
  turn_on none rest = ([], dump_error)
  turn_on (some nodes) rest =
      let found = resolve lower t nodes screen in
      turn (target_node found) (first (λ n. n.focused) nodes) (strategy_found found) rest

  -- the keys that are pressed, with `left` turns to go
  unfoldable pub walk : (ℕ → Option (List Node)) → ℕ → ℕ → List Key × Pressed
  walk device zero i = ([], not_reached)
  walk device (suc left) i = turn_on (device i) (walk device left (suc i))

-- `tap_element`, on a television
unfoldable pub tap_element_tv :
    (String → String) → Target → ℕ × ℕ → (ℕ → Option (List Node)) → Waits → List Key × Pressed
unfolding walk
tap_element_tv lower t screen device w = walk lower t screen device w.max_focus_steps 0
