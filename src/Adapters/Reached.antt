-- ===== src/Adapters/Reached.antt =====
-- src/autoperf/adapters.py, AndroidTvAdapter: select is pressed on the target or not at all.
use mathlib.Core.Path.{subst}
use auto_perf.Prelude.{
  ℕ, zero, suc, ◌+◌, ◌≤◌, String, ◌≡◌, refl, sym, ap, Bool, true, false, Option, none, some, List,
  [], ◌∷◌, length, arith, Bool-cases, Option-cases, ◌⊎◌, inl, inr,
}
use auto_perf.Prelude.Count.{one, count, first}
use auto_perf.Prelude.Int.{ℤ, ◌-ℤ◌}
use auto_perf.UiAuto.{Node, Target, same_bounds, resolve, center}
use auto_perf.Adapters.Lookup.{Waits}
use auto_perf.Adapters.Focus.{
  Key, Pressed, dump_error, selected, toward, step_toward, target_node, strategy_found, turn, walk,
  tap_element_tv,
}

abbrev pub is_center : Key → Bool
is_center Key.dpad_center = true
is_center _ = false

abbrev pub is_selected : Pressed → Bool
is_selected (selected s) = true
is_selected _ = false

toward-center : (dx dy : ℤ) → is_center (toward dx dy) ≡ false
toward-center dx dy = ground arith

step_toward-center : (a b : ℤ × ℤ) → is_center (step_toward a b) ≡ false
step_toward-center (x1, y1) (x2, y2) = toward-center (x2 -ℤ x1) (y2 -ℤ y1)

module _ (lower : String → String) (t : Target) (screen : ℕ × ℕ)
    (device : ℕ → Option (List Node)) where
  -- On the screen of the `i`-th dump, the focus is on the target.
  abbrev pub OnTarget : ℕ → Type 0
  OnTarget i =
      (nodes : List Node) × (focused : Node) × (target : Node) × (device i ≡ some nodes)
      × (first (λ n. n.focused) nodes ≡ some focused)
      × (target_node (resolve lower t nodes screen) ≡ some target)
      × (same_bounds focused.bounds target.bounds ≡ true)

  -- What at most `left` turns lead to, from the `i`-th dump on.
  abbrev pub Walked : ℕ → ℕ → List Key × Pressed → Type 0
  Walked left i (keys, result) =
      (length keys ≤ left)
      × (count is_center keys ≡ one (is_selected result))
      × ((is_selected result ≡ false) ⊎ ((j : ℕ) × (length keys ≡ suc j) × OnTarget (i + j)))

  Walked-press :
      (left i : ℕ) (key : Key) (rest : List Key × Pressed)
      → is_center key ≡ false
      → Walked left (suc i) rest
      → Walked (suc left) i (key ∷ rest.0, rest.1)
  unfolding count
  Walked-press left i key (keys, result) other (short, presses, landed) = (
    omega (arith, short),
    ground (arith, other, presses),
    elim landed [
      | inl nowhere ↦ inl nowhere
      | inr (j, long, there) ↦
          let here : suc i + j ≡ i + suc j = omega arith in
          inr (suc j, ap suc long, subst OnTarget here there)
    ],
  )

  Walked-turn :
      (left i : ℕ) (nodes : List Node) (rest : List Key × Pressed) (target focused : Option Node)
      (strategy : String)
      → device i ≡ some nodes
      → first (λ n. n.focused) nodes ≡ focused
      → target_node (resolve lower t nodes screen) ≡ target
      → Walked left (suc i) rest
      → Walked (suc left) i (turn target focused strategy rest)
  unfolding count
  Walked-turn left i nodes rest none focused strategy dump front sought later =
      (omega arith, refl, inl refl)
  Walked-turn left i nodes (keys, result) (some target) none strategy dump front sought
        (short, presses, landed) =
      Walked-press left i Key.dpad_down (keys, result) refl (short, presses, landed)
  Walked-turn left i nodes (keys, result) (some target) (some focused) strategy dump front sought
        (short, presses, landed) =
      elim (Bool-cases (same_bounds focused.bounds target.bounds)) [
        | inl there ↦
            let here : i ≡ i + 0 = omega arith in
            let step : turn (some target) (some focused) strategy (keys, result)
                ≡ (Key.dpad_center ∷ [], selected strategy) =
              rw there refl in
            subst (Walked (suc left) i) (sym step) (
              omega arith,
              refl,
              inr (
                0,
                refl,
                subst OnTarget here (nodes, focused, target, dump, front, sought, there),
              ),
            )
        | inr away ↦
            let key = step_toward (center focused) (center target) in
            let step : turn (some target) (some focused) strategy (keys, result)
                ≡ (key ∷ keys, result) =
              rw away refl in
            subst (Walked (suc left) i) (sym step) (
              Walked-press left i key (keys, result)
                (step_toward-center (center focused) (center target)) (short, presses, landed))
      ]

  Walked-walk : (left i : ℕ) → Walked left i (walk lower t screen device left i)
  unfolding walk count
  Walked-walk zero i = (omega arith, refl, inl refl)
  Walked-walk (suc left) i =
      let rest = walk lower t screen device left (suc i) in
      elim (Option-cases (device i)) [
        | inl broken ↦
            let step : walk lower t screen device (suc left) i ≡ ([], dump_error) =
              rw (walk, broken) refl in
            subst (Walked (suc left) i) (sym step) (omega arith, refl, inl refl)
        | inr (nodes, dump) ↦
            let found = resolve lower t nodes screen in
            let front = first (λ n. n.focused) nodes in
            let step : walk lower t screen device (suc left) i
                ≡ turn (target_node found) front (strategy_found found) rest =
              rw (walk, dump) refl in
            subst (Walked (suc left) i) (sym step) (
              Walked-turn left i nodes rest (target_node found) front (strategy_found found) dump
                refl refl (Walked-walk left (suc i)))
      ]

-- Whatever the screens show, a television is sent at most as many keys as there are steps, and select
-- is among them exactly once if the tap succeeds, and never otherwise; when it succeeds, the focus
-- was on the target on the screen that was read just before the last key.
pub tap_element_tv_exact :
    (lower : String → String) (t : Target) (screen : ℕ × ℕ) (device : ℕ → Option (List Node))
    (w : Waits)
    → Walked lower t screen device w.max_focus_steps 0 (tap_element_tv lower t screen device w)
unfolding tap_element_tv
tap_element_tv_exact lower t screen device w = Walked-walk lower t screen device w.max_focus_steps 0
