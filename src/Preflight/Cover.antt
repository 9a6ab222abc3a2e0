-- ===== src/Preflight/Cover.antt =====
-- src/autoperf/preflight.py, `covering_scenarios`: scenarios that use every target, chosen greedily.
-- `targets` is `targets_of`, which reads the scenarios' steps. A set is a list, here without
-- repetitions, and `max` and `sorted` make the choice independent of its order.
use auto_perf.Prelude.{
  ℕ, zero, suc, String, Bool, true, false, not, none, List, [], ◌∷◌, ◌==◌, ltb, eqb, length,
  if◌then◌else◌,
}
use auto_perf.Prelude.Count.{count, any, select}
use auto_perf.Scenarios.{sorted, list_scenarios}

-- `x in xs`
abbrev pub is_in : String → List String → Bool
is_in t = any (λ u. u == t)

abbrev pub is_empty : List String → Bool
is_empty [] = true
is_empty (t ∷ ts) = false

-- `xs | ys`
unfoldable pub union : List String → List String → List String
union [] ys = ys
union (x ∷ xs) ys = let rest = union xs ys in if is_in x rest then rest else x ∷ rest

-- `names or list_scenarios()`
abbrev pub asked_names : List String → List String
asked_names [] = list_scenarios none
asked_names (name ∷ names) = name ∷ names

module _ (targets : String → List String) where
  abbrev pub has : String → String → Bool
  has name t = is_in t (targets name)

  -- `set().union(*remaining.values())`
  unfoldable pub all_targets : List String → List String
  all_targets [] = []
  all_targets (name ∷ names) = union (targets name) (all_targets names)

  -- `len(remaining[n] & uncovered)`
  abbrev pub gain : List String → String → ℕ
  gain uncovered name = count (has name) uncovered

  -- `max(...)`: the first of the names with the largest gain
  unfoldable pub best_from : List String → String → List String → String
  best_from uncovered best [] = best
  best_from uncovered best (name ∷ names) =
      best_from uncovered (if ltb (gain uncovered best) (gain uncovered name) then name else best)
        names

  -- one turn of the loop, with what the turns after it choose
  abbrev pub choose : List String → String → List String → List String
  choose uncovered best rest = if eqb (gain uncovered best) 0 then [] else best ∷ rest

  abbrev pub without : String → List String → List String
  without name uncovered = select (λ t. not (has name t)) uncovered

  -- `while uncovered`, over the sorted names, with at most `fuel` turns
  unfoldable pub cover : String → List String → ℕ → List String → List String
  cover name names zero uncovered = []
  cover name names (suc fuel) uncovered =
      let best = best_from uncovered name names in
      let rest = cover name names fuel (without best uncovered) in
      if is_empty uncovered then [] else choose uncovered best rest

  abbrev pub cover_sorted : List String → List String → List String
  cover_sorted [] uncovered = []
  cover_sorted (name ∷ names) uncovered = cover name names (length uncovered) uncovered

  abbrev pub useful : List String → List String
  useful = select (λ name. not (is_empty (targets name)))

  -- no names are the empty list
  unfoldable pub covering_scenarios : List String → List String
  unfolding all_targets cover
  covering_scenarios names =
      let remaining = useful (asked_names names) in
      cover_sorted (sorted remaining) (all_targets remaining)
