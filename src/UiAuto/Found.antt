-- ===== src/UiAuto/Found.antt =====
-- src/autoperf/uiauto.py: what `find` and `resolve` answer.
use mathlib.Core.Path.{subst}
use auto_perf.Prelude.{
  ℕ, zero, suc, ◌+◌, ◌≤◌, String, ◌≡◌, refl, sym, ap, ◌∙◌, ◌<◌, true, false, ◌⊎◌, inl, inr, Option,
  none, some, List, [], ◌∷◌, ◌++◌, length, arith, ltb, leb, is_none, Bool-cases, Option-cases,
}
use auto_perf.Prelude.Count.{all}
use auto_perf.UiAuto.{
  Node, Selector, Target, Resolution, area_key, nth, smallest, candidates, pick, find_node,
  at_coordinates, by_selector, resolve_from, resolve,
}

-- The first of the smallest nodes of a list.
abbrev pub IsSmallest : Node → List Node → Type 0
IsSmallest n ns =
    (ahead : List Node) × (behind : List Node) × (ns ≡ ahead ++ n ∷ behind)
    × (all (λ m. ltb (area_key n) (area_key m)) ahead ≡ true)
    × (all (λ m. leb (area_key n) (area_key m)) behind ≡ true)

-- `r` is `best`, or the first of the smallest among those that are smaller than it.
abbrev Beats : Node → List Node → Node → Type 0
Beats best ns r =
    ((r ≡ best) × (all (λ m. leb (area_key best) (area_key m)) ns ≡ true))
    ⊎ ((ahead : List Node) × (behind : List Node) × (ns ≡ ahead ++ r ∷ behind)
        × (area_key r < area_key best)
        × (all (λ m. ltb (area_key r) (area_key m)) ahead ≡ true)
        × (all (λ m. leb (area_key r) (area_key m)) behind ≡ true))

Beats-smaller :
    (best n : Node) (ns : List Node) (r : Node)
    → ltb (area_key n) (area_key best) ≡ true
    → Beats n ns r
    → Beats best (n ∷ ns) r
unfolding all
Beats-smaller best n ns r smaller (inl (same, rest)) =
    inr ([], ns, ap (λ m. m ∷ ns) (sym same), rw same (ground (arith, smaller)), refl, rw same rest)
Beats-smaller best n ns r smaller (inr (ahead, behind, split, lt, before, after)) = inr (
  n ∷ ahead,
  behind,
  ap (λ ms. n ∷ ms) split,
  ground (arith, lt, smaller),
  ground (arith, lt, before),
  after,
)

Beats-larger :
    (best n : Node) (ns : List Node) (r : Node)
    → ltb (area_key n) (area_key best) ≡ false
    → Beats best ns r
    → Beats best (n ∷ ns) r
unfolding all
Beats-larger best n ns r larger (inl (same, rest)) = inl (same, ground (arith, larger, rest))
Beats-larger best n ns r larger (inr (ahead, behind, split, lt, before, after)) =
    inr (n ∷ ahead, behind, ap (λ ms. n ∷ ms) split, lt, ground (arith, lt, larger, before), after)

beats : (best : Node) (ns : List Node) → Beats best ns (smallest best ns)
unfolding smallest all
beats best [] = inl (refl, refl)
beats best (n ∷ ns) = elim (Bool-cases (ltb (area_key n) (area_key best))) [
  | inl s ↦
      let step : smallest best (n ∷ ns) ≡ smallest n ns = rw s in
      subst (Beats best (n ∷ ns)) (sym step)
        (Beats-smaller best n ns (smallest n ns) s (beats n ns))
  | inr l ↦
      let step : smallest best (n ∷ ns) ≡ smallest best ns = rw l in
      subst (Beats best (n ∷ ns)) (sym step)
        (Beats-larger best n ns (smallest best ns) l (beats best ns))
]

smallest-IsSmallest : (n : Node) (ns : List Node) → IsSmallest (smallest n ns) (n ∷ ns)
unfolding all
smallest-IsSmallest n ns = elim (beats n ns) [
  | inl (same, rest) ↦ ([], ns, ap (λ m. m ∷ ns) (sym same), refl, (rw same rest))
  | inr (ahead, behind, split, lt, before, after) ↦
      (n ∷ ahead, behind, ap (λ ms. n ∷ ms) split, (ground (arith, lt, before)), after)
]

-- What `find` answers: without an index the first of the smallest enabled nodes that match, and with
-- one the node of that index among them, in the screen's order.
abbrev pub FindOutcome : Option ℕ → List Node → Option Node → Type 0
FindOutcome index ns none = (ns ≡ []) ⊎ ((i : ℕ) × (index ≡ some i) × (length ns ≤ i))
FindOutcome index ns (some n) =
    ((index ≡ none) × IsSmallest n ns)
    ⊎ ((i : ℕ) × (ahead : List Node) × (behind : List Node) × (index ≡ some i)
        × (ns ≡ ahead ++ n ∷ behind)
        × (length ahead ≡ i))

abbrev NthOutcome : ℕ → List Node → Option Node → Type 0
NthOutcome i ns none = length ns ≤ i
NthOutcome i ns (some n) =
    (ahead : List Node) × (behind : List Node) × (ns ≡ ahead ++ n ∷ behind) × (length ahead ≡ i)

NthOutcome-cons :
    (i : ℕ) (m : Node) (ns : List Node) (o : Option Node)
    → NthOutcome i ns o
    → NthOutcome (suc i) (m ∷ ns) o
NthOutcome-cons i m ns none h = omega (arith, h)
NthOutcome-cons i m ns (some n) (ahead, behind, split, at_i) =
    (m ∷ ahead, behind, ap (λ ms. m ∷ ms) split, ap suc at_i)

nth-NthOutcome : (i : ℕ) (ns : List Node) → NthOutcome i ns (nth i ns)
unfolding nth
nth-NthOutcome i [] = omega arith
nth-NthOutcome zero (n ∷ ns) = ([], ns, refl, refl)
nth-NthOutcome (suc i) (n ∷ ns) = NthOutcome-cons i n ns (nth i ns) (nth-NthOutcome i ns)

NthOutcome-FindOutcome :
    (i : ℕ) (ns : List Node) (o : Option Node) → NthOutcome i ns o → FindOutcome (some i) ns o
NthOutcome-FindOutcome i ns none h = inr (i, refl, h)
NthOutcome-FindOutcome i ns (some n) (ahead, behind, split, at_i) =
    inr (i, ahead, behind, refl, split, at_i)

pick-FindOutcome : (index : Option ℕ) (ns : List Node) → FindOutcome index ns (pick index ns)
pick-FindOutcome index [] = inl refl
pick-FindOutcome none (n ∷ ns) = inl (refl, smallest-IsSmallest n ns)
pick-FindOutcome (some i) (n ∷ ns) =
    NthOutcome-FindOutcome i (n ∷ ns) (nth i (n ∷ ns)) (nth-NthOutcome i (n ∷ ns))

-- Every lookup of one selector: the answer is an enabled node that matches. Without an index it is
-- the first of the smallest of those, with an index the one at that place in the screen's order, and
-- it is missing exactly where there is none.
pub find_node_exact :
    (lower : String → String) (nodes : List Node) (s : Selector)
    → FindOutcome s.index (candidates lower s nodes) (find_node lower nodes s)
unfolding find_node
find_node_exact lower nodes s = pick-FindOutcome s.index (candidates lower s nodes)

-- What `resolve` answers.
abbrev pub ResolveOutcome :
    (String → String)
    → ℕ
    → List Selector
    → Option (ℕ × ℕ)
    → List Node
    → ℕ × ℕ
    → Option Resolution
    → Type 0
ResolveOutcome lower i ss fallback nodes screen answer =
    ((ahead : List Selector) × (s : Selector) × (behind : List Selector) × (n : Node) × (ss
        ≡ ahead ++ s ∷ behind)
      × (all (λ t. is_none (find_node lower nodes t)) ahead ≡ true)
      × (find_node lower nodes s ≡ some n)
      × (answer ≡ some (by_selector (i + length ahead) s n)))
    ⊎ ((all (λ t. is_none (find_node lower nodes t)) ss ≡ true)
        × (answer ≡ at_coordinates screen fallback))

ResolveOutcome-cons :
    (lower : String → String) (i : ℕ) (t : Selector) (ss : List Selector)
    (fallback : Option (ℕ × ℕ)) (nodes : List Node) (screen : ℕ × ℕ) (answer : Option Resolution)
    → find_node lower nodes t ≡ none
    → ResolveOutcome lower (suc i) ss fallback nodes screen answer
    → ResolveOutcome lower i (t ∷ ss) fallback nodes screen answer
unfolding all
ResolveOutcome-cons lower i t ss fallback nodes screen answer missing
      (inl (ahead, s, behind, n, split, before, found, same)) =
    let later : suc i + length ahead ≡ i + suc (length ahead) = omega arith in
    inl
      (t ∷ ahead, s, behind, n, ap (λ us. t ∷ us) split, rw missing before, found, rw⁻¹ later same)
ResolveOutcome-cons lower i t ss fallback nodes screen answer missing (inr (before, same)) =
    inr (rw missing before, same)

resolve_from_exact :
    (lower : String → String) (i : ℕ) (ss : List Selector) (fallback : Option (ℕ × ℕ))
    (nodes : List Node) (screen : ℕ × ℕ)
    → ResolveOutcome lower i ss fallback nodes screen
        (resolve_from lower i ss fallback nodes screen)
unfolding resolve_from all
resolve_from_exact lower i [] fallback nodes screen = inr (refl, refl)
resolve_from_exact lower i (s ∷ ss) fallback nodes screen =
    elim (Option-cases (find_node lower nodes s)) [
      | inl missing ↦
          let step : resolve_from lower i (s ∷ ss) fallback nodes screen
              ≡ resolve_from lower (suc i) ss fallback nodes screen =
            rw (resolve_from, missing) in
          subst (ResolveOutcome lower i (s ∷ ss) fallback nodes screen) (sym step) (
            ResolveOutcome-cons lower i s ss fallback nodes screen
              (resolve_from lower (suc i) ss fallback nodes screen) missing
              (resolve_from_exact lower (suc i) ss fallback nodes screen))
      | inr (n, found) ↦
          let here : i ≡ i + 0 = omega arith in
          let step : resolve_from lower i (s ∷ ss) fallback nodes screen
              ≡ some (by_selector i s n) =
            rw (resolve_from, found) in
          inl ([], s, ss, n, refl, refl, found, step ∙ ap (λ k. some (by_selector k s n)) here)
    ]

-- Every lookup of a target: the first selector that finds a node decides, under its own index and
-- strategy, and the coordinate, where there is one, is used only if no selector finds a node.
pub resolve_exact :
    (lower : String → String) (t : Target) (nodes : List Node) (screen : ℕ × ℕ)
    → ResolveOutcome lower 0 t.selectors t.fallback nodes screen (resolve lower t nodes screen)
unfolding resolve
resolve_exact lower t nodes screen = resolve_from_exact lower 0 t.selectors t.fallback nodes screen
