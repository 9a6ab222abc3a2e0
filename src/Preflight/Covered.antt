-- ===== src/Preflight/Covered.antt =====
-- src/autoperf/preflight.py, `covering_scenarios`: the chosen scenarios use every target.
use auto_perf.Prelude.{
  ℕ, zero, suc, ◌≤◌, String, ◌≡◌, refl, sym, ap, ◌∙◌, true, false, not, ◌||◌, inl, inr, List, [],
  ◌∷◌, arith, ltb, eqb, length, Bool-cases,
}
use auto_perf.Prelude.Count.{any, all}
use auto_perf.Scenarios.{sorted}
use auto_perf.Preflight.Cover.{
  asked_names, is_in, is_empty, has, all_targets, gain, best_from, without, cover, cover_sorted,
  useful, covering_scenarios,
}
use auto_perf.Preflight.Members.{
  in-count, in-any, in-select, all-select, length-without, all-in, all-of, in-is_empty, any-sorted,
  in-union,
}

module _ (targets : String → List String) where
  -- Every target that is left is a target of one of the names.
  abbrev Supported : List String → List String → Type 0
  Supported names uncovered = all (λ t. any (λ name. has targets name t) names) uncovered ≡ true

  best_from-gain :
      (uncovered : List String) (best : String) (names : List String)
      → gain targets uncovered best
        ≤ gain targets uncovered (best_from targets uncovered best names)
  unfolding best_from
  best_from-gain uncovered best [] = omega arith
  best_from-gain uncovered best (name ∷ names) =
      elim (Bool-cases (ltb (gain targets uncovered best) (gain targets uncovered name))) [
        | inl more ↦ rw more (ground (arith, more, best_from-gain uncovered name names))
        | inr less ↦ rw less (best_from-gain uncovered best names)
      ]

  smaller :
      (uncovered : List String) (best name : String)
      → ltb (gain targets uncovered best) (gain targets uncovered name) ≡ true
      → gain targets uncovered best ≤ gain targets uncovered name
  smaller uncovered best name h = ground (arith, h)

  larger :
      (uncovered : List String) (best name : String)
      → ltb (gain targets uncovered best) (gain targets uncovered name) ≡ false
      → gain targets uncovered name ≤ gain targets uncovered best
  larger uncovered best name h = ground (arith, h)

  best_from-positive :
      (uncovered : List String) (t best : String) (names : List String)
      → is_in t uncovered ≡ true
      → any (λ name. has targets name t) (best ∷ names) ≡ true
      → 1 ≤ gain targets uncovered (best_from targets uncovered best names)
  unfolding best_from any
  best_from-positive uncovered t best [] there h =
      in-count (has targets best) t uncovered there (ground (arith, h))
  best_from-positive uncovered t best (name ∷ names) there h =
      elim (Bool-cases (ltb (gain targets uncovered best) (gain targets uncovered name))) [
        | inl more ↦ rw more (elim (Bool-cases (has targets best t)) [
          | inl first ↦ omega (
            arith,
            in-count (has targets best) t uncovered there first,
            best_from-gain uncovered name names,
            smaller uncovered best name more,
          )
          | inr other ↦ best_from-positive uncovered t name names there (ground (arith, other, h))
        ])
        | inr less ↦ rw less (elim (Bool-cases (has targets name t)) [
          | inl second ↦ omega (
            arith,
            in-count (has targets name) t uncovered there second,
            best_from-gain uncovered best names,
            larger uncovered best name less,
          )
          | inr other ↦ best_from-positive uncovered t best names there (ground (arith, other, h))
        ])
      ]

  cover-Covers :
      (name : String) (names : List String) (fuel : ℕ) (uncovered : List String) (t : String)
      → length uncovered ≤ fuel
      → Supported (name ∷ names) uncovered
      → is_in t uncovered ≡ true
      → any (λ n. has targets n t) (cover targets name names fuel uncovered) ≡ true
  unfolding cover any
  cover-Covers name names fuel [] t enough backed there = cc
  cover-Covers name names zero (u ∷ us) t enough backed there = absurd (omega (arith, enough))
  cover-Covers name names (suc fuel) (u ∷ us) t enough backed there =
      let best = best_from targets (u ∷ us) name names in
      let gains : 1 ≤ gain targets (u ∷ us) best =
        best_from-positive (u ∷ us) t name names there
          (all-in (λ v. any (λ n. has targets n v) (name ∷ names)) t (u ∷ us) backed there) in
      let useful_turn : eqb (gain targets (u ∷ us) best) 0 ≡ false = ground (arith, gains) in
      rw useful_turn (elim (Bool-cases (has targets best t)) [
        | inl here ↦ ground (arith, here)
        | inr later ↦
            let kept : not (has targets best t) ≡ true = ground (arith, later) in
            let short : length (without targets best (u ∷ us)) ≤ fuel =
              omega (arith, enough, gains, length-without (has targets best) (u ∷ us)) in
            let rest : any (λ n. has targets n t)
                  (cover targets name names fuel (without targets best (u ∷ us)))
                ≡ true =
              cover-Covers name names fuel (without targets best (u ∷ us)) t short
                (all-select (λ v. any (λ n. has targets n v) (name ∷ names))
                  (λ v. not (has targets best v)) (u ∷ us) backed)
                (in-select (λ v. not (has targets best v)) t (u ∷ us) there kept) in
            ground (arith, rest)
      ])

  cover_sorted-Covers :
      (names uncovered : List String) (t : String)
      → Supported names uncovered
      → is_in t uncovered ≡ true
      → any (λ n. has targets n t) (cover_sorted targets names uncovered) ≡ true
  unfolding any
  cover_sorted-Covers [] uncovered t backed there =
      let clash : false ≡ true = all-in (λ v. false) t uncovered backed there in cc
  cover_sorted-Covers (name ∷ names) uncovered t backed there =
      cover-Covers name names (length uncovered) uncovered t (omega arith) backed there

  in-all_targets :
      (v : String) (names : List String)
      → is_in v (all_targets targets names) ≡ any (λ n. has targets n v) names
  unfolding all_targets any
  in-all_targets v [] = refl
  in-all_targets v (name ∷ names) =
      in-union v (targets name) (all_targets targets names)
      ∙ ap (λ b. has targets name v || b) (in-all_targets v names)

-- The cover is complete: every target that one of the named scenarios uses is used by a chosen
-- scenario, for any finite sets of targets. If no scenario is named, this holds for all presets.
pub covering_scenarios_complete :
    (targets : String → List String) (names : List String) (name t : String)
    → is_in name (asked_names names) ≡ true
    → has targets name t ≡ true
    → any (λ n. has targets n t) (covering_scenarios targets names) ≡ true
unfolding covering_scenarios
covering_scenarios_complete targets names name t named uses =
    let rows = useful targets (asked_names names) in
    let kept : is_in name rows ≡ true =
      in-select (λ n. not (is_empty (targets n))) name (asked_names names) named
        (in-is_empty t (targets name) uses) in
    let left : is_in t (all_targets targets rows) ≡ true =
      in-all_targets targets t rows ∙ in-any (λ n. has targets n t) name rows kept uses in
    cover_sorted-Covers targets (sorted rows) (all_targets targets rows) t
      (all-of (λ v. any (λ n. has targets n v) (sorted rows)) (all_targets targets rows)
        (λ v there.
          any-sorted (λ n. has targets n v) rows ∙ (sym (in-all_targets targets v rows) ∙ there)))
      left
