-- ===== src/Campaigns/Balance.antt =====
-- src/autoperf/campaigns.py, `planned_scenarios`: a tier is swept again and again, so a campaign that
-- is cut short has sampled its scenarios evenly.
use mathlib.Core.Path.{subst}
use auto_perf.Prelude.{
  ℕ, zero, suc, ◌+◌, ◌-◌, ◌≤◌, String, ◌≡◌, refl, ap, ◌∙◌, inl, inr, Bool, true, false, Option,
  some, List, [], ◌∷◌, ◌++◌, map, arith, ◌==◌, eq_iff, eqb, leb, Bool-cases, is_text, length, take,
}
use auto_perf.Prelude.Count.{count, any, all, select, count-append}
use auto_perf.Prelude.Int.{times}
use auto_perf.Scenarios.{list_scenarios}
use auto_perf.Campaigns.Plan.{CampaignSpec, is_tier, repeat, planned_scenarios}
use auto_perf.Campaigns.PlanBounds.{known_tier, planned-tier}

module _ {ℓ} {A : Type ℓ} where
  take-append : (k : ℕ) (xs ys : List A) → take k (xs ++ ys) ≡ take k xs ++ take (k - length xs) ys
  take-append zero xs ys = let e : 0 - length xs ≡ 0 = omega arith in rw e
  take-append (suc k) [] ys = let e : suc k - 0 ≡ suc k = omega arith in rw e
  take-append (suc k) (x ∷ xs) ys =
      let e : suc k - suc (length xs) ≡ k - length xs = omega arith in
      rw e (ap (λ l. x ∷ l) (take-append k xs ys))

  -- What is counted in a part of one sweep and the sweeps behind it.
  count-take-append :
      (q : A → Bool) (k : ℕ) (xs ys : List A)
      → count q (take k (xs ++ ys)) ≡ count q (take k xs) + count q (take (k - length xs) ys)
  count-take-append q k xs ys =
      ap (count q) (take-append k xs ys) ∙ count-append q (take k xs) (take (k - length xs) ys)

  take-all : (k : ℕ) (xs : List A) → length xs ≤ k → take k xs ≡ xs
  take-all zero [] h = refl
  take-all zero (x ∷ xs) h = absurd (omega arith)
  take-all (suc k) [] h = refl
  take-all (suc k) (x ∷ xs) h = ap (λ l. x ∷ l) (take-all k xs (omega arith))

  count-take-le : (q : A → Bool) (k : ℕ) (xs : List A) → count q (take k xs) ≤ count q xs
  unfolding count
  count-take-le q zero xs = omega arith
  count-take-le q (suc k) [] = omega arith
  count-take-le q (suc k) (x ∷ xs) = omega (arith, count-take-le q k xs)

  -- In any part of the sweeps, two items of the sweep have been met equally often, up to one.
  sweeps_even :
      (p q : A → Bool) (names : List A)
      → count p names ≡ 1
      → count q names ≡ 1
      → (n k : ℕ) → count p (take k (repeat n names)) ≤ count q (take k (repeat n names)) + 1
  unfolding count repeat
  sweeps_even p q names hp hq zero zero = omega arith
  sweeps_even p q names hp hq zero (suc k) = omega arith
  sweeps_even p q names hp hq (suc n) k = elim (Bool-cases (leb (length names) k)) [
    | inl whole ↦ omega (
      arith,
      count-take-append p k names (repeat n names),
      count-take-append q k names (repeat n names),
      ap (count p) (take-all k names (ground arith)),
      ap (count q) (take-all k names (ground arith)),
      sweeps_even p q names hp hq n (k - length names),
    )
    | inr part ↦
        let e : k - length names ≡ 0 = ground arith in
        omega (
          arith,
          count-take-append p k names (repeat n names),
          ap (λ m. count p (take m (repeat n names))) e,
          count-take-le p k names,
        )
  ]

-- A row's scenario is the one named.
abbrev pub is_scenario : String → Option String → Bool
is_scenario name s = is_text s name

-- Each name stands once in a list of names.
abbrev once : List String → Bool
once names = all (λ n. eqb (count (λ m. m == n) names) 1) names

tier_once :
    (once (list_scenarios (some "smoke")) ≡ true)
    × (once (list_scenarios (some "functional")) ≡ true)
    × (once (list_scenarios (some "regression")) ≡ true)
unfolding list_scenarios all count select
tier_once = (refl, refl, refl)

all-any :
    (p : String → Bool) (a : String) (xs : List String)
    → all p xs ≡ true
    → any (λ s. s == a) xs ≡ true
    → p a ≡ true
unfolding all any
all-any p a [] h k = cc
all-any p a (x ∷ xs) h k = elim (Bool-cases (x == a)) [
  | inl same ↦ subst (λ s. p s ≡ true) ((eq_iff x a).0 same) (ground arith)
  | inr other ↦ all-any p a xs (ground arith) (ground arith)
]

count-map :
    (name : String) (names : List String)
    → count (is_scenario name) (map some names) ≡ count (λ s. s == name) names
unfolding count
count-map name [] = refl
count-map name (x ∷ xs) = omega (arith, count-map name xs)

-- In a known tier each scenario stands once.
once_in_tier :
    (tier name : String)
    → is_tier (some tier) ≡ true
    → any (λ s. s == name) (list_scenarios (some tier)) ≡ true
    → count (is_scenario name) (map some (list_scenarios (some tier))) ≡ 1
once_in_tier tier name known there =
    let single : once (list_scenarios (some tier)) ≡ true =
      known_tier (λ t. once (list_scenarios (some t)) ≡ true) tier known tier_once.0 tier_once.1
        tier_once.2 in
    let one_each : eqb (count (λ m. m == name) (list_scenarios (some tier))) 1 ≡ true =
      all-any (λ n. eqb (count (λ m. m == n) (list_scenarios (some tier))) 1) name
        (list_scenarios (some tier)) single there in
    ground (arith, count-map name (list_scenarios (some tier)))

-- However early a campaign over a tier is cut short, the scenarios of the tier have been planned
-- equally often in the part that is done, up to one.
pub planned_evenly :
    (spec : CampaignSpec) (tier a b : String) (done : ℕ)
    → (spec.kind == "soak") ≡ false
    → spec.tier ≡ some tier
    → is_tier (some tier) ≡ true
    → any (λ s. s == a) (list_scenarios (some tier)) ≡ true
    → any (λ s. s == b) (list_scenarios (some tier)) ≡ true
    → count (is_scenario a) (take done (planned_scenarios spec))
      ≤ count (is_scenario b) (take done (planned_scenarios spec)) + 1
planned_evenly spec tier a b done kind given known ha hb =
    rw (planned-tier spec tier kind given known) (
      sweeps_even (is_scenario a) (is_scenario b) (map some (list_scenarios (some tier)))
        (once_in_tier tier a known ha) (once_in_tier tier b known hb) (times spec.iterations) done)
