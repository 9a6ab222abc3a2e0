-- ===== src/Campaigns/PlanBounds.antt =====
-- src/autoperf/campaigns.py, `validated`: what a spec that passes promises of its plan.
use mathlib.Core.Path.{subst}
use auto_perf.Prelude.{
  ℕ, zero, suc, ◌≤◌, String, ◌≡◌, refl, ap, sym, ◌∙◌, inl, inr, ◌⊎◌, true, false, Option, none,
  some, List, map, arith, ◌==◌, eq_iff, ltb, Bool-cases, length, length-append, length-replicate,
  length-map,
}
use auto_perf.Prelude.Count.{any, select}
use auto_perf.Prelude.Int.{ℤ, pos, negsuc, is_positive, times}
use auto_perf.Scenarios.{list_scenarios}
use auto_perf.Campaigns.Plan.{
  CampaignSpec, valid, is_given, is_tier, repeat, planned_scenarios, validated, max_runs,
}

-- What holds of the three tiers holds of every known tier.
pub known_tier {ℓ} :
    (P : String → Type ℓ) (tier : String)
    → is_tier (some tier) ≡ true
    → P "smoke"
    → P "functional"
    → P "regression"
    → P tier
unfolding any
known_tier P tier known s f r = elim (Bool-cases ("smoke" == tier)) [
  | inl e ↦ subst P ((eq_iff "smoke" tier).0 e) s
  | inr n ↦ elim (Bool-cases ("functional" == tier)) [
    | inl e ↦ subst P ((eq_iff "functional" tier).0 e) f
    | inr m ↦ subst P ((eq_iff "regression" tier).0 (ground arith)) r
  ]
]

-- The plan of a campaign over a tier: a sweep for each iteration.
pub planned-tier :
    (spec : CampaignSpec) (tier : String)
    → (spec.kind == "soak") ≡ false
    → spec.tier ≡ some tier
    → is_tier (some tier) ≡ true
    → planned_scenarios spec
      ≡ repeat (times spec.iterations) (map some (list_scenarios (some tier)))
unfolding planned_scenarios
planned-tier spec tier kind given known =
    let named : is_given (some tier) ≡ true =
      known_tier (λ t. is_given (some t) ≡ true) tier known refl refl refl in
    rw (kind, given) (rw named)

-- A spec whose plan is not empty.
abbrev IsPlannable : CampaignSpec → Type 0
IsPlannable s =
    ((s.kind == "soak") ≡ true)
    ⊎ (((s.kind == "soak") ≡ false)
        × (is_positive s.iterations ≡ true)
        × ((is_given s.tier ≡ false) ⊎ (is_tier s.tier ≡ true)))

validated-IsPlannable :
    (spec s : CampaignSpec)
    → validated spec ≡ valid s
    → IsPlannable s × (ltb max_runs (length (planned_scenarios s)) ≡ false)
unfolding validated
validated-IsPlannable spec s h = ground arith

length-repeat {ℓ} : {A : Type ℓ} (n : ℕ) (xs : List A) → 1 ≤ n → length xs ≤ length (repeat n xs)
unfolding repeat
length-repeat zero xs h = absurd (omega arith)
length-repeat (suc n) xs h = omega (arith, length-append xs (repeat n xs))

tier_sizes :
    (length (list_scenarios (some "smoke")) ≡ 5)
    × (length (list_scenarios (some "functional")) ≡ 8)
    × (length (list_scenarios (some "regression")) ≡ 11)
unfolding list_scenarios select
tier_sizes = (refl, refl, refl)

times_positive : (n : ℤ) → is_positive n ≡ true → 1 ≤ times n
times_positive (pos n) h = ground arith
times_positive (negsuc n) h = cc

plan_tier :
    (n : ℤ) (tier : Option String)
    → is_positive n ≡ true
    → is_tier tier ≡ true
    → 1 ≤ length (repeat (times n) (map some (list_scenarios tier)))
plan_tier n none p h = cc
plan_tier n (some tier) p h = omega (
  arith,
  length-repeat (times n) (map some (list_scenarios (some tier))) (times_positive n p),
  length-map some (list_scenarios (some tier)),
  known_tier (λ t. 1 ≤ length (list_scenarios (some t))) tier h (omega (arith, tier_sizes.0))
      (omega (arith, tier_sizes.1)) (omega (arith, tier_sizes.2)),
)

plan_positive : (s : CampaignSpec) → IsPlannable s → 1 ≤ length (planned_scenarios s)
unfolding planned_scenarios
plan_positive s (inl soak) = rw soak (omega arith)
plan_positive s (inr (other, p, tier)) = elim (Bool-cases (is_given s.tier)) [
  | inl given ↦ elim tier [
    | inl missing ↦ cc
    | inr known ↦ rw (other, given) (plan_tier s.iterations s.tier p known)
  ]
  | inr missing ↦
      rw (other, missing)
        (omega
          (arith, length-replicate (times s.iterations) s.scenario, times_positive s.iterations p))
]

-- A soak is one run of no tier.
abbrev as_soak : CampaignSpec → CampaignSpec
as_soak spec = record spec { iterations = pos 1; tier = none }

validated-shape :
    (spec s : CampaignSpec)
    → validated spec ≡ valid s
    → (s ≡ spec) ⊎ (((spec.kind == "repeat") ≡ false) × (s ≡ as_soak spec))
unfolding validated
validated-shape spec s h = ground arith

again_soak :
    (spec : CampaignSpec)
    → (spec.kind == "repeat") ≡ false
    → validated spec ≡ valid (as_soak spec)
    → validated (as_soak spec) ≡ valid (as_soak spec)
unfolding validated
again_soak spec kind h = ground arith

again : (spec s : CampaignSpec) → validated spec ≡ valid s → validated s ≡ valid s
again spec s h = elim (validated-shape spec s h) [
  | inl same ↦ ap validated same ∙ h
  | inr (kind, e) ↦ ap validated e ∙ (again_soak spec kind (h ∙ ap valid e) ∙ ap valid (sym e))
]

same_serial : (spec s : CampaignSpec) → validated spec ≡ valid s → s.serial ≡ spec.serial
same_serial spec s h = elim (validated-shape spec s h) [
  | inl same ↦ ap (λ (t : CampaignSpec). t.serial) same
  | inr (kind, e) ↦ ap (λ (t : CampaignSpec). t.serial) e
]

-- A spec that passes validation plans at least one run and at most 500, for the device that was asked
-- for, and passes again, unchanged: what a campaign is created from is what was validated.
pub validated_promises :
    (spec s : CampaignSpec)
    → validated spec ≡ valid s
    → (1 ≤ length (planned_scenarios s))
      × (length (planned_scenarios s) ≤ max_runs)
      × (s.serial ≡ spec.serial)
      × (validated s ≡ valid s)
validated_promises spec s h =
    let (plannable, bounded) = validated-IsPlannable spec s h in
    (plan_positive s plannable, ground arith, same_serial spec s h, again spec s h)
