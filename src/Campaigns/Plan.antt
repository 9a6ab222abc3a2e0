-- ===== src/Campaigns/Plan.antt =====
-- src/autoperf/campaigns.py, CampaignSpec: what a campaign asks for, and the runs that it plans.
use auto_perf.Prelude.{
  ℕ, zero, suc, String, Bool, false, not, ◌&&◌, ◌||◌, Option, none, some, List, [], ◌∷◌, ◌++◌, map,
  ◌==◌, ltb, if◌then◌else◌, length, replicate,
}
use auto_perf.Prelude.Count.{any}
use auto_perf.Prelude.Int.{ℤ, pos, is_positive, times}
use auto_perf.Scenarios.{tiers, list_scenarios}

pub record CampaignSpec : Type 0 where
  pub kind : String
  pub serial : String
  pub duration : ℤ
  pub scenario : Option String
  pub tier : Option String
  pub iterations : ℤ

-- MAX_RUNS
abbrev pub max_runs : ℕ
max_runs = 500

-- the ValueErrors of `validated`
pub data SpecError : Type 0 where
  bad_kind no_serial bad_duration bad_tier no_scenario bad_iterations too_many : SpecError

pub data Validated : Type 0 where
  valid : CampaignSpec → Validated
  invalid : SpecError → Validated

-- the truth value of a text that may be missing
abbrev pub is_given : Option String → Bool
is_given none = false
is_given (some s) = not (s == "")

-- `self.tier and self.tier not in TIERS`
abbrev pub is_tier : Option String → Bool
is_tier none = false
is_tier (some tier) = any (λ t. t == tier) tiers

-- `[x for _ in range(n) for x in xs]`
unfoldable pub repeat {ℓ} : {A : Type ℓ} → ℕ → List A → List A
repeat zero xs = []
repeat (suc n) xs = xs ++ repeat n xs

unfoldable pub planned_scenarios : CampaignSpec → List (Option String)
planned_scenarios spec =
    if spec.kind == "soak"
    then spec.scenario ∷ []
    else if is_given spec.tier
    then repeat (times spec.iterations) (map some (list_scenarios spec.tier))
    else replicate (times spec.iterations) spec.scenario

abbrev pub within_limit : CampaignSpec → Validated
within_limit spec =
    if ltb max_runs (length (planned_scenarios spec)) then invalid too_many else valid spec

abbrev pub check_repeat : CampaignSpec → Validated
check_repeat spec =
    if not (is_given spec.scenario) && not (is_given spec.tier)
    then invalid no_scenario
    else if not (is_positive spec.iterations)
    then invalid bad_iterations
    else within_limit spec

unfoldable pub validated : CampaignSpec → Validated
validated spec =
    if not (spec.kind == "soak" || spec.kind == "repeat")
    then invalid bad_kind
    else if spec.serial == ""
    then invalid no_serial
    else if not (is_positive spec.duration)
    then invalid bad_duration
    else if is_given spec.tier && not (is_tier spec.tier)
    then invalid bad_tier
    else if spec.kind == "repeat"
    then check_repeat spec
    else within_limit (record spec { iterations = pos 1; tier = none })
