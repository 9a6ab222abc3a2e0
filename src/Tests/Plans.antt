-- ===== src/Tests/Plans.antt =====
-- Campaigns over a tier, and a campaign that is cancelled.
use auto_perf.Prelude.{
  ℕ, zero, suc, ◌+◌, ◌≤◌, String, ◌≡◌, refl, sym, ap, ◌∙◌, true, none, some, [], ◌∷◌, ◌==◌, take,
  length,
}
use auto_perf.Prelude.Count.{count, any, first, select}
use auto_perf.Prelude.Int.{pos}
use auto_perf.Models.{RunStatus}
use auto_perf.Storage.Rows.{Campaign, empty}
use auto_perf.Storage.Runs.{get_run}
use auto_perf.Storage.Campaigns.{get_campaign, is_running_child, is_queued_child}
use auto_perf.Scenarios.{list_scenarios}
use auto_perf.Campaigns.Plan.{CampaignSpec, valid, max_runs, planned_scenarios, repeat, validated}
use auto_perf.Campaigns.PlanBounds.{validated_promises}
use auto_perf.Campaigns.Balance.{is_scenario, planned_evenly}
use auto_perf.Campaigns.Create.{create_campaign}
use auto_perf.Campaigns.Created.{IsFresh, HasPlan, create_campaign_exact}
use auto_perf.Campaigns.Cancel.{cancel_campaign}
use auto_perf.Campaigns.Deleted.{samples}
use auto_perf.Campaigns.Cancelled.{stopped, cancel_campaign_exact}
use auto_perf.Campaigns.Status.{
  status_from_runs, derived_status, summary_status, summary_finished, finished_count,
  summary-derived, status_from_runs-derived,
}
use auto_perf.Storage.Campaigns.{campaign_counts, list_campaign_runs}
use auto_perf.Tests.Rows.{waiting, running_run, sweep, with_campaign, with_campaign-IsValid}

-- Three sweeps of the smoke tier.
abbrev smoke : CampaignSpec
smoke = record {
  kind = "repeat";
  serial = "phone";
  duration = pos 60;
  scenario = none;
  tier = some "smoke";
  iterations = pos 3;
}

smoke_valid : validated smoke ≡ valid smoke
unfolding validated planned_scenarios repeat list_scenarios select any
smoke_valid = refl

validated_promises_example :
    (1 ≤ length (planned_scenarios smoke))
    × (length (planned_scenarios smoke) ≤ max_runs)
    × (smoke.serial ≡ smoke.serial)
    × (validated smoke ≡ valid smoke)
validated_promises_example = validated_promises smoke smoke smoke_valid

in_smoke :
    (any (λ s. s == "cold_start") (list_scenarios (some "smoke")) ≡ true)
    × (any (λ s. s == "search_and_play") (list_scenarios (some "smoke")) ≡ true)
unfolding list_scenarios select any
in_smoke = (refl, refl)

known_smoke : any (λ t. t == "smoke") ("smoke" ∷ "functional" ∷ "regression" ∷ []) ≡ true
unfolding any
known_smoke = refl

-- After seven runs of the sweeps.
planned_evenly_example :
    count (is_scenario "cold_start") (take 7 (planned_scenarios smoke))
    ≤ count (is_scenario "search_and_play") (take 7 (planned_scenarios smoke)) + 1
planned_evenly_example =
    planned_evenly smoke "smoke" "cold_start" "search_and_play" 7 refl refl known_smoke in_smoke.0
      in_smoke.1

-- Ids that are all different: the n-th is a text of n letters.
uuid : ℕ → String
uuid zero = String.[]
uuid (suc n) = String.◌∷◌ "x" (uuid n)

size : String → ℕ
size String.[] = 0
size (String.◌∷◌ c s) = suc (size s)

size-uuid : (n : ℕ) → size (uuid n) ≡ n
unfolding uuid size
size-uuid zero = refl
size-uuid (suc n) = ap suc (size-uuid n)

uuid-IsFresh : IsFresh uuid empty
unfolding any
uuid-IsFresh = record {
  distinct = λ i j e. sym (size-uuid i) ∙ (ap size e ∙ size-uuid j);
  no_campaign = refl;
  no_run = λ i. refl;
  no_child = refl;
}

create_campaign_exact_example : HasPlan uuid smoke (create_campaign 5 uuid smoke empty)
create_campaign_exact_example =
    create_campaign_exact 5 uuid smoke smoke empty smoke_valid uuid-IsFresh

found_campaign : get_campaign (with_campaign running_run) "c1" ≡ some sweep
unfolding get_campaign first
found_campaign = refl

found_child : get_run (with_campaign running_run) "r1" ≡ some running_run
unfolding get_run first
found_child = refl

cancel_campaign_exact_example :
    let (after, answer) = cancel_campaign 9 "c1" (with_campaign running_run) in
    (answer
      ≡ some (
          count (is_running_child "c1") (with_campaign running_run).test_runs
          + count (is_queued_child "c1") (with_campaign running_run).test_runs))
    × (get_run after "r1" ≡ stopped "c1" running_run)
    × (samples after "r1" ≡ samples (with_campaign running_run) "r1")
    × ((d : Campaign) × (get_campaign after "c1" ≡ some d)
        × (d.cancel_requested ≡ true)
        × (d.status ≡ RunStatus.interrupted))
cancel_campaign_exact_example =
    cancel_campaign_exact 9 "c1" "r1" (with_campaign running_run)
      (with_campaign-IsValid running_run) found_campaign found_child

summary-derived_example :
    (summary_status (campaign_counts (with_campaign waiting) sweep)
      ≡ derived_status sweep (list_campaign_runs (with_campaign waiting) "c1"))
    × (summary_finished (campaign_counts (with_campaign waiting) sweep)
        ≡ finished_count (list_campaign_runs (with_campaign waiting) "c1"))
summary-derived_example = summary-derived (with_campaign waiting) sweep

status_from_runs-derived_example :
    status_from_runs (waiting ∷ []) ≡ derived_status sweep (waiting ∷ [])
status_from_runs-derived_example = status_from_runs-derived sweep (waiting ∷ []) refl refl
