-- ===== src/Tests/Sweeps.antt =====
-- Executing a campaign of one run.
use auto_perf.Prelude.{Option, none, false, ◌≡◌, refl, some, [], ◌∷◌}
use auto_perf.Prelude.Count.{all, count, first, select, update_where}
use auto_perf.Storage.Rows.{Storage, empty}
use auto_perf.Storage.Runs.{get_run}
use auto_perf.Storage.Claims.{release_abandoned}
use auto_perf.Storage.Exclusive.{load}
use auto_perf.Runner.Start.{started, check_scenario, start}
use auto_perf.Campaigns.Execute.{execute_runs, executed_first}
use auto_perf.Campaigns.Orphaned.{actions_of, deleted_campaign_goes_on}
use auto_perf.Storage.Campaigns.{update_campaign, get_campaign, list_campaign_runs}
use auto_perf.Campaigns.Execute.{Progress, concluded, Turn, execute_run, execute_campaign}
use auto_perf.Campaigns.Executed.{Closed, execute_run-Closed}
use auto_perf.Models.{RunStatus}
use auto_perf.Campaigns.Sweep.{Sweep}
use auto_perf.Campaigns.Swept.{CampaignOutcome, execute_campaign_exact}
use auto_perf.Tests.Rows.{waiting, sweep, with_campaign, empty-IsValid}
use auto_perf.Tests.Loops.{runner, digits, world, over}

abbrev one_turn : Turn
one_turn = record { others = λ db. db; built = some runner; world = world; now = 200 }

execute_run-Closed_example :
    Closed "r1" (execute_run digits sweep waiting one_turn (with_campaign waiting))
execute_run-Closed_example =
    execute_run-Closed digits sweep waiting one_turn (with_campaign waiting) over

found : get_campaign (with_campaign waiting) "c1" ≡ some sweep
unfolding get_campaign first
found = refl

children : list_campaign_runs (with_campaign waiting) "c1" ≡ waiting ∷ []
unfolding list_campaign_runs select
children = refl

execute_campaign_exact_example :
    CampaignOutcome "c1"
      (list_campaign_runs (with_campaign waiting) "c1")
      (execute_campaign digits 98 210 (λ i. one_turn) "c1" (with_campaign waiting))
    × ((p : Option Progress) × Sweep digits sweep
          (λ i. one_turn)
          0
          (list_campaign_runs (with_campaign waiting) "c1")
          (update_campaign 98 "c1" RunStatus.running none (with_campaign waiting))
          p
        × (execute_campaign digits 98 210 (λ i. one_turn) "c1" (with_campaign waiting)
            ≡ concluded 210 "c1" p))
unfolding list_campaign_runs select
execute_campaign_exact_example =
    execute_campaign_exact digits 98 210 (λ i. one_turn) "c1" (with_campaign waiting) found
      (over, tt)

-- The campaign and its run are deleted before the one_turn.
abbrev emptied : Turn
emptied = record one_turn { others = λ db. empty }

able : check_scenario runner.adapter (actions_of runner) ≡ none
unfolding check_scenario all
able = refl

idle : load (release_abandoned 99 empty) "phone" ≡ 0
unfolding release_abandoned update_where count
idle = refl

no_campaign : get_campaign empty "c1" ≡ none
unfolding get_campaign first
no_campaign = refl

no_run : get_run empty "r1" ≡ none
unfolding get_run first
no_run = refl

deleted_campaign_goes_on_example :
    ((start runner.adapter (actions_of runner) 99 "phone" "r1" false empty).1 ≡ started)
    × (db' : Storage) × (execute_run digits sweep waiting emptied empty ≡ some db')
    × (execute_runs digits sweep (λ i. emptied) 0 (waiting ∷ []) (with_campaign waiting)
        ≡ executed_first "r1" (execute_runs digits sweep (λ i. emptied) 1 [] db'))
deleted_campaign_goes_on_example =
    deleted_campaign_goes_on digits sweep (λ i. emptied) 0 waiting [] (with_campaign waiting) runner
      refl refl over able empty-IsValid no_campaign no_run idle
