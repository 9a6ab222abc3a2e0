-- ===== src/Tests/Runs.antt =====
-- Cancelling, deleting, dispatching and grading one run.
use auto_perf.Prelude.{
  ◌+◌, ◌==◌, ◌⊎◌, ◌≡◌, refl, true, false, ◌&&◌, none, some, List, [], ◌∷◌, arith,
}
use auto_perf.Prelude.Count.{count, all, any, first, update_where, delete_where}
use auto_perf.Models.{RunStatus}
use auto_perf.Storage.Rows.{Run, Storage, empty}
use auto_perf.Storage.Runs.{get_run, delete_run}
use auto_perf.Storage.Queue.{device_has_inflight_run, next_pending_run}
use auto_perf.Storage.Baselines.{run_quality}
use auto_perf.Dispatch.{cancel_run, dispatch_pending, task_of}
use auto_perf.Dispatch.OneAtATime.{
  Dispatched, is_out, dispatch_pending_exact, dispatch_pending_once,
}
use auto_perf.Runner.Start.{started, start}
use auto_perf.Runner.Outcome.{ScenarioStep, returned, verification_error}
use auto_perf.Runner.Quality.{
  Finished, recorded, is_trustworthy, has_failed, was_by_coordinates, was_blind, has_dumped,
  run_quality-recorded,
}
use auto_perf.Runner.Resurrection.{Declined, cancelled_never_starts}
use auto_perf.Storage.Exclusive.{load}
use auto_perf.Storage.Claims.{release_abandoned}
use auto_perf.Runner.Start.{check_scenario}
use auto_perf.Tasks.{begin_task}
use auto_perf.Tasks.Revived.{deleted_task_returns}
use auto_perf.Storage.Baselines.{set_baseline, get_baseline, scenario_of, or_empty}
use auto_perf.Storage.Baselined.{the_baseline, set_baseline-get}
use auto_perf.Tests.Rows.{with_baseline, waiting, with_run, with_run-IsValid}

found : get_run (with_run waiting) "r1" ≡ some waiting
unfolding get_run first
found = refl

cancelled_never_starts_example : Declined "r1" (
    start
      (some (λ a. true))
      ("tap" ∷ [])
      9
      "phone"
      "r1"
      true
      (cancel_run 7 "r1" (with_run waiting)).0)
cancelled_never_starts_example =
    cancelled_never_starts (some (λ a. true)) ("tap" ∷ []) 7 9 "phone" "r1" true (with_run waiting)
      found refl

dispatch_pending_exact_example :
    Dispatched 5 "phone" (with_run waiting) (dispatch_pending 5 "phone" (with_run waiting))
dispatch_pending_exact_example = dispatch_pending_exact 5 "phone" (with_run waiting)

handed : (dispatch_pending 5 "phone" (with_run waiting)).1 ≡ some (task_of "phone" waiting)
unfolding dispatch_pending device_has_inflight_run next_pending_run any first
handed = refl

-- A minute after it was handed out the run has started_since.
abbrev started_since : Storage
started_since = with_run (record waiting { status = RunStatus.running })

started_since-is_out : any (is_out 5 "phone" "r1") started_since.test_runs ≡ true
unfolding any
started_since-is_out = refl

dispatch_pending_once_example :
    (any (is_out 5 "phone" "r1") (dispatch_pending 5 "phone" (with_run waiting)).0.test_runs ≡ true)
    × (dispatch_pending 60_000_005 "phone" started_since ≡ (started_since, none))
dispatch_pending_once_example =
    dispatch_pending_once 5 60_000_005 "phone" (with_run waiting) started_since
      {task = task_of "phone" waiting} handed (omega arith) started_since-is_out

-- A blind tap, and a lookup that failed after three dumps.
abbrev tap : ScenarioStep
tap = record {
  at = 3;
  action = "tap_element";
  target = some (record { name = "search"; coordinate_only = false });
  app_package = none;
}

abbrev two_steps : List Finished
two_steps =
    (tap, returned (some (record { strategy = some "coordinates"; dumps = 1 })))
    ∷ (tap, verification_error 3)
    ∷ []

run_quality-recorded_example :
    let old = run_quality empty "r1" in
    let new = run_quality (recorded 5 "r1" two_steps empty) "r1" in
    (new.verified ≡ (old.verified && all is_trustworthy two_steps))
    × (new.verification_failures ≡ old.verification_failures + count has_failed two_steps)
    × (new.selector_fallbacks ≡ old.selector_fallbacks + count was_by_coordinates two_steps)
    × (new.stale_selectors ≡ old.stale_selectors + count was_blind two_steps)
    × (new.ui_introspections ≡ old.ui_introspections + count has_dumped two_steps)
run_quality-recorded_example = run_quality-recorded 5 "r1" two_steps empty

two_steps_counts :
    (all is_trustworthy two_steps ≡ false)
    × (count has_failed two_steps ≡ 1)
    × (count was_blind two_steps ≡ 1)
    × (count has_dumped two_steps ≡ 2)
unfolding all count
two_steps_counts = (refl, refl, refl, refl)

idle_phone : load (release_abandoned 9 (delete_run "r1" (with_run waiting))) "phone" ≡ 0
unfolding release_abandoned delete_run count update_where delete_where
idle_phone = refl

able : check_scenario (some (λ a. true)) ("tap" ∷ []) ≡ none
unfolding check_scenario all
able = refl

deleted_task_returns_example :
    (begin_task
      (some (λ a. true))
      ("tap" ∷ [])
      9
      "phone"
      "r1"
      (some "cold_start")
      (delete_run "r1" (with_run waiting))).1
    ≡ started
deleted_task_returns_example =
    deleted_task_returns (some (λ a. true)) ("tap" ∷ []) 9 "phone" "r1" (some "cold_start")
      (with_run waiting) (with_run-IsValid waiting) able idle_phone

set_baseline-get_example :
    let after = set_baseline 5 "phone" "r1" with_baseline in
    (get_baseline after "phone" (some (scenario_of (get_run with_baseline "r1")))
      ≡ some (the_baseline 5 "phone" (scenario_of (get_run with_baseline "r1")) "r1"))
    × ((("phone" == "phone"
            && scenario_of (get_run with_baseline "r1") == or_empty (some "shorts_browsing"))
          ≡ true)
        ⊎ (get_baseline after "phone" (some "shorts_browsing")
            ≡ get_baseline with_baseline "phone" (some "shorts_browsing")))
set_baseline-get_example =
    set_baseline-get 5 "phone" "r1" "phone" (some "shorts_browsing") with_baseline

-- A completed run of a phone without baselines.
abbrev completed_run : Run
completed_run = record waiting { status = RunStatus.completed }

found_completed : get_run (with_run completed_run) "r1" ≡ some completed_run
unfolding get_run first
found_completed = refl
