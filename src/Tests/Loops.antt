-- ===== src/Tests/Loops.antt =====
-- A run of three rounds: one collector, two steps, and the end of its time.
use auto_perf.Prelude.{
  String, ℕ, ◌≡◌, refl, true, false, Option, none, some, List, [], ◌∷◌, ◌++◌, map,
}
use auto_perf.Prelude.Count.{all, any, select, first, delete_where, update_where}
use auto_perf.Storage.Rows.{Run}
use auto_perf.Storage.Runs.{get_run, update_run}
use auto_perf.Writer.{put, new}
use auto_perf.Runner.Outcome.{ScenarioStep, returned, record_step_outcome}
use auto_perf.Runner.Sampling.{Collector, settle_collector, submit_collector, submit_collectors}
use auto_perf.Runner.Driving.{settle_step, insert_step, sort_steps, submit_from, submit_steps}
use auto_perf.Runner.Loop.{
  TestRunner, Loop, Tick, Outcome, going, work, emit, emit_samples, emit_events, store_samples,
  collector_done, poll_collector, poll_collectors, step_done, poll_step, poll_steps,
  submit_sampling, submit_driving, heartbeat, check_cancel, body, rounds,
}
use auto_perf.Runner.Ending.{launched_package, record_app_version, Close, begin, looped}
use auto_perf.Runner.Frame.{left}
use auto_perf.Runner.Plan.{IsInOrder, is_due, is_later, at_time}
use auto_perf.Runner.Spaced.{IsSpaced, is_served}
use auto_perf.Runner.Scheduled.{plan, looped-IsInOrder}
use auto_perf.Runner.Sampled.{round_submits_exact, looped-IsSpaced}
use auto_perf.Runner.Rounds.{is_last}
use auto_perf.Runner.Run.{World, run}
use auto_perf.Runner.Ended.{Ends, looped_ends, run-Ends}
use auto_perf.Tests.Rows.{waiting, with_run}

abbrev pub launch : ScenarioStep
launch = record { at = 0; action = "launch_app"; target = none; app_package = some "app" }

abbrev pub tap_later : ScenarioStep
tap_later = record { at = 20; action = "tap"; target = none; app_package = none }

abbrev pub cpu : Collector
cpu = record { name = "cpu"; interval = 10 }

abbrev pub runner : TestRunner
runner = record {
  run_id = "r1";
  started = 100;
  duration = 60;
  collectors = cpu ∷ [];
  collector_timeout = 15;
  adapter = some (λ action. true);
  scenario = tap_later ∷ launch ∷ [];
  adapter_action_timeout = 10;
  cancel_check_interval = 5;
  heartbeat_interval = 30;
}

abbrev pub tick : ℕ → Tick
tick now = record {
  interrupted = false;
  others = λ db. db;
  checked = now;
  now = now;
  wall = now;
  collected = λ name. some (some []);
  finished = λ i. some (returned none);
}

abbrev pub ticks : List Tick
ticks = tick 100 ∷ tick 112 ∷ tick 121 ∷ tick 160 ∷ []

abbrev pub digits : ℕ → String
digits n = "n"

pub over : any (is_last runner) ticks ≡ true
unfolding any
over = refl

abbrev start_state : Outcome
start_state = begin runner [] none 100 (with_run waiting)

abbrev at_end : Outcome
at_end = (looped_ends runner digits ticks start_state over).0

looped-IsInOrder_example : IsInOrder runner.scenario (plan (left at_end))
looped-IsInOrder_example =
    looped-IsInOrder runner digits [] none 100 ticks (with_run waiting)
      (looped_ends runner digits ticks start_state over).1

looped-IsSpaced_example : IsSpaced (left at_end).sampling.sampled
looped-IsSpaced_example =
    looped-IsSpaced runner digits [] none 100 ticks (with_run waiting)
      (looped_ends runner digits ticks start_state over).1

abbrev driven_by : Option Outcome → List (ScenarioStep × ℕ)
driven_by none = []
driven_by (some o) = (left o).driving.driven

abbrev sampled_by : Option Outcome → List (Collector × ℕ)
sampled_by none = []
sampled_by (some o) = (left o).sampling.sampled

-- The launch at once, the tap in the first round after its time; the collector every ten.
loop_drives :
    (driven_by (looped runner digits ticks start_state) ≡ (launch, 0) ∷ (tap_later, 21) ∷ [])
    × (sampled_by (looped runner digits ticks start_state) ≡ (cpu, 112) ∷ (cpu, 100) ∷ [])
unfolding begin launched_package record_app_version rounds body check_cancel poll_collectors
    poll_collector collector_done store_samples emit_samples emit emit_events work put any
    delete_where settle_collector submit_sampling submit_collectors submit_collector poll_steps
    poll_step step_done settle_step record_step_outcome submit_driving submit_steps submit_from
    heartbeat insert_step sort_steps get_run first update_run update_where new
loop_drives = (refl, refl)

abbrev first_state : Loop
first_state = left start_state

begun-IsInOrder : IsInOrder runner.scenario (plan first_state)
unfolding begin launched_package record_app_version emit work put insert_step sort_steps new
begun-IsInOrder = record { in_order = refl; on_time = tt; counted = refl }

abbrev after_first : Loop
after_first = left (body runner digits (tick 100) first_state)

first_round : body runner digits (tick 100) first_state ≡ going after_first
unfolding begin launched_package record_app_version rounds body check_cancel poll_collectors
    poll_collector collector_done store_samples emit_samples emit emit_events work put any
    delete_where settle_collector submit_sampling submit_collectors submit_collector poll_steps
    poll_step step_done settle_step record_step_outcome submit_driving submit_steps submit_from
    heartbeat insert_step sort_steps get_run first update_run update_where new
first_round = refl

round_submits_exact_example :
    (after_first.driving.driven
      ≡ first_state.driving.driven
        ++ map (at_time 0) (select (is_due 0) first_state.driving.waiting))
    × (after_first.driving.waiting ≡ select (is_later 0) first_state.driving.waiting)
    × (all (λ c. is_served 100 c after_first.sampling) runner.collectors ≡ true)
round_submits_exact_example =
    round_submits_exact runner digits (tick 100) first_state begun-IsInOrder first_round

abbrev pub finish : Close
finish = record {
  wall = 161;
  elapsed = 60;
  interrupted = false;
  interrupted_late = false;
  first_stop_fails = false;
  stop_fails = false;
  collected = λ name. none;
  finished = λ i. none;
  joined = [];
  others = λ db. db;
}

abbrev pub world : World
world = record {
  claimed_at = 99;
  schedule = [];
  version = none;
  wall = 100;
  ticks = ticks;
  close = finish;
}

run-Ends_example : Ends "r1" (run runner digits "phone" true world (with_run waiting))
run-Ends_example = run-Ends runner digits "phone" true world (with_run waiting) over

abbrev flagged : Run
flagged = record waiting { cancel_requested = true }

abbrev flagging : Tick
flagging = record (tick 112) { others = λ db. with_run flagged }
