-- ===== src/Lib.antt =====
-- A model of AutoPerf, which drives Android devices and records their performance, and of what it
-- promises about devices, runs and campaigns.
--
-- The program keeps everything in one SQLite file (src/autoperf/storage.py). Its processes (the
-- command line, the web server, the Celery workers) share that file and nothing else, so each
-- transaction is here a function on the state `Storage`, and what the processes do together is a
-- sequence of transactions (`Reach` of Storage/Reach).
--
-- - Models: statuses, origins, samples and event kinds (src/autoperf/models.py).
-- - Storage: src/autoperf/storage.py. Rows has the tables; Runs, Claims, Queue, Campaigns and
--   Baselines have an operation for each method, under the method's name. Exclusive has the
--   invariant, RunClaims and PreflightClaims what a claim does to it, PreflightGrants when a
--   preflight is granted its device, Release what the release of abandoned rows does, Inserted
--   what new rows do, Baselined what a baseline does, Judged joins the verdict on many runs of
--   Qualities with that on one, Aggregates is `aggregate_samples`, and Reach all of it together.
-- - Dispatch: the dispatcher of webapp/dashboard/services.py, and the cancelling of a run.
-- - Dashboard: `get_dashboard_stats` of webapp/dashboard/services.py, and Counted about its counts.
-- - Runner: src/autoperf/runner.py. Start is `run` up to its first event, Loop its control loop (with
--   Sampling for the collectors and Driving for the scenario's steps), Ending what comes before and
--   after the loop, Run the whole, and Outcome `_record_step_outcome`. Frame says what the parts of
--   a round leave alone and Rounds is a proof rule for the loop; Plan and Scheduled are about the
--   steps, Spaced and Sampled about the collectors, Ended, Stopped and Cancelled about the end.
--   Quality joins Outcome with the storage's `run_quality`, and Resurrection joins Start with the
--   operations that cancel and delete a run.
-- - Writer: `BatchWriter` of src/autoperf/storage.py. `round` is one turn of the loop of `_run`.
-- - Campaigns and Scenarios: src/autoperf/campaigns.py and the registry of
--   src/autoperf/scenarios/youtube.py. Execute is `execute_campaign` over the whole of a run;
--   Executed is about one of its turns, Sweep and Swept about all of them, and Orphaned about a campaign that
--   is deleted in between. Repeat is `repeat_analysis`, and Flaky is about its counts.
-- - Analyzer: src/autoperf/analyzer.py. The comparison of two runs, Stats for a run's statistics, and
--   Versions for `app_version_delta`; Grouped and Agreed join Stats with Storage/Aggregates. Floats are the
--   parameter `Arithmetic` of Prelude/Floats.
-- - UiAuto: how a target is found on a screen (src/autoperf/uiauto.py); Found says what the lookups
--   answer. Python's `str.lower` is a parameter, and a coordinate is a fraction in thousandths.
-- - Adapters: src/autoperf/adapters.py. Lookup is `_resolve` and `tap_element` on a phone, Focus is
--   `tap_element` on a television; Retries, Trusted and Reached are about them. Polling has
--   the checks that wait for a state or for playback, and Polled and States are about them. What a device
--   shows is an argument, one screen for each dump.
-- - Workers: `DeviceSupervisor` of src/autoperf/workers.py. Supervised and Watched are about a pass of its
--   loop, Opened about the rows and workers that it starts with, Ends about the end of the loop, and
--   Over about the whole of `run_many`.
-- - Preflight: src/autoperf/preflight.py. Grade is `_check_target`, Walk is `check_scenario`, and
--   Trail is about which targets are graded on a lost or locked screen; Cover is `covering_scenarios`, whose
--   `targets_of` is a parameter, and Covered is about it, with the lemmas of Members. Summary is
--   `summarise`; Tally, Placed and Verdict are about it. Session is the loop of `run_preflight`.
-- - Tasks: `run_test_task` of webapp/dashboard/tasks.py, before and after its run; Revived is about
--   the task of a deleted run, Seeded about the baseline that a run leaves. Checking is
--   `run_preflight_task`; Covered says which scenarios it grades, and Checked is about the whole.
-- - Tests: runs of the definitions at concrete inputs.
--
-- Conventions. A table is the list of its rows in rowid order. The clock is an argument `now` of
-- each transaction, in microseconds, and an id that uuid4 draws is an argument too. A primary key
-- that is taken is `none`. A duration is a whole number of microseconds, a metric's value a whole
-- number of thousandths. The calls of one method see one `now`.
--
-- The runner's loop is driven by a list of rounds (`Tick`): the clock, the futures that are done,
-- whether Ctrl+C came, and what other processes did to the database since the round before. The
-- writer's thread moves between any two calls of `put`, as a schedule says. A call of the database
-- does not fail; a call of `put` can.
--
-- Fuel. The control loop takes one `Tick` for each round; a list with a round after the run's
-- duration is long enough. The supervisor takes one `Pass` for each turn, the checks that wait one
-- unit for each reading; a list or a number that reaches the time at which they end is long enough.
-- `run_rounds` of the writer takes one unit for each round of the thread. Each round takes one
-- entry off the queue, so one unit for each item and one for the stop request are enough. The loops
-- of the adapters are bounded in the source (`resolve_attempts`, `max_focus_steps`) and run on
-- those bounds. `cover` of the preflight takes one unit for each turn, and has one for each target,
-- since a turn that covers none is the last.
--
-- Not modelled: the details and messages of events, the seconds that dumps took, the shell commands of adapters and collectors,
-- the parsing of screens, the trends of long runs, the migrations of older databases, HTTP, the
-- command line and the front end.
pub mod Prelude
pub mod Models
pub mod Storage
pub mod Dispatch
pub mod Dashboard
pub mod Runner
pub mod Writer
pub mod Workers
pub mod Scenarios
pub mod UiAuto
pub mod Adapters
pub mod Preflight
pub mod Campaigns
pub mod Analyzer
pub mod Tasks
mod Tests
