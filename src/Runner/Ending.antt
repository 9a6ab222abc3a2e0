-- ===== src/Runner/Ending.antt =====
-- src/autoperf/runner.py, `run`: from the claim of the device to the run's last status.
use auto_perf.Prelude.{
  ℕ, suc, String, Bool, true, false, ◌||◌, ◌&&◌, not, Option, none, some, List, [], ◌∷◌, ◌++◌, ◌==◌,
  if◌then◌else◌, length, is_none,
}
use auto_perf.Models.{RunStatus, Kind}
use auto_perf.Storage.Rows.{Storage}
use auto_perf.Storage.Runs.{update_run, set_run_app_version}
use auto_perf.Writer.{BatchWriter, Raised, close, new, run_rounds}
use auto_perf.Runner.Start.{Actions}
use auto_perf.Runner.Outcome.{ScenarioStep, StepResult, record_step_outcome}
use auto_perf.Runner.Sampling.{has_timed_out}
use auto_perf.Runner.Driving.{ActiveStep, sort_steps, step_timed_out}
use auto_perf.Runner.Loop.{
  TestRunner, Command, stop_app, home, shutdown, Loop, Collected, Tick, Outcome, going, raised, Act,
  and_then, ◌>>◌, work, next_work, emit_events, note, store_samples, rounds,
}

-- What the end of a run reads of the world: the clock on the wall; whether Ctrl+C came at the loop's
-- end, and later while calls in flight were waited for; whether each try to quiet the app fails; the
-- futures that were not cancelled; the rounds of the writer's thread up to its join; and what
-- other processes did to the database until the status is written.
pub record Close : Type 0 where
  pub wall : ℕ
  pub elapsed : ℕ
  pub interrupted : Bool
  pub interrupted_late : Bool
  pub first_stop_fails : Bool
  pub stop_fails : Bool
  pub collected : String → Option Collected
  pub finished : ℕ → Option StepResult
  pub joined : List Bool
  pub others : Storage → Storage

-- `scenario[0].kwargs.get("package") if scenario else None`, as a condition: the empty text is none
abbrev pub non_empty : Option String → Option String
non_empty none = none
non_empty (some p) = if p == "" then none else some p

unfoldable pub driven_package : List ScenarioStep → Option String
driven_package [] = none
driven_package (step ∷ rest) = non_empty step.app_package

abbrev pub quieting : Option String → Command
quieting none = home
quieting (some p) = stop_app p

-- the first `launch_app` step with a package
unfoldable pub launched_package : List ScenarioStep → Option String
launched_package [] = none
launched_package (step ∷ rest) =
    let later = launched_package rest in
    if step.action == "launch_app"
    then elim (non_empty step.app_package) [ none ↦ later | some p ↦ some p ]
    else later

-- `self.adapter is not None`
abbrev pub has_adapter : Option Actions → Bool
has_adapter adapter = not (is_none adapter)

-- what `uiauto.package_version` answers about a package; `none` where it raises
abbrev pub AppVersion : Type 0
AppVersion = Option (Option (Option String × Option String × Option ℕ))

-- `writer.close()`: the stop request, the join (the rounds that `last` lists, and then those that
-- the thread still has to go, in which the database takes each batch), and the thread's error
abbrev pub joined : List Bool → Loop → BatchWriter × Option Raised → Outcome
joined last s (w, some e) = raised (record s { writer = w })
joined last s (w, none) =
    let late = work last w in
    let ended = record s { writer = run_rounds (suc (length late.queue)) late } in
    if ended.writer.error then raised ended else going ended

unfoldable pub close_writer : Close → Act
close_writer e s = joined e.joined s (close (work (next_work s.schedule) s.writer))

abbrev pub interrupt : Bool → Act
interrupt came s = going (record s { stop = s.stop || came })

abbrev pub final_status : Bool → RunStatus
final_status true = RunStatus.interrupted
final_status false = RunStatus.completed

module _ (r : TestRunner) where
  unfoldable pub stop_driven_app : ℕ → Bool → Act
  unfolding driven_package
  stop_driven_app wall fails s =
      if has_adapter r.adapter
      then (let s' = record s {
        commands = s.commands ++ quieting (driven_package r.scenario) ∷ [];
      } in
          if fails then note r wall Kind.adapter_error s' else going s')
      else going s

  abbrev pub version_read : ℕ → Option String → AppVersion → Act
  version_read wall none version s = going s
  version_read wall (some p) none s = note r wall Kind.app_version_unavailable s
  version_read wall (some p) (some version) s =
      going (record s { db = set_run_app_version r.run_id version s.db })

  unfoldable pub record_app_version : ℕ → AppVersion → Act
  unfolding launched_package
  record_app_version wall version s = version_read wall (launched_package r.scenario) version s

  -- the collectors still active, after `executor.shutdown`
  abbrev pub collector_left : Close → String → Option Collected → Act
  collector_left e name none s = going s
  collector_left e name (some result) s =
      if has_timed_out name s.sampling then going s else store_samples r e.wall result s

  unfoldable pub settle_collectors : Close → List (String × ℕ) → Act
  settle_collectors e [] s = going s
  settle_collectors e ((name, at) ∷ rest) s =
      and_then (collector_left e name (e.collected name) s) (settle_collectors e rest)

  abbrev pub step_left : Close → ActiveStep → Option StepResult → Act
  step_left e entry none s = going s
  step_left e (i, at, step) (some result) s =
      if step_timed_out i s.driving
      then going s
      else emit_events (record_step_outcome e.wall r.run_id step result) s

  unfoldable pub settle_steps : Close → List ActiveStep → Act
  settle_steps e [] s = going s
  settle_steps e (entry ∷ rest) s =
      and_then (step_left e entry (e.finished entry.0) s) (settle_steps e rest)

  -- `if stop: self._stop_driven_app(...)`, and the press of Home at the end
  abbrev pub quiet_early : Close → Act
  quiet_early e s = if s.stop then stop_driven_app e.wall e.first_stop_fails s else going s

  abbrev pub press_home : Bool → Act
  press_home stopped s =
      if stopped && has_adapter r.adapter
      then going (record s { commands = s.commands ++ home ∷ [] })
      else going s

  -- `executor.shutdown(wait=True, cancel_futures=True)`
  abbrev pub shut_down : Act
  shut_down s = going (record s { commands = s.commands ++ shutdown ∷ [] })

  -- from the loop's end to `writer.close()`
  unfoldable pub wind_down : Close → Act
  wind_down e s =
      (interrupt e.interrupted
          >> quiet_early e
          >> shut_down
          >> (λ s. settle_collectors e s.sampling.active s)
          >> (λ s. settle_steps e s.driving.active s)
          >> interrupt e.interrupted_late
          >> stop_driven_app e.wall e.stop_fails
          >> (λ s. press_home s.stop s)
          >> note r e.wall Kind.lifecycle
          >> close_writer e)
        s

  -- before the first round
  unfoldable pub begin : List (List Bool) → AppVersion → ℕ → Storage → Outcome
  unfolding sort_steps
  begin schedule version wall db =
      (note r wall Kind.lifecycle >> record_app_version wall version) (record {
        db = db;
        writer = new 100 10_000;
        schedule = schedule;
        stop = false;
        last_cancel_check = r.started;
        last_heartbeat = r.started;
        beats = 0;
        sampling = record { due = λ name. r.started; active = []; timed_out = []; sampled = [] };
        driving = record {
          active = [];
          timed_out = [];
          next_step = 0;
          waiting = sort_steps r.scenario;
          driven = [];
        };
        commands = [];
      })

  -- the last `update_run`; the second component tells whether `run` raises. The text of the
  -- exception is left out.
  unfoldable pub conclude : (ℕ → String) → Close → Outcome → Storage × Bool
  conclude str e (going s) = (
    update_run e.wall r.run_id (final_status s.stop) (some (str e.elapsed)) none (e.others s.db),
    false,
  )
  conclude str e (raised s) =
      (update_run e.wall r.run_id RunStatus.failed none (some "error") (e.others s.db), true)

  -- `try: ... except Exception`, from the first event on; `none` while the loop has not ended
  abbrev pub after_loop : (ℕ → String) → Close → Option Outcome → Option (Storage × Bool)
  after_loop str e none = none
  after_loop str e (some o) = some (conclude str e (and_then o (wind_down e)))

  abbrev pub looped : (ℕ → String) → List Tick → Outcome → Option Outcome
  looped str ticks (going s) = rounds r str ticks s
  looped str ticks (raised s) = some (raised s)

  unfoldable pub run_started :
      (ℕ → String)
      → List (List Bool)
      → AppVersion
      → ℕ
      → List Tick
      → Close
      → Storage
      → Option (Storage × Bool)
  run_started str schedule version wall ticks e db =
      after_loop str e (looped str ticks (begin schedule version wall db))
