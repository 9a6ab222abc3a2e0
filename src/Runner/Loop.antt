-- ===== src/Runner/Loop.antt =====
-- src/autoperf/runner.py, `run`: the control loop. What the loop reads of the world in one round (the
-- clock, the futures, what other processes wrote to the database) is a `Tick`; each `put` of an item is
-- preceded by rounds of the writer's thread, which `schedule` lists.
mod State
unfoldable pub use State.*
use auto_perf.Prelude.{
  ℕ, ◌+◌, ◌-◌, String, Bool, true, false, not, ◌&&◌, ◌||◌, Option, none, some, List, [], ◌∷◌, ltb,
  leb, if◌then◌else◌,
}
use auto_perf.Models.{RunStatus, MetricSample, Kind}
use auto_perf.Storage.Rows.{Run, Event, Storage}
use auto_perf.Storage.Runs.{update_run, get_run}
use auto_perf.Writer.{Item, BatchWriter, Raised, sample, put, round, is_running}
use auto_perf.Writer.{event as event_item}
use auto_perf.Runner.Start.{Actions}
use auto_perf.Runner.Outcome.{ScenarioStep, StepResult, record_step_outcome}
use auto_perf.Runner.Sampling.{
  Collector, Sampling, submit_collectors, has_timed_out, settle_collector,
}
use auto_perf.Runner.Driving.{Driving, ActiveStep, submit_steps, step_timed_out, settle_step}

abbrev pub is_cancelled : Option Run → Bool
is_cancelled none = false
is_cancelled (some row) = row.cancel_requested

-- what happened since the round before: Ctrl+C, and other processes
abbrev pub arrive : Tick → Loop → Loop
arrive t s = record s { db = t.others s.db; stop = s.stop || t.interrupted }

module _ (r : TestRunner) where
  abbrev pub note : ℕ → Kind → Act
  note wall kind = emit (event_item (record { run_id = r.run_id; timestamp = wall; kind = kind }))

  -- `for sample in future.result(): writer.put(sample)`, and the handler round it
  unfoldable pub store_samples : ℕ → Collected → Act
  store_samples wall none = note wall Kind.collector_error
  store_samples wall (some samples) = catch (emit_samples samples) (note wall Kind.collector_error)

  -- what a finished collector leaves, with `late` for `name in timed_out`
  unfoldable pub collector_done : ℕ → String → Bool → Collected → Act
  collector_done wall name late result s =
      let s' = record s { sampling = settle_collector name s.sampling } in
      if late then going s' else store_samples wall result s'

  unfoldable pub collector_late : ℕ → String → Act
  collector_late wall name s =
      note wall Kind.collector_timeout
        (record s { sampling = record s.sampling { timed_out = name ∷ s.sampling.timed_out } })

  abbrev pub collector_polled : Tick → String → ℕ → Option Collected → Act
  collector_polled t name at (some result) s =
      collector_done t.wall name (has_timed_out name s.sampling) result s
  collector_polled t name at none s =
      if leb r.collector_timeout (t.now - at) && not (has_timed_out name s.sampling)
      then collector_late t.wall name s
      else going s

  unfoldable pub poll_collector : Tick → String → ℕ → Act
  poll_collector t name at s = collector_polled t name at (t.collected name) s

  -- `for ... in list(active.items())`
  unfoldable pub poll_collectors : Tick → List (String × ℕ) → Act
  poll_collectors t [] s = going s
  poll_collectors t ((name, at) ∷ rest) s =
      and_then (poll_collector t name at s) (poll_collectors t rest)

  unfoldable pub step_done : ℕ → ℕ → ScenarioStep → Bool → StepResult → Act
  step_done wall i step late result s =
      let s' = record s { driving = settle_step i s.driving } in
      if late then going s' else emit_events (record_step_outcome wall r.run_id step result) s'

  unfoldable pub step_late : ℕ → ℕ → Act
  step_late wall i s =
      note wall Kind.adapter_timeout
        (record s { driving = record s.driving { timed_out = i ∷ s.driving.timed_out } })

  abbrev pub step_polled : Tick → ActiveStep → Option StepResult → Act
  step_polled t (i, at, step) (some result) s =
      step_done t.wall i step (step_timed_out i s.driving) result s
  step_polled t (i, at, step) none s =
      if leb r.adapter_action_timeout (t.now - at) && not (step_timed_out i s.driving)
      then step_late t.wall i s
      else going s

  unfoldable pub poll_step : Tick → ActiveStep → Act
  poll_step t entry s = step_polled t entry (t.finished entry.0) s

  unfoldable pub poll_steps : Tick → List ActiveStep → Act
  poll_steps t [] s = going s
  poll_steps t (entry ∷ rest) s = and_then (poll_step t entry s) (poll_steps t rest)

  unfoldable pub submit_sampling : Tick → Act
  submit_sampling t s =
      going (record s { sampling = submit_collectors t.now r.collectors s.sampling })

  unfoldable pub submit_driving : Tick → Act
  submit_driving t s =
      going (record s { driving = submit_steps t.now (t.now - r.started) s.driving })

  -- `checkpoint=str(now - started)`, with Python's printing of a number as a parameter
  unfoldable pub heartbeat : (ℕ → String) → Tick → Act
  heartbeat str t s =
      if leb r.heartbeat_interval (t.now - s.last_heartbeat)
      then going (record s {
        last_heartbeat = t.now;
        beats = s.beats + 1;
        db =
            update_run t.wall r.run_id RunStatus.running (some (str (t.now - r.started))) none s.db;
      })
      else going s

  -- the body of the loop after the look at `cancel_requested`
  unfoldable pub body : (ℕ → String) → Tick → Act
  body str t s =
      ((λ s. poll_collectors t s.sampling.active s)
          >> submit_sampling t
          >> (λ s. poll_steps t s.driving.active s)
          >> submit_driving t
          >> heartbeat str t)
        s

  unfoldable pub check_cancel : Tick → Loop → Loop
  check_cancel t s =
      if leb r.cancel_check_interval (t.now - s.last_cancel_check)
      then record s { last_cancel_check = t.now; stop = is_cancelled (get_run s.db r.run_id) }
      else s

  -- `not stop and time.monotonic() - started < duration`
  abbrev pub goes_on : Tick → Loop → Bool
  goes_on t s = not s.stop && ltb (t.checked - r.started) r.duration

  -- The rounds that a list of ticks drives; `none` while the loop has not ended.
  unfoldable pub rounds : (ℕ → String) → List Tick → Loop → Option Outcome
  rounds str [] s = none
  rounds str (t ∷ ts) s =
      let here = arrive t s in
      elim (goes_on t here) [
        | false ↦ some (going here)
        | true ↦
            let looked = check_cancel t here in
            elim looked.stop [
              | true ↦ some (going looked)
              | false ↦ elim (body str t looked) [
                | going s' ↦ rounds str ts s'
                | raised s' ↦ some (raised s')
              ]
            ]
      ]
