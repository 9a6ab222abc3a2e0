-- ===== src/Runner/Loop/State.antt =====
-- src/autoperf/runner.py, `run`: the state of the control loop, and a `put` with the writer's thread.
use auto_perf.Prelude.{ℕ, String, Bool, Option, none, some, List, [], ◌∷◌, if◌then◌else◌}
use auto_perf.Models.{MetricSample}
use auto_perf.Storage.Rows.{Event, Storage}
use auto_perf.Writer.{Item, BatchWriter, Raised, sample, put, round, is_running}
use auto_perf.Writer.{event as event_item}
use auto_perf.Runner.Start.{Actions}
use auto_perf.Runner.Outcome.{ScenarioStep, StepResult}
use auto_perf.Runner.Sampling.{Collector, Sampling}
use auto_perf.Runner.Driving.{Driving}

-- class TestRunner, and the arguments of `run`; times are in microseconds, `started` is the clock at
-- the start of the loop
pub record TestRunner : Type 0 where
  pub run_id : String
  pub started : ℕ
  pub duration : ℕ
  pub collectors : List Collector
  pub collector_timeout : ℕ
  pub adapter : Option Actions
  pub scenario : List ScenarioStep
  pub adapter_action_timeout : ℕ
  pub cancel_check_interval : ℕ
  pub heartbeat_interval : ℕ

-- a command that the runner itself gives the device, or `executor.shutdown`, which waits until the calls
-- in flight are over
pub data Command : Type 0 where
  stop_app : String → Command
  home shutdown : Command

-- The loop's variables with what it writes to: the database, the writer and its thread's rounds to come,
-- and the commands in their order. `beats` counts the checkpoints written.
pub record Loop : Type 0 where
  pub db : Storage
  pub writer : BatchWriter
  pub schedule : List (List Bool)
  pub stop : Bool
  pub last_cancel_check : ℕ
  pub last_heartbeat : ℕ
  pub beats : ℕ
  pub sampling : Sampling
  pub driving : Driving
  pub commands : List Command

-- `future.result()` of a collector: its samples, or `none` where it raised
abbrev pub Collected : Type 0
Collected = Option (List MetricSample)

-- One round: whether Ctrl+C came before it, what other processes did to the database, the clock at the
-- loop's condition and in its body, the clock on the wall, and the futures that are done.
pub record Tick : Type 0 where
  pub interrupted : Bool
  pub others : Storage → Storage
  pub checked : ℕ
  pub now : ℕ
  pub wall : ℕ
  pub collected : String → Option Collected
  pub finished : ℕ → Option StepResult

-- How a part of the loop ends: it goes on, or an exception leaves the loop.
pub data Outcome : Type 0 where
  going : Loop → Outcome
  raised : Loop → Outcome

abbrev pub Act : Type 0
Act = Loop → Outcome

abbrev pub and_then : Outcome → Act → Outcome
and_then (going s) k = k s
and_then (raised s) k = raised s

infixl 5 ◌>>◌
abbrev pub ◌>>◌ : Act → Act → Act
◌>>◌ m k s = and_then (m s) k

-- `try: m; except Exception: handler`
abbrev pub handled : Outcome → Act → Outcome
handled (going s) handler = going s
handled (raised s) handler = handler s

abbrev pub catch : Act → Act → Act
catch m handler s = handled (m s) handler

-- rounds of the writer's thread, each with whether the database takes its batch
unfoldable pub work : List Bool → BatchWriter → BatchWriter
work [] w = w
work (succeeds ∷ rest) w = work rest (if is_running w then round succeeds w else w)

abbrev pub next_work : List (List Bool) → List Bool
next_work [] = []
next_work (w ∷ ws) = w

abbrev pub later_work : List (List Bool) → List (List Bool)
later_work [] = []
later_work (w ∷ ws) = ws

abbrev pub put_outcome : Loop → BatchWriter × Option Raised → Outcome
put_outcome s (w, none) = going (record s { writer = w; schedule = later_work s.schedule })
put_outcome s (w, some e) = raised (record s { writer = w; schedule = later_work s.schedule })

-- `writer.put(item)`
unfoldable pub emit : Item → Act
unfolding work
emit item s = put_outcome s (put item (work (next_work s.schedule) s.writer))

unfoldable pub emit_samples : List MetricSample → Act
emit_samples [] s = going s
emit_samples (x ∷ xs) s = and_then (emit (sample x) s) (emit_samples xs)

unfoldable pub emit_events : List Event → Act
emit_events [] s = going s
emit_events (e ∷ es) s = and_then (emit (event_item e) s) (emit_events es)
