-- ===== src/Runner/Cancelled.antt =====
-- src/autoperf/runner.py, `run`: a run whose row was flagged ends.
use auto_perf.Prelude.{◌≡◌, Bool, true, false, Option, List}
use auto_perf.Models.{RunStatus}
use auto_perf.Storage.Rows.{Run}
use auto_perf.Runner.Loop.{Command, Loop}
use auto_perf.Runner.Ended.{HasStatus}

-- What the end of a stopped run amounts to: the status of its row, whether `run` raises, and what
-- the device was told.
abbrev pub StoppedAs : Option Run → Bool → Loop → List Command → Type 0
StoppedAs row true s cs = HasStatus RunStatus.failed row
StoppedAs row false s cs = HasStatus RunStatus.interrupted row × (s.commands ≡ cs)
