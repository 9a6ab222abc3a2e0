-- ===== src/Workers/Over.antt =====
-- src/autoperf/workers.py, `run_many`: which lists it refuses, when it ends, and the results it then gives.
use auto_perf.Prelude.{◌≤◌, String, ◌≡◌, ◌⊎◌, Option, List, [], ◌==◌, map}
use auto_perf.Prelude.Count.{count}
use auto_perf.Prelude.Int.{ℤ}
use auto_perf.Storage.Rows.{Storage}
use auto_perf.Workers.{WorkerResult, ManyRuns, exit_code, finished_all}

-- No serial, or one that is there twice.
abbrev pub IsUnusable : List String → Type 0
IsUnusable serials = (serials ≡ []) ⊎ ((serial : String) × (2 ≤ count (λ t. t == serial) serials))

-- A result for each serial, in order, with the run's id and the exit code of its process.
abbrev pub IsFinished : (String → Option ℤ) → List String → List String → ManyRuns → Type 0
IsFinished codes ids serials result =
    (given : List WorkerResult) × (db' : Storage) × (result ≡ finished_all given db')
    × (map (λ r. r.serial) given ≡ serials)
    × (map (λ r. r.run_id) given ≡ ids)
    × (map (λ r. r.exit_code) given ≡ map (λ id. exit_code (codes id)) ids)
