-- ===== src/Workers.antt =====
-- src/autoperf/workers.py, DeviceSupervisor: one process for each device, and the loop that watches them.
-- What the processes do is an argument, pass by pass of the loop. Times of the monotonic clock are
-- in microseconds. A set of runs is visited in the order in which they were made.
pub mod Supervised
pub mod Watched
pub mod Opened
pub mod Ends
pub mod Over
use auto_perf.Prelude.{
  ℕ, zero, suc, ◌-◌, String, Bool, true, false, not, ◌||◌, Option, none, some, List, [], ◌∷◌, ◌++◌,
  ◌==◌, ltb, leb, if◌then◌else◌,
}
use auto_perf.Prelude.Count.{any}
use auto_perf.Prelude.Int.{ℤ, pos, same_int}
use auto_perf.Models.{RunStatus, RunOrigin, is_errored}
use auto_perf.Storage.Rows.{Run, Storage}
use auto_perf.Storage.Runs.{new_run, create_run, update_run, get_run}

-- an entry of `processes`
pub record Worker : Type 0 where
  pub run_id : String
  pub serial : String

-- one pass of the loop: what the other processes did to the database since the pass before, the
-- heartbeat that was read, both clocks, and the exit code of each process that is not alive
pub record Pass : Type 0 where
  pub others : Storage → Storage
  pub beat : Option (String × ℕ)
  pub monotonic : ℕ
  pub utc : ℕ
  pub exited : String → Option ℤ

pub record Watch : Type 0 where
  pub alive : List Worker
  pub last_seen : String → ℕ
  pub db : Storage

-- `last_seen[run_id] = timestamp`
abbrev pub see : String → ℕ → (String → ℕ) → String → ℕ
see run_id timestamp last_seen = λ s. if s == run_id then timestamp else last_seen s

abbrev pub heard : Option (String × ℕ) → (String → ℕ) → String → ℕ
heard none last_seen = last_seen
heard (some (run_id, timestamp)) last_seen = see run_id timestamp last_seen

abbrev pub fail_run : ℕ → String → String → Storage → Storage
fail_run utc run_id error db = update_run utc run_id RunStatus.failed none (some error) db

-- `process.exitcode` as a condition
abbrev pub is_nonzero : ℤ → Bool
is_nonzero code = not (same_int code (pos 0))

-- the row of a worker that exited with a code that is not 0; the subscript of None raises
abbrev pub report : ℕ → String → Option Run → Storage → Option Storage
report utc run_id none db = none
report utc run_id (some r) db =
    if is_errored r.status then some db else some (fail_run utc run_id "worker exited" db)

abbrev pub settle_exit : ℕ → String → ℤ → Storage → Option Storage
settle_exit utc run_id code db =
    if is_nonzero code then report utc run_id (get_run db run_id) db else some db

abbrev pub is_silent : ℕ → ℕ → ℕ → Bool
is_silent timeout monotonic seen = ltb timeout (monotonic - seen)

module _ (timeout : ℕ) (p : Pass) (last_seen : String → ℕ) where
  -- a worker that is no longer in `alive` after this pass, by its exit code
  abbrev pub is_over : Worker → Option ℤ → Bool
  is_over w none = is_silent timeout p.monotonic (last_seen w.run_id)
  is_over w (some code) = true

  abbrev pub stays : Worker → Bool
  stays w = not (is_over w (p.exited w.run_id))

  -- what the pass writes for a worker, `none` where it raises
  abbrev pub written : Worker → Option ℤ → Storage → Option Storage
  written w (some code) db = settle_exit p.utc w.run_id code db
  written w none db =
      if is_silent timeout p.monotonic (last_seen w.run_id)
      then some (fail_run p.utc w.run_id "worker heartbeat timed out" db)
      else some db

  abbrev pub keep : Bool → Worker → Option (List Worker × Storage) → Option (List Worker × Storage)
  keep stays w none = none
  keep stays w (some (ws, db)) = some (if stays then w ∷ ws else ws, db)

  -- `for run_id in list(alive)`
  unfoldable pub check_alive : List Worker → Storage → Option (List Worker × Storage)
  check_alive [] db = some ([], db)
  check_alive (w ∷ ws) db = elim (written w (p.exited w.run_id) db) [
    | none ↦ none
    | some db' ↦ keep (stays w) w (check_alive ws db')
  ]

abbrev pub watched : (String → ℕ) → Option (List Worker × Storage) → Option Watch
watched last_seen none = none
watched last_seen (some (ws, db)) = some (record { alive = ws; last_seen = last_seen; db = db })

-- one pass, `none` where it raises
unfoldable pub pass : ℕ → Pass → Watch → Option Watch
unfolding check_alive
pass timeout p s =
    let last_seen = heard p.beat s.last_seen in
    watched last_seen (check_alive timeout p last_seen s.alive (p.others s.db))

-- an exception, no worker is left, or the passes given are used up
pub data Ending : Type 0 where
  raised : Ending
  all_over : Storage → Ending
  watching : Watch → Ending

abbrev pub is_nobody : List Worker → Bool
is_nobody [] = true
is_nobody (w ∷ ws) = false

-- `while alive`
unfoldable pub supervise : ℕ → List Pass → Watch → Ending
unfolding pass
supervise timeout [] s = if is_nobody s.alive then all_over s.db else watching s
supervise timeout (p ∷ ps) s =
    if is_nobody s.alive
    then all_over s.db
    else elim (pass timeout p s) [ none ↦ raised | some s' ↦ supervise timeout ps s' ]

-- `len(serials) != len(set(serials))`
unfoldable pub has_duplicate : List String → Bool
has_duplicate [] = false
has_duplicate (s ∷ ss) = any (λ t. t == s) ss || has_duplicate ss

-- the rows and the first heartbeats, with the ids that uuid4 draws and the clock's readings
abbrev pub opened : Worker → ℕ → Option Watch → Option Watch
opened w started none = none
opened w started (some s) =
    some (record s { alive = s.alive ++ w ∷ []; last_seen = see w.run_id started s.last_seen })

abbrev pub add_row : Worker → Watch → Option Storage → Option Watch
add_row w s none = none
add_row w s (some db) = some (record s { db = db })

-- `drawn` has the id and the clock for each serial
unfoldable pub open_workers : (ℕ → String × ℕ) → ℕ → List String → Watch → Option Watch
open_workers drawn i [] s = some s
open_workers drawn i (serial ∷ serials) s =
    let w : Worker = record { run_id = (drawn i).0; serial = serial } in
    let row = new_run w.run_id serial none none RunOrigin.unknown none none in
    elim (opened w (drawn i).1 (add_row w s (create_run row s.db))) [
      | none ↦ none
      | some s' ↦ open_workers drawn (suc i) serials s'
    ]

-- class WorkerResult
pub record WorkerResult : Type 0 where
  pub run_id : String
  pub serial : String
  pub exit_code : ℤ

abbrev pub exit_code : Option ℤ → ℤ
exit_code none = pos 0
exit_code (some code) = code

unfoldable pub results : (String → Option ℤ) → List Worker → List WorkerResult
results codes [] = []
results codes (w ∷ ws) =
    record { run_id = w.run_id; serial = w.serial; exit_code = exit_code (codes w.run_id) }
    ∷ results codes ws

-- ValueError, another exception, the list of results, or not at the end yet
pub data ManyRuns : Type 0 where
  refused failed_midway unfinished : ManyRuns
  finished_all : List WorkerResult → Storage → ManyRuns

abbrev pub many_ended : (String → Option ℤ) → List Worker → Ending → ManyRuns
many_ended codes workers raised = failed_midway
many_ended codes workers (all_over db) = finished_all (results codes workers) db
many_ended codes workers (watching s) = unfinished

abbrev pub no_one : Storage → Watch
no_one db = record { alive = []; last_seen = λ s. 0; db = db }

abbrev pub watch_over : ℕ → List Pass → (String → Option ℤ) → Option Watch → ManyRuns
watch_over timeout passes codes none = failed_midway
watch_over timeout passes codes (some s) = many_ended codes s.alive (supervise timeout passes s)

abbrev pub is_allowed : List String → Bool
is_allowed [] = false
is_allowed (s ∷ ss) = not (has_duplicate (s ∷ ss))

unfoldable pub run_many :
    ℕ → (ℕ → String × ℕ) → List Pass → (String → Option ℤ) → List String → Storage → ManyRuns
unfolding open_workers supervise results has_duplicate
run_many timeout drawn passes codes serials db =
    if is_allowed serials
    then watch_over timeout passes codes (open_workers drawn 0 serials (no_one db))
    else refused
