-- ===== src/Runner/Resurrection.antt =====
-- src/autoperf/runner.py and webapp/dashboard/services.py: a run that was cancelled or deleted
-- does not come back.
use mathlib.Core.Path.{subst}
use auto_perf.Prelude.{
  ℕ, String, ◌≡◌, refl, ap, ◌≢◌, inl, inr, Bool, true, Option, none, some, List, [], ◌∷◌, arith,
  ◌==◌, Bool-cases,
}
use auto_perf.Prelude.Count.{first, update_where, delete_where, all, first-update, first-passes}
use auto_perf.Models.{RunStatus}
use auto_perf.Storage.Rows.{Run, Storage}
use auto_perf.Storage.Runs.{has_id, get_run, update_run, stamp, request_cancel, delete_run}
use auto_perf.Dispatch.{
  Cancelled, interrupted, cancelling, nothing_to_cancel, cancel_found, cancel_run,
}
use auto_perf.Runner.Start.{
  Started, started, Actions, check_scenario, start_checked, start_existing, start,
}

-- An UPDATE of one run's row, as `get_run` sees it.
get_run-update :
    (run_id : String) (f : Run → Run) (db : Storage) {row : Run}
    → ((r : Run) → (f r).id ≡ r.id)
    → get_run db run_id ≡ some row
    → get_run (record db { test_runs = update_where (has_id run_id) f db.test_runs }) run_id
      ≡ some (f row)
unfolding get_run
get_run-update run_id f db {row} same found =
    rw
      (first-update (has_id run_id) (has_id run_id) f (λ r. ground (arith, same r)) db.test_runs
        found)
      (rw (first-passes (has_id run_id) db.test_runs found))

get_run-request_cancel :
    (run_id : String) (db : Storage) {row : Run}
    → get_run db run_id ≡ some row
    → get_run (request_cancel run_id db) run_id ≡ some (record row { cancel_requested = true })
unfolding request_cancel
get_run-request_cancel run_id db found = get_run-update run_id _ db (λ r. refl) found

pub get_run-update_run :
    (now : ℕ) (run_id : String) (status : RunStatus) (checkpoint error : Option String)
    (db : Storage) {row : Run}
    → get_run db run_id ≡ some row
    → get_run (update_run now run_id status checkpoint error db) run_id
      ≡ some (stamp now status checkpoint error row)
unfolding update_run
get_run-update_run now run_id status checkpoint error db found =
    get_run-update run_id (stamp now status checkpoint error) db (λ r. refl) found

abbrev pub flag_and_interrupt : ℕ → Run → Run
flag_and_interrupt now row =
    stamp now RunStatus.interrupted none (some "cancelled before starting")
      (record row { cancel_requested = true })

-- What `cancel_run` does to a run that is there.
abbrev pub CancelOutcome : String → ℕ → Run → RunStatus → Storage → Storage × Cancelled → Type 0
CancelOutcome run_id now row RunStatus.pending db (after, answer) =
    (answer ≡ interrupted) × (get_run after run_id ≡ some (flag_and_interrupt now row))
CancelOutcome run_id now row RunStatus.running db (after, answer) =
    (answer ≡ cancelling) × (get_run after run_id ≡ some (record row { cancel_requested = true }))
CancelOutcome run_id now row _ db (after, answer) = (answer ≡ nothing_to_cancel) × (after ≡ db)

cancel_found_outcome :
    (now : ℕ) (run_id : String) (row : Run) (status : RunStatus) (db : Storage)
    → get_run db run_id ≡ some row
    → CancelOutcome run_id now row status db (cancel_found now run_id status db)
cancel_found_outcome now run_id row RunStatus.pending db found = (
  refl,
  get_run-update_run now run_id RunStatus.interrupted none (some "cancelled before starting")
      (request_cancel run_id db) (get_run-request_cancel run_id db found),
)
cancel_found_outcome now run_id row RunStatus.running db found =
    (refl, get_run-request_cancel run_id db found)
cancel_found_outcome now run_id row _ db found = (refl, refl)

-- Cancelling a run that is there: a pending run is flagged and interrupted at once, a running run is
-- flagged and keeps its status, and a run that has ended is left alone.
pub cancel_run_exact :
    (now : ℕ) (run_id : String) (db : Storage) {row : Run}
    → get_run db run_id ≡ some row
    → CancelOutcome run_id now row row.status db (cancel_run now run_id db)
unfolding cancel_run
cancel_run_exact now run_id db {row} found =
    rw (found, cancel_run) (cancel_found_outcome now run_id row row.status db found)

-- The device was not driven, and the run's row says `interrupted`.
abbrev pub Declined : String → Storage × Started → Type 0
Declined run_id (after, answer) =
    (answer ≢ started)
    × ((final : Run) × (get_run after run_id ≡ some final) × (final.status ≡ RunStatus.interrupted))

Declined-existing :
    (now : ℕ) (serial run_id : String) (require_existing : Bool) (db : Storage) (row : Run)
    → get_run db run_id ≡ some row
    → row.cancel_requested ≡ true
    → row.status ≡ RunStatus.interrupted
    → Declined run_id (start_existing now serial run_id require_existing (some row) db)
unfolding start_existing
Declined-existing now serial run_id require_existing db row found flagged status =
    elim (Bool-cases (row.device_serial == serial)) [
      | inr other ↦ rw other (λ e. cc, (row, found, status))
      | inl same ↦
          rw (same, flagged)
            (
              λ e. cc,
              (
                stamp now RunStatus.interrupted none (some "cancelled before starting") row,
                get_run-update_run now run_id RunStatus.interrupted none
                    (some "cancelled before starting") db found,
                refl,
              ),
            )
    ]

Declined-checked :
    (refusal : Option Started) (now : ℕ) (serial run_id : String) (require_existing : Bool)
    (db : Storage) {row : Run}
    → refusal ≢ some started
    → get_run db run_id ≡ some row
    → row.cancel_requested ≡ true
    → row.status ≡ RunStatus.interrupted
    → Declined run_id (start_checked refusal now serial run_id require_existing db)
Declined-checked (some refused) now serial run_id require_existing db {row} h found flagged status =
    (λ e. h (ap some e), (row, found, status))
Declined-checked none now serial run_id require_existing db {row} h found flagged status =
    rw found (Declined-existing now serial run_id require_existing db row found flagged status)

check_scenario-ne-started :
    (adapter : Option Actions) (actions : List String)
    → check_scenario adapter actions ≢ some started
unfolding check_scenario
check_scenario-ne-started adapter [] = λ e. cc
check_scenario-ne-started none (a ∷ as') = λ e. cc
check_scenario-ne-started (some f) (a ∷ as') = elim (Bool-cases (all f (a ∷ as'))) [
  | inl t ↦ rw t (λ e. cc)
  | inr n ↦ rw n (λ e. cc)
]

-- A pending run that is cancelled never drives its device: when its task arrives, at any later time
-- and with any adapter and scenario, the run does not start and its row stays interrupted.
pub cancelled_never_starts :
    (adapter : Option Actions) (actions : List String) (now later : ℕ) (serial run_id : String)
    (require_existing : Bool) (db : Storage) {row : Run}
    → get_run db run_id ≡ some row
    → row.status ≡ RunStatus.pending
    → Declined run_id
        (start adapter actions later serial run_id require_existing (cancel_run now run_id db).0)
unfolding start
cancelled_never_starts adapter actions now later serial run_id require_existing db {row} found
      pends =
    Declined-checked (check_scenario adapter actions) later serial run_id require_existing
      (cancel_run now run_id db).0 {row = flag_and_interrupt now row}
      (check_scenario-ne-started adapter actions) cancelled refl refl
  where
    cancelled : get_run (cancel_run now run_id db).0 run_id ≡ some (flag_and_interrupt now row)
    cancelled =
        (subst (λ s. CancelOutcome run_id now row s db (cancel_run now run_id db)) pends
          (cancel_run_exact now run_id db found)).1

no_row : (q : Run → Bool) (xs : List Run) → first q (delete_where q xs) ≡ none
unfolding first delete_where
no_row q [] = refl
no_row q (x ∷ xs) = ground (arith, no_row q xs)

pub get_run-delete : (run_id : String) (db : Storage) → get_run (delete_run run_id db) run_id ≡ none
unfolding get_run delete_run
get_run-delete run_id db = no_row (has_id run_id) db.test_runs

gone :
    (refusal : Option Started) (now : ℕ) (serial run_id : String) (db : Storage)
    → refusal ≢ some started
    → get_run db run_id ≡ none
    → let (after, answer) = start_checked refusal now serial run_id true db in
      (answer ≢ started) × (after ≡ db)
unfolding start_existing
gone (some refused) now serial run_id db h found = (λ e. h (ap some e), refl)
gone none now serial run_id db h found = rw found (λ e. cc, refl)

-- A call that requires the row to exist does not bring a deleted run back: it starts nothing and
-- leaves the whole database as the deletion left it.
deleted_never_starts :
    (adapter : Option Actions) (actions : List String) (now : ℕ) (serial run_id : String)
    (db : Storage)
    → let (after, answer) = start adapter actions now serial run_id true (delete_run run_id db) in
      (answer ≢ started) × (after ≡ delete_run run_id db)
unfolding start
deleted_never_starts adapter actions now serial run_id db =
    gone (check_scenario adapter actions) now serial run_id (delete_run run_id db)
      (check_scenario-ne-started adapter actions) (get_run-delete run_id db)
