-- ===== src/Tasks/Revived.antt =====
-- webapp/dashboard/tasks.py: a task that arrives after its run was deleted.
use auto_perf.Prelude.{
  ℕ, ◌≤◌, not, String, ◌≡◌, refl, ap, Bool, true, false, Option, none, some, List, [], ◌∷◌, ◌++◌,
  arith, inl, inr, ==_refl, if◌then◌else◌,
}
use auto_perf.Prelude.Count.{
  count, update_where, count-append, first-any, first-append, first-none-update, count-and-le,
}
use auto_perf.Models.{RunOrigin}
use auto_perf.Storage.Rows.{Run, Storage}
use auto_perf.Storage.Runs.{has_id, new_run, create_run, get_run, delete_run}
use auto_perf.Storage.Claims.{
  run_holds, is_abandoned_run, release_run, release_abandoned, try_start_run,
}
use auto_perf.Storage.Exclusive.{IsValid, load, NoMore-IsValid}
use auto_perf.Storage.Inserted.{create_run-IsValid}
use auto_perf.Storage.Reach.{NoMore-delete}
use auto_perf.Runner.Resurrection.{get_run-delete}
use auto_perf.Storage.RunClaims.{others, try_start_run_exact}
use auto_perf.Runner.Start.{started, Actions, check_scenario, start_existing, answer, start}
use auto_perf.Tasks.{ensure_row, begin_task}

module _ {ℓ} {A : Type ℓ} (q : A → Bool) where
  update_where-append :
      (f : A → A) (xs ys : List A)
      → update_where q f (xs ++ ys) ≡ update_where q f xs ++ update_where q f ys
  unfolding update_where
  update_where-append f [] ys = refl
  update_where-append f (x ∷ xs) ys =
      ap (λ zs. (if q x then f x else x) ∷ zs) (update_where-append f xs ys)

pub answered : (t : Storage × Bool) → t.1 ≡ true → (answer t).1 ≡ started
answered (db, true) e = refl
answered (db, false) e = cc

-- The row that the task makes, and a database with it.
abbrev pub made : RunOrigin → String → String → Option String → Run
made origin run_id serial scenario = new_run run_id serial scenario none origin none none

abbrev pub with_new : Run → Storage → Storage
with_new r db = record db { test_runs = db.test_runs ++ r ∷ [] }

pub get_run-with_new :
    (origin : RunOrigin) (now : ℕ) (run_id serial : String) (scenario : Option String)
    (db : Storage)
    → get_run db run_id ≡ none
    → get_run (release_abandoned now (with_new (made origin run_id serial scenario) db)) run_id
      ≡ some (made origin run_id serial scenario)
unfolding get_run release_abandoned update_where
get_run-with_new origin now run_id serial scenario db new =
    rw
      (update_where-append (is_abandoned_run now) (release_run now) db.test_runs
        (made origin run_id serial scenario ∷ []))
      (first-append (has_id run_id) (made origin run_id serial scenario)
        (update_where (is_abandoned_run now) (release_run now) db.test_runs)
        (first-any (has_id run_id) _ (
          first-none-update (has_id run_id) (is_abandoned_run now) (release_run now) (λ r. refl)
            db.test_runs new))
        (==_refl run_id))

load-with_new :
    (origin : RunOrigin) (now : ℕ) (run_id serial : String) (scenario : Option String)
    (db : Storage)
    → load (release_abandoned now (with_new (made origin run_id serial scenario) db)) serial
      ≡ load (release_abandoned now db) serial
unfolding release_abandoned update_where count
load-with_new origin now run_id serial scenario db =
    rw
      (update_where-append (is_abandoned_run now) (release_run now) db.test_runs
        (made origin run_id serial scenario ∷ []))
      (ground (
        arith,
        count-append (run_holds serial)
            (update_where (is_abandoned_run now) (release_run now) db.test_runs)
            (made origin run_id serial scenario ∷ []),
      ))

others-load : (db : Storage) (run_id serial : String) → others db run_id serial ≤ load db serial
others-load db run_id serial =
    omega (arith, count-and-le (run_holds serial) (λ r. not (has_id run_id r)) db.test_runs)

pub created_row :
    (origin : RunOrigin) (run_id serial : String) (scenario : Option String) (db : Storage)
    → get_run db run_id ≡ none
    → create_run (made origin run_id serial scenario) db
      ≡ some (with_new (made origin run_id serial scenario) db)
unfolding create_run get_run
created_row origin run_id serial scenario db new = rw (first-any (has_id run_id) db.test_runs new)

ensured :
    (run_id serial : String) (scenario : Option String) (db : Storage)
    → get_run db run_id ≡ none
    → ensure_row serial run_id scenario db
      ≡ some (with_new (made RunOrigin.dashboard run_id serial scenario) db)
unfolding ensure_row
ensured run_id serial scenario db new =
    rw (ensure_row, new) (created_row RunOrigin.dashboard run_id serial scenario db new)

pub claimed :
    (origin : RunOrigin) (now : ℕ) (run_id serial : String) (scenario : Option String)
    (db : Storage)
    → IsValid db
    → get_run db run_id ≡ none
    → load (release_abandoned now db) serial ≡ 0
    → (try_start_run now run_id (with_new (made origin run_id serial scenario) db)).1 ≡ true
claimed origin now run_id serial scenario db v new idle =
    elim (try_start_run_exact now run_id (with_new (made origin run_id serial scenario) db)
      (create_run-IsValid (made origin run_id serial scenario)
        (created_row origin run_id serial scenario db new) refl v)
      (get_run-with_new origin now run_id serial scenario db new)) [
        | inl (alone, granted, after) ↦ granted
        | inr (taken, refused, after) ↦ absurd (
            omega (
              arith,
              taken,
              idle,
              load-with_new origin now run_id serial scenario db,
              others-load (release_abandoned now (with_new (made origin run_id serial scenario) db))
                  run_id serial,
            ))
      ]

starts :
    (now : ℕ) (run_id serial : String) (scenario : Option String) (db : Storage)
    → IsValid db
    → get_run db run_id ≡ none
    → load (release_abandoned now db) serial ≡ 0
    → (start_existing now serial run_id true
        (get_run (with_new (made RunOrigin.dashboard run_id serial scenario) db) run_id)
        (with_new (made RunOrigin.dashboard run_id serial scenario) db)).1
      ≡ started
unfolding start_existing get_run
starts now run_id serial scenario db v new idle =
    rw
      (
        first-append (has_id run_id) (made RunOrigin.dashboard run_id serial scenario) db.test_runs
            (first-any (has_id run_id) db.test_runs new) (==_refl run_id),
        ==_refl serial,
      )
      (answered
        (try_start_run now run_id (with_new (made RunOrigin.dashboard run_id serial scenario) db))
        (claimed RunOrigin.dashboard now run_id serial scenario db v new idle))

-- A deleted run comes back: where nothing holds the device, the task of a run that was deleted makes
-- a new row under the old id and starts it, with any adapter that has the scenario's actions.
pub deleted_task_returns :
    (adapter : Option Actions) (actions : List String) (now : ℕ) (serial run_id : String)
    (scenario : Option String) (db : Storage)
    → IsValid db
    → check_scenario adapter actions ≡ none
    → load (release_abandoned now (delete_run run_id db)) serial ≡ 0
    → (begin_task adapter actions now serial run_id scenario (delete_run run_id db)).1 ≡ started
unfolding begin_task start
deleted_task_returns adapter actions now serial run_id scenario db v fits idle =
    rw
      (
        begin_task,
        ensured run_id serial scenario (delete_run run_id db) (get_run-delete run_id db),
        fits,
      )
      (starts now run_id serial scenario (delete_run run_id db)
        (NoMore-IsValid (NoMore-delete run_id db) v) (get_run-delete run_id db) idle)
