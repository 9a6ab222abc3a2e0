-- ===== src/Dispatch/OneAtATime.antt =====
-- webapp/dashboard/services.py, `dispatch_pending`: which run is handed out, and how often.
use mathlib.Core.Path.{subst}
use mathlib.Core.Option.{some-injective}
use auto_perf.Models.{is_running, is_pending}
use auto_perf.Prelude.{
  Bool, [], not, eqb, ◌&&◌, ◌||◌, ◌==◌, ◌-◌, ℕ, ◌+◌, ◌≤◌, String, ◌≡◌, refl, ◌⊎◌, inl, inr, true,
  false, Option, none, some, List, ◌∷◌, ◌++◌, arith, ==_refl, Bool-cases, Option-cases,
}
use auto_perf.Prelude.Count.{any, first, any-update, first-split, first-passes}
use auto_perf.Storage.Rows.{Run, Storage}
use auto_perf.Storage.Runs.{has_id}
use auto_perf.Storage.Queue.{
  redispatch_after, since, is_inflight, is_due_on, device_has_inflight_run, mark_run_queued,
  next_pending_run,
}
use auto_perf.Dispatch.{Task, task_of, dispatch_pending}

-- The oldest run that waits on a device: no row in front of it is due there.
pub record IsOldest (now : ℕ) (serial : String) (row : Run) (runs : List Run) : Type 0 where
  pub ahead : List Run
  pub behind : List Run
  pub split : runs ≡ ahead ++ row ∷ behind
  pub none_ahead : any (is_due_on now serial) ahead ≡ false
  pub due : is_due_on now serial row ≡ true

-- What `dispatch_pending` did: nothing, as something is on its way to the device or no run is due
-- there, or it marked the oldest due run as queued and handed out the task for it.
abbrev pub Dispatched : ℕ → String → Storage → Storage × Option Task → Type 0
Dispatched now serial db (after, task) =
    ((any (is_inflight now serial) db.test_runs ≡ true) × (task ≡ none) × (after ≡ db))
    ⊎ ((any (is_inflight now serial) db.test_runs ≡ false)
        × (first (is_due_on now serial) db.test_runs ≡ none)
        × (task ≡ none)
        × (after ≡ db))
    ⊎ ((row : Run) × (any (is_inflight now serial) db.test_runs ≡ false)
        × IsOldest now serial row db.test_runs
        × (task ≡ some (task_of serial row))
        × (after ≡ mark_run_queued now row.id db))

-- Every call of `dispatch_pending` does one of the three things: it hands out nothing while a run is
-- on its way to the device, or while none is due there, and otherwise the oldest due run.
pub dispatch_pending_exact :
    (now : ℕ) (serial : String) (db : Storage)
    → Dispatched now serial db (dispatch_pending now serial db)
unfolding dispatch_pending device_has_inflight_run next_pending_run
dispatch_pending_exact now serial db =
    elim (Bool-cases (any (is_inflight now serial) db.test_runs)) [
      | inl busy ↦ rw busy (inl (refl, refl, refl))
      | inr free ↦ elim (Option-cases (first (is_due_on now serial) db.test_runs)) [
        | inl idle ↦ rw (free, idle) (inr (inl (refl, refl, refl, refl)))
        | inr (row, found) ↦
            let (ahead, behind, split, none_ahead, due) =
              first-split (is_due_on now serial) db.test_runs found in
            rw (free, found)
              (inr (
                inr (
                  row,
                  refl,
                  record {
                    ahead = ahead;
                    behind = behind;
                    split = split;
                    none_ahead = none_ahead;
                    due = due;
                  },
                  refl,
                  refl,
                )))
      ]
    ]

abbrev pub is_at : ℕ → Option ℕ → Bool
is_at now none = false
is_at now (some t) = eqb t now

-- The run that was handed out at `now` is not over: it runs on the device, or it still waits there
-- since then and was not cancelled.
abbrev pub is_out : ℕ → String → String → Run → Bool
is_out now serial run_id r =
    r.id == run_id
    && r.device_serial == serial
    && (is_running r.status
        || (is_pending r.status && not r.cancel_requested && is_at now r.queued_at))

since-is_at :
    (now c : ℕ) (queued_at : Option ℕ)
    → c ≤ now
    → is_at now queued_at ≡ true
    → since queued_at c ≡ true
since-is_at now c none order at_now = cc
since-is_at now c (some t) order at_now = ground arith

is_inflight-is_out :
    (now later : ℕ) (serial run_id : String) (r : Run)
    → later ≤ now + redispatch_after
    → is_out now serial run_id r ≡ true
    → is_inflight later serial r ≡ true
is_inflight-is_out now later serial run_id r soon out =
    ground (arith, since-is_at now (later - redispatch_after) r.queued_at (omega arith))

any-is_out :
    (now later : ℕ) (serial run_id : String) (runs : List Run)
    → later ≤ now + redispatch_after
    → any (is_out now serial run_id) runs ≡ true
    → any (is_inflight later serial) runs ≡ true
unfolding any
any-is_out now later serial run_id [] soon out = out
any-is_out now later serial run_id (r ∷ rs) soon out = ground (
  arith,
  is_inflight-is_out now later serial run_id r soon,
  any-is_out now later serial run_id rs soon,
)

nothing : {t : Task} → ¬ (none ≡ some t)
nothing e = cc

refused :
    (later : ℕ) (serial : String) (db : Storage)
    → any (is_inflight later serial) db.test_runs ≡ true
    → dispatch_pending later serial db ≡ (db, none)
unfolding dispatch_pending device_has_inflight_run
refused later serial db busy = rw busy refl

marked :
    (now : ℕ) (serial : String) (row : Run) (db : Storage)
    → first (is_due_on now serial) db.test_runs ≡ some row
    → any (is_out now serial row.id) (mark_run_queued now row.id db).test_runs ≡ true
unfolding mark_run_queued
marked now serial row db found =
    let due = first-passes (is_due_on now serial) db.test_runs found in
    any-update (is_out now serial row.id) (is_due_on now serial) (has_id row.id)
      (λ r. record r { queued_at = some now }) db.test_runs found (==_refl row.id)
      (ground (arith, ==_refl row.id))

-- A run that a dispatch handed out is out in the database that the dispatch left. For 90 seconds,
-- in whatever database the run is still out (it runs on the device, or it still waits there since then,
-- uncancelled), another dispatch for the device hands out nothing and changes nothing.
pub dispatch_pending_once :
    (now later : ℕ) (serial : String) (db between : Storage) {task : Task}
    → (dispatch_pending now serial db).1 ≡ some task
    → later ≤ now + redispatch_after
    → any (is_out now serial task.run_id) between.test_runs ≡ true
    → (any (is_out now serial task.run_id) (dispatch_pending now serial db).0.test_runs ≡ true)
      × (dispatch_pending later serial between ≡ (between, none))
unfolding dispatch_pending device_has_inflight_run next_pending_run
dispatch_pending_once now later serial db between {task} handed soon out = (
  handed_out,
  refused later serial between (any-is_out now later serial task.run_id between.test_runs soon out),
)
  where
    handed_out :
        any (is_out now serial task.run_id) (dispatch_pending now serial db).0.test_runs ≡ true
    handed_out = elim (Bool-cases (any (is_inflight now serial) db.test_runs)) [
      | inl busy ↦ absurd (nothing (rw busy at handed))
      | inr free ↦ elim (Option-cases (first (is_due_on now serial) db.test_runs)) [
        | inl idle ↦ absurd (nothing (rw (free, idle) at handed))
        | inr (row, found) ↦
            let same = some-injective _ _ (rw (free, found) at handed) in
            subst
              (λ t.
                any (is_out now serial t.run_id) (dispatch_pending now serial db).0.test_runs
                ≡ true)
              same (rw (free, found) (marked now serial row db found))
      ]
    ]
