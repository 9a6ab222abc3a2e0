-- ===== src/Workers/Watched.antt =====
-- src/autoperf/workers.py: what a pass of the supervisor's loop settles, and when the loop ends.
use auto_perf.Prelude.{
  ℕ, String, ◌≡◌, refl, sym, ap, ◌∙◌, Bool, true, false, not, ◌&&◌, ◌||◌, ◌⊎◌, inl, inr, Option,
  none, some, List, [], ◌∷◌, Bool-cases, is_none,
}
use auto_perf.Prelude.Count.{all, any, select}
use auto_perf.Prelude.Int.{ℤ}
use auto_perf.Storage.Rows.{Storage}
use auto_perf.Storage.Runs.{get_run}
use auto_perf.Workers.{
  Worker, Pass, Watch, is_nonzero, stays, written, check_alive, pass, keep, heard,
}
use auto_perf.Workers.Supervised.{
  has_ended_badly, is_bad, is_orphan, orphaned, written-WriteOutcome, written-ends, written-keeps,
}

module _ (timeout : ℕ) (p : Pass) (last_seen : String → ℕ) where
  abbrev exit_of : Worker → Option ℤ
  exit_of w = p.exited w.run_id

  -- The row of a worker that came to a bad end in this pass says so.
  abbrev pub is_recorded : Storage → Worker → Bool
  is_recorded db w =
      not (is_bad timeout p last_seen w (p.exited w.run_id)) || has_ended_badly db w.run_id

  any-orphaned :
      (db db' : Storage)
      → ((other : String) → is_none (get_run db' other) ≡ is_none (get_run db other))
      → (ws : List Worker)
      → any (orphaned timeout p last_seen db') ws ≡ any (orphaned timeout p last_seen db) ws
  unfolding any
  any-orphaned db db' same [] = refl
  any-orphaned db db' same (w ∷ ws) =
      ap (λ b. b || any (orphaned timeout p last_seen db') ws) (one_orphan (p.exited w.run_id))
      ∙ ap (λ b. orphaned timeout p last_seen db w || b) (any-orphaned db db' same ws)
    where
      one_orphan :
          (code : Option ℤ)
          → is_orphan timeout p last_seen w code db' ≡ is_orphan timeout p last_seen w code db
      one_orphan none = refl
      one_orphan (some code) = ap (λ b. is_nonzero code && b) (same w.run_id)

  -- What a pass comes to for the workers in `ws`: it raises, or it keeps some and settles the others.
  abbrev pub Settled : List Worker → Storage → Option (List Worker × Storage) → Type 0
  Settled ws db result =
      ((any (orphaned timeout p last_seen db) ws ≡ true) × (result ≡ none))
      ⊎ ((any (orphaned timeout p last_seen db) ws ≡ false)
          × (db' : Storage) × (result ≡ some (select (stays timeout p last_seen) ws, db'))
          × ((other : String) → has_ended_badly db other ≡ true → has_ended_badly db' other ≡ true)
          × (all (is_recorded db') ws ≡ true)
          × ((other : String) → is_none (get_run db' other) ≡ is_none (get_run db other)))

  kept_first :
      (w : Worker) (ws : List Worker) (db : Storage)
      → keep timeout p last_seen
          (stays timeout p last_seen w)
          w
          (some (select (stays timeout p last_seen) ws, db))
        ≡ some (select (stays timeout p last_seen) (w ∷ ws), db)
  unfolding select
  kept_first w ws db = refl

  recorded_first :
      (w : Worker) (ws : List Worker) (db db1 db' : Storage)
      → written timeout p last_seen w (exit_of w) db ≡ some db1
      → ((other : String) → has_ended_badly db1 other ≡ true → has_ended_badly db' other ≡ true)
      → all (is_recorded db') ws ≡ true
      → all (is_recorded db') (w ∷ ws) ≡ true
  unfolding all
  recorded_first w ws db db1 db' e keeps rest =
      elim (Bool-cases (is_bad timeout p last_seen w (exit_of w))) [
        | inl bad ↦
            let ended =
              keeps w.run_id (written-ends timeout p last_seen w (exit_of w) db db1 e bad) in
            rw (bad, ended) rest
        | inr good ↦ rw good rest
      ]

  Settled-cons :
      (w : Worker) (ws : List Worker) (db db1 : Storage)
      → is_orphan timeout p last_seen w (exit_of w) db ≡ false
      → written timeout p last_seen w (exit_of w) db ≡ some db1
      → ((other : String) → is_none (get_run db1 other) ≡ is_none (get_run db other))
      → Settled ws db1 (check_alive timeout p last_seen ws db1)
      → Settled (w ∷ ws) db (check_alive timeout p last_seen (w ∷ ws) db)
  unfolding any check_alive
  Settled-cons w ws db db1 fine e same rest =
      let later = any-orphaned db db1 same ws in
      elim rest [
        | inl (orphan, raised) ↦
            inl (rw fine (sym later ∙ orphan), rw (check_alive, e, raised) refl)
        | inr (none_left, db', result, keeps, records, rows) ↦ inr (
          rw fine (sym later ∙ none_left),
          db',
          rw (check_alive, e, result) (kept_first w ws db'),
          λ other bad.
              keeps other (written-keeps timeout p last_seen w (exit_of w) other db db1 e bad),
          recorded_first w ws db db1 db' e keeps records,
          λ other. rows other ∙ same other,
        )
      ]

  check_alive-Settled :
      (ws : List Worker) (db : Storage) → Settled ws db (check_alive timeout p last_seen ws db)
  unfolding any all select check_alive
  check_alive-Settled [] db = inr (refl, db, refl, λ other bad. bad, refl, λ other. refl)
  check_alive-Settled (w ∷ ws) db =
      elim (written-WriteOutcome timeout p last_seen w (exit_of w) db) [
        | inl (orphan, raised) ↦ inl (rw orphan refl, rw (check_alive, raised) refl)
        | inr (fine, db1, e, same) ↦
            Settled-cons w ws db db1 fine e same (check_alive-Settled ws db1)
      ]

-- What one pass of the loop comes to. `last_seen` is as the pass has it, with the heartbeat that it read.
module _ (timeout : ℕ) (p : Pass) (s : Watch) where
  abbrev pub seen_by : String → ℕ
  seen_by = heard p.beat s.last_seen

  abbrev pub Passed : Option Watch → Type 0
  Passed result =
      ((any (orphaned timeout p seen_by (p.others s.db)) s.alive ≡ true) × (result ≡ none))
      ⊎ ((any (orphaned timeout p seen_by (p.others s.db)) s.alive ≡ false)
          × (s' : Watch) × (result ≡ some s')
          × (s'.alive ≡ select (stays timeout p seen_by) s.alive)
          × ((other : String)
              → has_ended_badly (p.others s.db) other ≡ true
              → has_ended_badly s'.db other ≡ true)
          × (all (is_recorded timeout p seen_by s'.db) s.alive ≡ true)
          × ((other : String)
              → is_none (get_run s'.db other) ≡ is_none (get_run (p.others s.db) other)))

-- One pass of the supervisor's loop, for any workers and any database: it raises exactly if a worker that it
-- watches has exited with a code that is not 0 while its run has no row. Otherwise it goes on to watch
-- exactly the workers whose process is alive and whose last heartbeat is not older than the timeout. The
-- row of each that exited with a code that is not 0, or was silent for too long, then says failed or
-- interrupted, or is gone; and so it does for each run whose row said so before the pass.
-- The pass itself makes no row and deletes none.
pub pass_exact : (timeout : ℕ) (p : Pass) (s : Watch) → Passed timeout p s (pass timeout p s)
unfolding pass
pass_exact timeout p s =
    let seen = seen_by timeout p s in
    elim (check_alive-Settled timeout p seen s.alive (p.others s.db)) [
      | inl (orphan, raises) ↦ inl (orphan, rw raises refl)
      | inr (fine, db', result, keeps, records, rows) ↦ inr (
        fine,
        record { alive = select (stays timeout p seen) s.alive; last_seen = seen; db = db' },
        rw result refl,
        refl,
        keeps,
        records,
        rows,
      )
    ]
