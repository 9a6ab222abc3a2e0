-- ===== src/Workers/Supervised.antt =====
-- src/autoperf/workers.py: what the supervisor writes for a worker.
use auto_perf.Prelude.{
  ℕ, String, ◌≡◌, refl, sym, ap, ◌∙◌, Bool, true, false, ◌&&◌, ◌⊎◌, inl, inr, Option, none, some,
  ◌==◌, Bool-cases, is_none, Option-cases,
}
use auto_perf.Prelude.Count.{first, first-update, first-none-update, first-passes}
use mathlib.Core.Option.{some-injective}
use auto_perf.Prelude.Int.{ℤ}
use auto_perf.Models.{RunStatus, is_errored}
use auto_perf.Storage.Rows.{Run, Storage}
use auto_perf.Storage.Runs.{has_id, stamp, update_run, get_run}
use auto_perf.Workers.{Worker, Pass, is_nonzero, is_silent, report, written, fail_run}

abbrev pub errored_or_gone : Option Run → Bool
errored_or_gone none = true
errored_or_gone (some r) = is_errored r.status

-- The run's row says that it failed or was interrupted, or is not there.
unfoldable pub has_ended_badly : Storage → String → Bool
has_ended_badly db run_id = errored_or_gone (get_run db run_id)

abbrev failed_by : ℕ → String → Run → Run
failed_by utc error r = stamp utc RunStatus.failed none (some error) r

fail_run-ends :
    (utc : ℕ) (run_id error : String) (db : Storage)
    → has_ended_badly (fail_run utc run_id error db) run_id ≡ true
unfolding has_ended_badly update_run get_run
fail_run-ends utc run_id error db = elim (Option-cases (first (has_id run_id) db.test_runs)) [
  | inl gone ↦ ap errored_or_gone (
      first-none-update (has_id run_id) (has_id run_id) (failed_by utc error) (λ r. refl)
        db.test_runs gone)
  | inr (r, found) ↦
      let hit = first-passes (has_id run_id) db.test_runs {row = r} found in
      ap errored_or_gone (
        first-update (has_id run_id) (has_id run_id) (failed_by utc error) (λ x. refl) db.test_runs
          {row = r} found)
      ∙ rw hit refl
]

fail_run-keeps :
    (utc : ℕ) (run_id error other : String) (db : Storage)
    → has_ended_badly db other ≡ true
    → has_ended_badly (fail_run utc run_id error db) other ≡ true
unfolding has_ended_badly update_run get_run
fail_run-keeps utc run_id error other db bad =
    elim (Option-cases (first (has_id other) db.test_runs)) [
      | inl gone ↦ ap errored_or_gone (
          first-none-update (has_id other) (has_id run_id) (failed_by utc error) (λ r. refl)
            db.test_runs gone)
      | inr (r, found) ↦
          ap errored_or_gone (
            first-update (has_id other) (has_id run_id) (failed_by utc error) (λ x. refl)
              db.test_runs {row = r} found)
          ∙ (elim (Bool-cases (r.id == run_id)) [
            | inl same ↦ rw same refl
            | inr apart ↦ rw apart (sym (ap errored_or_gone found) ∙ bad)
          ])
    ]

module _ (timeout : ℕ) (p : Pass) (last_seen : String → ℕ) where
  -- A worker that exited with a code that is not 0, or that was not heard of in time.
  abbrev pub is_bad : Worker → Option ℤ → Bool
  is_bad w none = is_silent timeout p.monotonic (last_seen w.run_id)
  is_bad w (some code) = is_nonzero code

  report-ends :
      (run_id : String) (o : Option Run) (db db' : Storage)
      → get_run db run_id ≡ o
      → report p.utc run_id o db ≡ some db'
      → has_ended_badly db' run_id ≡ true
  unfolding has_ended_badly
  report-ends run_id none db db' found e = cc
  report-ends run_id (some r) db db' found e = elim (Bool-cases (is_errored r.status)) [
    | inl errored ↦
        ap (λ d. has_ended_badly d run_id) (sym (some-injective _ _ (rw errored at e)))
        ∙ ap errored_or_gone found
        ∙ errored
    | inr well ↦
        ap (λ d. has_ended_badly d run_id) (sym (some-injective _ _ (rw well at e)))
        ∙ fail_run-ends p.utc run_id "worker exited" db
  ]

  report-keeps :
      (run_id other : String) (o : Option Run) (db db' : Storage)
      → report p.utc run_id o db ≡ some db'
      → has_ended_badly db other ≡ true
      → has_ended_badly db' other ≡ true
  report-keeps run_id other none db db' e bad = cc
  report-keeps run_id other (some r) db db' e bad = elim (Bool-cases (is_errored r.status)) [
    | inl errored ↦
        ap (λ d. has_ended_badly d other) (sym (some-injective _ _ (rw errored at e))) ∙ bad
    | inr well ↦
        ap (λ d. has_ended_badly d other) (sym (some-injective _ _ (rw well at e)))
        ∙ fail_run-keeps p.utc run_id "worker exited" other db bad
  ]

  pub written-ends :
      (w : Worker) (code : Option ℤ) (db db' : Storage)
      → written timeout p last_seen w code db ≡ some db'
      → is_bad w code ≡ true
      → has_ended_badly db' w.run_id ≡ true
  written-ends w (some code) db db' e bad =
      report-ends w.run_id (get_run db w.run_id) db db' refl (rw bad at e)
  written-ends w none db db' e bad =
      ap (λ d. has_ended_badly d w.run_id) (sym (some-injective _ _ (rw bad at e)))
      ∙ fail_run-ends p.utc w.run_id "worker heartbeat timed out" db

  pub written-keeps :
      (w : Worker) (code : Option ℤ) (other : String) (db db' : Storage)
      → written timeout p last_seen w code db ≡ some db'
      → has_ended_badly db other ≡ true
      → has_ended_badly db' other ≡ true
  written-keeps w (some code) other db db' e bad = elim (Bool-cases (is_nonzero code)) [
    | inl failed ↦ report-keeps w.run_id other (get_run db w.run_id) db db' (rw failed at e) bad
    | inr well ↦ ap (λ d. has_ended_badly d other) (sym (some-injective _ _ (rw well at e))) ∙ bad
  ]
  written-keeps w none other db db' e bad =
      elim (Bool-cases (is_silent timeout p.monotonic (last_seen w.run_id))) [
        | inl silent ↦
            ap (λ d. has_ended_badly d other) (sym (some-injective _ _ (rw silent at e)))
            ∙ fail_run-keeps p.utc w.run_id "worker heartbeat timed out" other db bad
        | inr heard ↦
            ap (λ d. has_ended_badly d other) (sym (some-injective _ _ (rw heard at e))) ∙ bad
      ]

  -- A worker that exited with a code that is not 0, and whose run has no row.
  abbrev pub is_orphan : Worker → Option ℤ → Storage → Bool
  is_orphan w none db = false
  is_orphan w (some code) db = is_nonzero code && is_none (get_run db w.run_id)

  abbrev pub orphaned : Storage → Worker → Bool
  orphaned db w = is_orphan w (p.exited w.run_id) db

  fail_run-is_none :
      (run_id error other : String) (db : Storage)
      → is_none (get_run (fail_run p.utc run_id error db) other) ≡ is_none (get_run db other)
  unfolding update_run get_run
  fail_run-is_none run_id error other db = elim (Option-cases (first (has_id other) db.test_runs)) [
    | inl gone ↦
        ap is_none (
          first-none-update (has_id other) (has_id run_id) (failed_by p.utc error) (λ r. refl)
            db.test_runs gone)
        ∙ ap is_none (sym gone)
    | inr (r, found) ↦
        ap is_none (
          first-update (has_id other) (has_id run_id) (failed_by p.utc error) (λ x. refl)
            db.test_runs {row = r} found)
        ∙ ap is_none (sym found)
  ]

  -- What a pass writes for a worker, and that it keeps the rows there are.
  abbrev pub WriteOutcome : Worker → Option ℤ → Storage → Type 0
  WriteOutcome w code db =
      ((is_orphan w code db ≡ true) × (written timeout p last_seen w code db ≡ none))
      ⊎ ((is_orphan w code db ≡ false)
          × (db' : Storage) × (written timeout p last_seen w code db ≡ some db')
          × ((other : String) → is_none (get_run db' other) ≡ is_none (get_run db other)))

  reported :
      (w : Worker) (code : ℤ) (db : Storage) (o : Option Run)
      → get_run db w.run_id ≡ o
      → is_nonzero code ≡ true
      → WriteOutcome w (some code) db
  reported w code db none found bad = inl (rw (bad, found) refl, rw (bad, found) refl)
  reported w code db (some r) found bad = elim (Bool-cases (is_errored r.status)) [
    | inl errored ↦ inr (rw (bad, found) refl, db, rw (bad, found, errored) refl, λ other. refl)
    | inr well ↦ inr (
      rw (bad, found) refl,
      fail_run p.utc w.run_id "worker exited" db,
      rw (bad, found, well) refl,
      λ other. fail_run-is_none w.run_id "worker exited" other db,
    )
  ]

  pub written-WriteOutcome : (w : Worker) (code : Option ℤ) (db : Storage) → WriteOutcome w code db
  written-WriteOutcome w (some code) db = elim (Bool-cases (is_nonzero code)) [
    | inl bad ↦ reported w code db (get_run db w.run_id) refl bad
    | inr well ↦ inr (rw well refl, db, rw well refl, λ other. refl)
  ]
  written-WriteOutcome w none db =
      elim (Bool-cases (is_silent timeout p.monotonic (last_seen w.run_id))) [
        | inl silent ↦ inr (
          refl,
          fail_run p.utc w.run_id "worker heartbeat timed out" db,
          rw silent refl,
          λ other. fail_run-is_none w.run_id "worker heartbeat timed out" other db,
        )
        | inr heard ↦ inr (refl, db, rw heard refl, λ other. refl)
      ]
