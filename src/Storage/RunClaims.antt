-- ===== src/Storage/RunClaims.antt =====
-- src/autoperf/storage.py, `try_start_run`: when a run gets its device.
use auto_perf.Prelude.{
  ℕ, ◌+◌, ◌≤◌, ◌<◌, String, ◌≡◌, refl, ◌⊎◌, inl, inr, Bool, true, false, not, ◌&&◌, Option, none,
  some, List, arith, ◌==◌, eq_iff, eqb, if◌then◌else◌, Bool-cases,
}
use auto_perf.Prelude.Count.{
  count, first, update_where, count-any, count-le-add, count-update, count-update-le, count-first,
  any-count, first-update, first-passes, first-count,
}
use auto_perf.Storage.Rows.{Run, Storage}
use auto_perf.Storage.Runs.{has_id, get_run}
use auto_perf.Storage.Claims.{
  run_holds, preflight_holds, claim_run, claim_run_row, run_is_free, release_abandoned,
  try_start_run,
}
use auto_perf.Storage.Exclusive.{IsValid, NoMore-IsValid, NoMore-release}

module _ (now : ℕ) (run_id : String) (row : Run) (db : Storage) (v : IsValid db)
    (found : first (has_id run_id) db.test_runs ≡ some row)
    (free : run_is_free run_id row.device_serial db ≡ true) where
  abbrev claimed : List Run
  claimed = update_where (has_id run_id) (claim_run now) db.test_runs

  -- On the claimed device only the claimed row runs.
  claimed_here : count (run_holds row.device_serial) claimed ≤ 1
  unfolding run_is_free
  claimed_here = omega (
    arith,
    count-update (run_holds row.device_serial) (has_id run_id) (claim_run now) db.test_runs,
    count-le-add (λ r. run_holds row.device_serial (if has_id run_id r then claim_run now r else r))
        (λ r. run_holds row.device_serial r && not (has_id run_id r)) (has_id run_id)
        (λ r. ground arith) db.test_runs,
    count-any (λ r. run_holds row.device_serial r && not (has_id run_id r)) db.test_runs
        (ground arith),
    v.unique_runs run_id,
  )

  no_preflight_here : count (preflight_holds row.device_serial) db.preflight_reports ≡ 0
  unfolding run_is_free
  no_preflight_here =
      count-any (preflight_holds row.device_serial) db.preflight_reports (ground arith)

  -- On any other device nothing changes.
  claimed_elsewhere :
      (s : String)
      → (row.device_serial == s) ≡ false
      → count (run_holds s) claimed ≤ count (run_holds s) db.test_runs
  claimed_elsewhere s other = omega (
    arith,
    count-update (run_holds s) (has_id run_id) (claim_run now) db.test_runs,
    count-le-add (λ r. run_holds s (if has_id run_id r then claim_run now r else r)) (run_holds s)
        (λ r. has_id run_id r && r.device_serial == s) (λ r. ground arith) db.test_runs,
    count-first (has_id run_id) (λ r. r.device_serial == s) db.test_runs found
        (v.unique_runs run_id) other,
  )

  claimed-IsValid : IsValid (record db { test_runs = claimed })
  claimed-IsValid = record {
    unique_runs = λ i. omega (
      arith,
      v.unique_runs i,
      count-update-le (has_id i) (has_id run_id) (claim_run now) (λ r. ground arith) db.test_runs,
    );
    unique_preflights = v.unique_preflights;
    exclusive = λ s. elim (Bool-cases (row.device_serial == s)) [
      | inl same ↦ ground (arith, eq_iff row.device_serial s, claimed_here, no_preflight_here)
      | inr other ↦ omega (arith, claimed_elsewhere s other, v.exclusive s)
    ];
  }

pub claim_run_row-IsValid :
    (now : ℕ) (run_id : String) (o : Option Run) (db : Storage)
    → IsValid db
    → first (has_id run_id) db.test_runs ≡ o
    → IsValid (claim_run_row now run_id o db).0
unfolding claim_run_row
claim_run_row-IsValid now run_id none db v found = v
claim_run_row-IsValid now run_id (some row) db v found =
    elim (Bool-cases (run_is_free run_id row.device_serial db)) [
      | inl free ↦ rw free (claimed-IsValid now run_id row db v found free)
      | inr taken ↦ rw taken v
    ]

-- What else holds the device of a run: other runs, and preflights.
abbrev pub others : Storage → String → String → ℕ
others db run_id serial =
    count (λ r. run_holds serial r && not (has_id run_id r)) db.test_runs
    + count (preflight_holds serial) db.preflight_reports

pub run_is_free-others :
    (run_id serial : String) (db : Storage)
    → run_is_free run_id serial db ≡ eqb (others db run_id serial) 0
unfolding run_is_free
run_is_free-others run_id serial db = ground (
  arith,
  count-any (λ r. run_holds serial r && not (has_id run_id r)) db.test_runs,
  any-count (λ r. run_holds serial r && not (has_id run_id r)) db.test_runs,
  count-any (preflight_holds serial) db.preflight_reports,
  any-count (preflight_holds serial) db.preflight_reports,
)

granted :
    (now : ℕ) (run_id : String) (row : Run) (db : Storage)
    → first (has_id run_id) db.test_runs ≡ some row
    → first (has_id run_id) (update_where (has_id run_id) (claim_run now) db.test_runs)
      ≡ some (claim_run now row)
granted now run_id row db found =
    rw (first-update (has_id run_id) (has_id run_id) (claim_run now) (λ r. refl) db.test_runs found)
      (rw (first-passes (has_id run_id) db.test_runs found))

-- What a claim answers once the abandoned rows are released.
abbrev pub ClaimOutcome : ℕ → String → Run → Storage → Storage × Bool → Type 0
ClaimOutcome now run_id row released (db, answer) =
    ((others released run_id row.device_serial ≡ 0)
      × (answer ≡ true)
      × (get_run db run_id ≡ some (claim_run now row)))
    ⊎ ((0 < others released run_id row.device_serial) × (answer ≡ false) × (db ≡ released))

claim_run_row_exact :
    (now : ℕ) (run_id : String) (row : Run) (db : Storage)
    → IsValid db
    → first (has_id run_id) db.test_runs ≡ some row
    → ClaimOutcome now run_id row db (claim_run_row now run_id (some row) db)
unfolding claim_run_row get_run
claim_run_row_exact now run_id row db v found =
    elim (Bool-cases (run_is_free run_id row.device_serial db)) [
      | inl free ↦ rw free (
          inl (
            ground (arith, run_is_free-others run_id row.device_serial db),
            ground
                (arith, v.unique_runs run_id, first-count (has_id run_id) db.test_runs {row = row}),
            granted now run_id row db found,
          ))
      | inr taken ↦
          rw taken
            (inr (ground (arith, run_is_free-others run_id row.device_serial db), refl, refl))
    ]

-- A claim on a valid database is granted exactly when nothing else holds the run's device once
-- abandoned rows are released. The run's row is then running, with the claim's time as its start if
-- it had none, and otherwise as it was; a refused claim leaves the database as the release left it.
pub try_start_run_exact :
    (now : ℕ) (run_id : String) (db : Storage) {row : Run}
    → IsValid db
    → get_run (release_abandoned now db) run_id ≡ some row
    → ClaimOutcome now run_id row (release_abandoned now db) (try_start_run now run_id db)
unfolding try_start_run get_run
try_start_run_exact now run_id db {row} v found = rw found (
    claim_run_row_exact now run_id row (release_abandoned now db)
      (NoMore-IsValid (NoMore-release now db) v) found)
