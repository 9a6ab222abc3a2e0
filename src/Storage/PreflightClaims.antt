-- ===== src/Storage/PreflightClaims.antt =====
-- src/autoperf/storage.py, `try_start_preflight`: the same claim, from the other side.
use auto_perf.Prelude.{
  ℕ, ◌≤◌, String, ◌≡◌, inl, inr, true, false, not, ◌&&◌, Option, none, some, List, arith, ◌==◌,
  eq_iff, if◌then◌else◌, Bool-cases,
}
use auto_perf.Prelude.Count.{
  count, first, update_where, count-any, count-le-add, count-update, count-update-le, count-first,
}
use auto_perf.Storage.Rows.{Preflight, Storage}
use auto_perf.Storage.Claims.{
  run_holds, preflight_holds, has_preflight_id, is_waiting, claim_preflight, claim_preflight_row,
  preflight_is_free,
}
use auto_perf.Storage.Exclusive.{IsValid}

module _ (now : ℕ) (preflight_id : String) (row : Preflight) (db : Storage) (v : IsValid db)
    (found : first (has_preflight_id preflight_id) db.preflight_reports ≡ some row)
    (free : preflight_is_free preflight_id row.device_serial db ≡ true) where
  abbrev claimed : List Preflight
  claimed = update_where (is_waiting preflight_id) (claim_preflight now) db.preflight_reports

  -- On the claimed device only the claimed preflight runs.
  claimed_here : count (preflight_holds row.device_serial) claimed ≤ 1
  unfolding preflight_is_free
  claimed_here = omega (
    arith,
    count-update (preflight_holds row.device_serial) (is_waiting preflight_id) (claim_preflight now)
        db.preflight_reports,
    count-le-add
        (λ p.
          preflight_holds row.device_serial
            (if is_waiting preflight_id p then claim_preflight now p else p))
        (λ p. preflight_holds row.device_serial p && not (has_preflight_id preflight_id p))
        (has_preflight_id preflight_id) (λ p. ground arith) db.preflight_reports,
    count-any (λ p. preflight_holds row.device_serial p && not (has_preflight_id preflight_id p))
        db.preflight_reports (ground arith),
    v.unique_preflights preflight_id,
  )

  no_run_here : count (run_holds row.device_serial) db.test_runs ≡ 0
  unfolding preflight_is_free
  no_run_here = count-any (run_holds row.device_serial) db.test_runs (ground arith)

  -- On any other device nothing changes.
  claimed_elsewhere :
      (s : String)
      → (row.device_serial == s) ≡ false
      → count (preflight_holds s) claimed ≤ count (preflight_holds s) db.preflight_reports
  claimed_elsewhere s other = omega (
    arith,
    count-update (preflight_holds s) (is_waiting preflight_id) (claim_preflight now)
        db.preflight_reports,
    count-le-add
        (λ p. preflight_holds s (if is_waiting preflight_id p then claim_preflight now p else p))
        (preflight_holds s) (λ p. has_preflight_id preflight_id p && p.device_serial == s)
        (λ p. ground arith) db.preflight_reports,
    count-first (has_preflight_id preflight_id) (λ p. p.device_serial == s) db.preflight_reports
        found (v.unique_preflights preflight_id) other,
  )

  claimed-IsValid : IsValid (record db { preflight_reports = claimed })
  claimed-IsValid = record {
    unique_runs = v.unique_runs;
    unique_preflights = λ i. omega (
      arith,
      v.unique_preflights i,
      count-update-le (has_preflight_id i) (is_waiting preflight_id) (claim_preflight now)
          (λ p. ground arith) db.preflight_reports,
    );
    exclusive = λ s. elim (Bool-cases (row.device_serial == s)) [
      | inl same ↦ ground (arith, eq_iff row.device_serial s, claimed_here, no_run_here)
      | inr other ↦ omega (arith, claimed_elsewhere s other, v.exclusive s)
    ];
  }

pub claim_preflight_row-IsValid :
    (now : ℕ) (preflight_id : String) (o : Option Preflight) (db : Storage)
    → IsValid db
    → first (has_preflight_id preflight_id) db.preflight_reports ≡ o
    → IsValid (claim_preflight_row now preflight_id o db).0
unfolding claim_preflight_row
claim_preflight_row-IsValid now preflight_id none db v found = v
claim_preflight_row-IsValid now preflight_id (some row) db v found =
    elim (Bool-cases (preflight_is_free preflight_id row.device_serial db)) [
      | inl free ↦ rw free (claimed-IsValid now preflight_id row db v found free)
      | inr taken ↦ rw taken v
    ]
