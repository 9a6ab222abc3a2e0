-- ===== src/Storage/Exclusive.antt =====
-- src/autoperf/storage.py: the keys of the tables, and how many things hold a device.
use auto_perf.Prelude.{ℕ, ◌+◌, ◌≤◌, String, ◌≡◌, refl, Bool, true, arith}
use auto_perf.Prelude.Count.{one, count, update_where, count-update-le}
use auto_perf.Storage.Rows.{Run, Preflight, Storage}
use auto_perf.Storage.Runs.{has_id}
use auto_perf.Storage.Claims.{run_holds, preflight_holds, has_preflight_id, release_abandoned}

-- How many runs and preflights hold a device.
abbrev pub load : Storage → String → ℕ
load db serial =
    count (run_holds serial) db.test_runs + count (preflight_holds serial) db.preflight_reports

-- The primary keys are keys, and nothing shares a device.
pub record IsValid (db : Storage) : Type 0 where
  pub unique_runs : (i : String) → count (has_id i) db.test_runs ≤ 1
  pub unique_preflights : (i : String) → count (has_preflight_id i) db.preflight_reports ≤ 1
  pub exclusive : (serial : String) → load db serial ≤ 1

-- `b` has no row, and no claim, that `a` does not have.
pub record NoMore (a b : Storage) : Type 0 where
  pub runs : (i : String) → count (has_id i) b.test_runs ≤ count (has_id i) a.test_runs
  pub preflights :
      (i : String)
      → count (has_preflight_id i) b.preflight_reports
        ≤ count (has_preflight_id i) a.preflight_reports
  pub run_claims : (s : String) → count (run_holds s) b.test_runs ≤ count (run_holds s) a.test_runs
  pub preflight_claims :
      (s : String)
      → count (preflight_holds s) b.preflight_reports
        ≤ count (preflight_holds s) a.preflight_reports

pub NoMore-IsValid : {a b : Storage} → NoMore a b → IsValid a → IsValid b
NoMore-IsValid n v = record {
  unique_runs = λ i. omega (arith, n.runs i, v.unique_runs i);
  unique_preflights = λ i. omega (arith, n.preflights i, v.unique_preflights i);
  exclusive = λ s. omega (arith, n.run_claims s, n.preflight_claims s, v.exclusive s);
}

pub NoMore-trans : {a b c : Storage} → NoMore a b → NoMore b c → NoMore a c
NoMore-trans n m = record {
  runs = λ i. omega (arith, n.runs i, m.runs i);
  preflights = λ i. omega (arith, n.preflights i, m.preflights i);
  run_claims = λ s. omega (arith, n.run_claims s, m.run_claims s);
  preflight_claims = λ s. omega (arith, n.preflight_claims s, m.preflight_claims s);
}

-- An UPDATE of the runs that keeps ids and devices and makes no run running.
pub NoMore-update_runs :
    (q : Run → Bool) (f : Run → Run) (db : Storage)
    → ((r : Run) → (f r).id ≡ r.id)
    → ((r : Run) (s : String) → q r ≡ true → one (run_holds s (f r)) ≤ one (run_holds s r))
    → NoMore db (record db { test_runs = update_where q f db.test_runs })
NoMore-update_runs q f db same quiet = record {
  runs = λ i. count-update-le (has_id i) q f (λ r. ground (arith, same r)) db.test_runs;
  preflights = λ i. omega arith;
  run_claims = λ s. count-update-le (run_holds s) q f (λ r. ground (arith, quiet r s)) db.test_runs;
  preflight_claims = λ s. omega arith;
}

pub NoMore-update_preflights :
    (q : Preflight → Bool) (f : Preflight → Preflight) (db : Storage)
    → ((p : Preflight) → (f p).id ≡ p.id)
    → ((p : Preflight) (s : String)
        → q p ≡ true
        → one (preflight_holds s (f p)) ≤ one (preflight_holds s p))
    → NoMore db (record db { preflight_reports = update_where q f db.preflight_reports })
NoMore-update_preflights q f db same quiet = record {
  runs = λ i. omega arith;
  preflights = λ i.
      count-update-le (has_preflight_id i) q f (λ p. ground (arith, same p)) db.preflight_reports;
  run_claims = λ s. omega arith;
  preflight_claims = λ s.
      count-update-le (preflight_holds s) q f (λ p. ground (arith, quiet p s)) db.preflight_reports;
}

pub NoMore-release : (now : ℕ) (db : Storage) → NoMore db (release_abandoned now db)
unfolding release_abandoned
NoMore-release now db =
    NoMore-trans (NoMore-update_runs _ _ db (λ r. refl) (λ r s h. ground arith))
      (NoMore-update_preflights _ _ _ (λ p. refl) (λ p s h. ground arith))
