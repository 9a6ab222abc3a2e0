-- ===== src/Storage/Inserted.antt =====
-- src/autoperf/storage.py: a new row keeps the keys of its table and claims no device.
use mathlib.Core.Path.{subst}
use auto_perf.Prelude.{
  ℕ, String, ◌≡◌, refl, false, Option, none, some, [], ◌∷◌, ◌++◌, arith, eq_iff, Bool-cases, inl,
  inr, some_inj,
}
use auto_perf.Prelude.Count.{count, any, count-append, count-any}
use auto_perf.Models.{is_running}
use auto_perf.Storage.Rows.{Run, Preflight, Storage}
use auto_perf.Storage.Runs.{has_id, create_run}
use auto_perf.Storage.Claims.{
  run_holds, preflight_holds, has_preflight_id, new_preflight, create_preflight,
}
use auto_perf.Storage.Exclusive.{IsValid}

-- A new row with a new id that says `pending` keeps the keys and adds no claim.
appended-IsValid :
    (r : Run) (a : Storage)
    → IsValid a
    → any (has_id r.id) a.test_runs ≡ false
    → is_running r.status ≡ false
    → IsValid (record a { test_runs = a.test_runs ++ r ∷ [] })
unfolding count
appended-IsValid r a v new idle = record {
  unique_runs = λ i. ground (
    arith,
    eq_iff r.id i,
    count-append (has_id i) a.test_runs (r ∷ []),
    count-any (has_id r.id) a.test_runs new,
    v.unique_runs i,
  );
  unique_preflights = v.unique_preflights;
  exclusive = λ s. ground (arith, count-append (run_holds s) a.test_runs (r ∷ []), v.exclusive s);
}

pub create_run-IsValid :
    (r : Run) {a b : Storage}
    → create_run r a ≡ some b
    → is_running r.status ≡ false
    → IsValid a
    → IsValid b
unfolding create_run
create_run-IsValid r {a} {b} made idle v = elim (Bool-cases (any (has_id r.id) a.test_runs)) [
  | inl taken ↦ let clash : none ≡ some b = rw taken at made in cc
  | inr new ↦
      let path : some (record a { test_runs = a.test_runs ++ r ∷ [] }) ≡ some b = rw new at made in
      subst IsValid (some_inj path) (appended-IsValid r a v new idle)
]

appended_preflight-IsValid :
    (p : Preflight) (a : Storage)
    → IsValid a
    → any (has_preflight_id p.id) a.preflight_reports ≡ false
    → is_running p.status ≡ false
    → IsValid (record a { preflight_reports = a.preflight_reports ++ p ∷ [] })
unfolding count
appended_preflight-IsValid p a v new idle = record {
  unique_runs = v.unique_runs;
  unique_preflights = λ i. ground (
    arith,
    eq_iff p.id i,
    count-append (has_preflight_id i) a.preflight_reports (p ∷ []),
    count-any (has_preflight_id p.id) a.preflight_reports new,
    v.unique_preflights i,
  );
  exclusive = λ s.
      ground (arith, count-append (preflight_holds s) a.preflight_reports (p ∷ []), v.exclusive s);
}

pub create_preflight-IsValid :
    (now : ℕ) (preflight_id serial : String) (scenario : Option String) {a b : Storage}
    → create_preflight now preflight_id serial scenario a ≡ some b
    → IsValid a
    → IsValid b
unfolding create_preflight
create_preflight-IsValid now preflight_id serial scenario {a} {b} made v =
    elim (Bool-cases (any (has_preflight_id preflight_id) a.preflight_reports)) [
      | inl taken ↦ let clash : none ≡ some b = rw taken at made in cc
      | inr new ↦
          let row = new_preflight now preflight_id serial scenario in
          let path : some (record a { preflight_reports = a.preflight_reports ++ row ∷ [] })
              ≡ some b =
            rw new at made in
          subst IsValid (some_inj path) (appended_preflight-IsValid row a v new refl)
    ]
