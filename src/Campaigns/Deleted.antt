-- ===== src/Campaigns/Deleted.antt =====
-- src/autoperf/storage.py, `delete_run`: what a row of deletions leaves.
use auto_perf.Prelude.{
  ℕ, ◌≤◌, String, ◌≡◌, refl, ◌∙◌, Bool, false, none, some, List, [], ◌∷◌, arith, ◌==◌, eq_iff,
  if◌then◌else◌, Bool-cases, inl, inr,
}
use auto_perf.Prelude.Count.{count, any, first, select, delete_where}
use auto_perf.Models.{MetricSample}
use auto_perf.Storage.Rows.{Run, Storage}
use auto_perf.Storage.Runs.{has_id, get_run, delete_run}
use auto_perf.Storage.Campaigns.{run_ids, delete_runs}

-- Whether a list of ids has an id.
abbrev pub has : String → List String → Bool
has i is' = any (λ s. s == i) is'

-- How many samples a run has.
abbrev pub samples : Storage → String → ℕ
samples db i = count (λ (m : MetricSample). m.run_id == i) db.metric_samples

pub first-delete :
    (i j : String) (xs : List Run)
    → first (has_id i) (delete_where (has_id j) xs) ≡ (if j == i then none else first (has_id i) xs)
unfolding first delete_where
first-delete i j [] = ground arith
first-delete i j (x ∷ xs) =
    ground (arith, eq_iff x.id j, eq_iff x.id i, eq_iff j i, first-delete i j xs)

pub samples-delete_where :
    (i j : String) (xs : List MetricSample)
    → count (λ m. m.run_id == i) (delete_where (λ m. m.run_id == j) xs)
      ≡ (if j == i then 0 else count (λ m. m.run_id == i) xs)
unfolding count delete_where
samples-delete_where i j [] = ground arith
samples-delete_where i j (x ∷ xs) =
    ground (arith, eq_iff x.run_id j, eq_iff x.run_id i, eq_iff j i, samples-delete_where i j xs)

pub get_run-delete_run :
    (i j : String) (db : Storage)
    → get_run (delete_run j db) i ≡ (if j == i then none else get_run db i)
unfolding get_run delete_run
get_run-delete_run i j db = first-delete i j db.test_runs

pub samples-delete_run :
    (i j : String) (db : Storage)
    → samples (delete_run j db) i ≡ (if j == i then 0 else samples db i)
unfolding delete_run
samples-delete_run i j db = samples-delete_where i j db.metric_samples

pub get_run-delete_runs :
    (i : String) (is' : List String) (db : Storage)
    → get_run (delete_runs is' db) i ≡ (if has i is' then none else get_run db i)
unfolding delete_runs any
get_run-delete_runs i [] db = refl
get_run-delete_runs i (j ∷ is') db =
    get_run-delete_runs i is' (delete_run j db) ∙ ground (arith, get_run-delete_run i j db)

pub samples-delete_runs :
    (i : String) (is' : List String) (db : Storage)
    → samples (delete_runs is' db) i ≡ (if has i is' then 0 else samples db i)
unfolding delete_runs any
samples-delete_runs i [] db = refl
samples-delete_runs i (j ∷ is') db =
    samples-delete_runs i is' (delete_run j db) ∙ ground (arith, samples-delete_run i j db)

pub not_selected :
    (i : String) (q : Run → Bool) (xs : List Run)
    → count (has_id i) xs ≡ 0
    → has i (run_ids (select q xs)) ≡ false
unfolding count any select
not_selected i q [] h = refl
not_selected i q (x ∷ xs) h = ground (arith, not_selected i q xs)

-- Among the ids of the selected rows is a row's id exactly if the row is selected.
pub selected :
    (i : String) (q : Run → Bool) (xs : List Run) {row : Run}
    → first (has_id i) xs ≡ some row
    → count (has_id i) xs ≤ 1
    → has i (run_ids (select q xs)) ≡ q row
unfolding count any select first
selected i q [] e u = cc
selected i q (x ∷ xs) {row} e u = elim (Bool-cases (x.id == i)) [
  | inl t ↦ ground (arith, not_selected i q xs)
  | inr n ↦ ground (arith, selected i q xs {row = row})
]
