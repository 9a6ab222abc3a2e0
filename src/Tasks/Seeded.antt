-- ===== src/Tasks/Seeded.antt =====
-- webapp/dashboard/tasks.py: the baseline that a completed run leaves.
use mathlib.Core.Path.{subst}
use auto_perf.Prelude.{
  ℕ, String, ◌≡◌, refl, ◌⊎◌, inl, inr, Option, none, some, is_none, ap, ◌∙◌, ◌&&◌, Option-cases,
}
use auto_perf.Models.{RunStatus, is_completed}
use auto_perf.Storage.Rows.{Run, Baseline, Storage}
use auto_perf.Storage.Runs.{get_run}
use auto_perf.Storage.Baselines.{or_empty, scenario_of, set_baseline, get_baseline}
use auto_perf.Storage.Baselined.{the_baseline, set_baseline-get}
use auto_perf.Tasks.{seeds, seed_baseline}

asked :
    (now : ℕ) (serial run_id : String) (db : Storage) {row : Run}
    → get_run db run_id ≡ some row
    → row.status ≡ RunStatus.completed
    → seeds serial row.youtube_scenario db (get_run db run_id)
      ≡ is_none (get_baseline db serial row.youtube_scenario)
asked now serial run_id db {row} found completed =
    ap (seeds serial row.youtube_scenario db) found
    ∙ ap (λ s. is_completed s && is_none (get_baseline db serial row.youtube_scenario)) completed

get_baseline-or_empty :
    (db : Storage) (serial : String) (scenario : Option String)
    → get_baseline db serial scenario ≡ get_baseline db serial (some (or_empty scenario))
unfolding get_baseline
get_baseline-or_empty db serial scenario = refl

seeded :
    (now : ℕ) (serial run_id : String) (db : Storage) {row : Run}
    → get_run db run_id ≡ some row
    → get_baseline (set_baseline now serial run_id db) serial row.youtube_scenario
      ≡ some (the_baseline now serial (or_empty row.youtube_scenario) run_id)
seeded now serial run_id db {row} found =
    get_baseline-or_empty (set_baseline now serial run_id db) serial row.youtube_scenario
    ∙ subst
        (λ r.
          get_baseline (set_baseline now serial run_id db) serial (some (scenario_of r))
          ≡ some (the_baseline now serial (scenario_of r) run_id))
        found (set_baseline-get now serial run_id "" none db).0

-- After a completed run its device has a baseline for its scenario: the one that was there, with
-- nothing changed, or else the run itself.
pub seed_baseline_exact :
    (now : ℕ) (serial run_id : String) (db : Storage) {row : Run}
    → get_run db run_id ≡ some row
    → row.status ≡ RunStatus.completed
    → let after = seed_baseline now serial run_id row.youtube_scenario db in
      ((old : Baseline) × (get_baseline db serial row.youtube_scenario ≡ some old) × (after ≡ db))
      ⊎ ((get_baseline db serial row.youtube_scenario ≡ none)
          × (get_baseline after serial row.youtube_scenario
              ≡ some (the_baseline now serial (or_empty row.youtube_scenario) run_id)))
unfolding seed_baseline
seed_baseline_exact now serial run_id db {row} found completed =
    elim (Option-cases (get_baseline db serial row.youtube_scenario)) [
      | inl new ↦
          let step : seed_baseline now serial run_id row.youtube_scenario db
              ≡ set_baseline now serial run_id db =
            rw (seed_baseline, asked now serial run_id db found completed ∙ ap is_none new) refl in
          inr (
            new,
            ap (λ after. get_baseline after serial row.youtube_scenario) step
                ∙ seeded now serial run_id db found,
          )
      | inr (old, there) ↦
          let step : seed_baseline now serial run_id row.youtube_scenario db ≡ db =
            rw (seed_baseline, asked now serial run_id db found completed ∙ ap is_none there)
              refl in
          inl (old, there, step)
    ]
