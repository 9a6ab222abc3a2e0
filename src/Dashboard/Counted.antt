-- ===== src/Dashboard/Counted.antt =====
-- webapp/dashboard/services.py, `get_dashboard_stats`: what its counts say of the runs.
use auto_perf.Prelude.{
  ℕ, ◌+◌, String, ◌≡◌, refl, ap, ◌∙◌, Bool, false, not, ◌&&◌, inl, inr, Option, none, some, List,
  [], ◌∷◌, arith, Bool-cases, map,
}
use auto_perf.Prelude.Count.{one, count, select, count-select, count-congr}
use auto_perf.Prelude.Floats.{Arithmetic}
use auto_perf.Models.{is_completed}
use auto_perf.Storage.Rows.{Run, Baseline, Storage}
use auto_perf.Storage.Queue.{list_runs}
use auto_perf.Storage.Baselines.{get_baseline, or_empty, run_quality}
use auto_perf.Campaigns.Repeat.{is_verified, is_regressed, regressed_from}
use auto_perf.Dashboard.{
  RunVerdict, is_passing, is_failing, lacks_baseline, is_unverified, insert_run, sort_runs,
  compared, verdict_of, get_dashboard_stats,
}

count-insert_run :
    (q : Run → Bool) (r : Run) (rs : List Run) → count q (insert_run r rs) ≡ one (q r) + count q rs
unfolding count insert_run
count-insert_run q r [] = refl
count-insert_run q r (s ∷ ss) = ground (arith, count-insert_run q r ss)

count-sort_runs : (q : Run → Bool) (rs : List Run) → count q (sort_runs rs) ≡ count q rs
unfolding count sort_runs
count-sort_runs q [] = refl
count-sort_runs q (r ∷ rs) =
    count-insert_run q r (sort_runs rs) ∙ ap (λ n. one (q r) + n) (count-sort_runs q rs)

count-map :
    (q : RunVerdict → Bool) (f : Run → RunVerdict) (rs : List Run)
    → count q (map f rs) ≡ count (λ r. q (f r)) rs
unfolding count
count-map q f [] = refl
count-map q f (r ∷ rs) = ap (λ n. one (q (f r)) + n) (count-map q f rs)

one_verdict :
    (v : RunVerdict)
    → 1 ≡ one (is_passing v) + one (is_failing v) + one (lacks_baseline v) + one (is_unverified v)
one_verdict RunVerdict.passing = refl
one_verdict RunVerdict.failing = refl
one_verdict RunVerdict.no_baseline = refl
one_verdict RunVerdict.unverified = refl

module _ (f : Run → RunVerdict) where
  counts_of :
      (q : RunVerdict → Bool) (rs : List Run)
      → count q (map f (sort_runs (select (λ r. is_completed r.status) rs)))
        ≡ count (λ r. is_completed r.status && q (f r)) rs
  counts_of q rs =
      count-map q f (sort_runs (select (λ r. is_completed r.status) rs))
      ∙ count-sort_runs (λ r. q (f r)) (select (λ r. is_completed r.status) rs)
      ∙ count-select (λ r. q (f r)) (λ r. is_completed r.status) rs

  all_four :
      (rs : List Run)
      → count (λ r. is_completed r.status) rs
        ≡ count (λ r. is_completed r.status && is_passing (f r)) rs
          + count (λ r. is_completed r.status && is_failing (f r)) rs
          + count (λ r. is_completed r.status && lacks_baseline (f r)) rs
          + count (λ r. is_completed r.status && is_unverified (f r)) rs
  unfolding count
  all_four [] = refl
  all_four (r ∷ rs) = elim (Bool-cases (is_completed r.status)) [
    | inl done ↦ rw done (omega (arith, one_verdict (f r), all_four rs))
    | inr other ↦ rw other (omega (arith, all_four rs))
  ]

module _ (a : Arithmetic) (db : Storage) (threshold_pct : a.Number) where
  -- A run that repeat_analysis would call regressed, under the run's own scenario.
  abbrev pub regresses : Run → Bool
  regresses r = is_regressed a db threshold_pct (or_empty r.youtube_scenario) r

  compared-regressed :
      (r : Run) (o : Option Baseline)
      → is_failing (compared a db threshold_pct r o) ≡ regressed_from a db threshold_pct r o
  compared-regressed r none = refl
  compared-regressed r (some b) = elim (Bool-cases (regressed_from a db threshold_pct r (some b))) [
    | inl worse ↦ rw worse refl
    | inr same ↦ rw same refl
  ]

  verdict-failing :
      (r : Run)
      → is_failing (verdict_of a db threshold_pct r)
        ≡ (is_verified a db threshold_pct r && regresses r)
  verdict-failing r = elim (Bool-cases (run_quality db r.id).verified) [
    | inl sound ↦ rw sound (
        compared-regressed r (get_baseline db r.device_serial (some (or_empty r.youtube_scenario))))
    | inr broken ↦ rw broken refl
  ]

  verdict-unverified :
      (r : Run)
      → is_unverified (verdict_of a db threshold_pct r) ≡ not (is_verified a db threshold_pct r)
  verdict-unverified r = elim (Bool-cases (run_quality db r.id).verified) [
    | inl sound ↦
        rw sound (never (get_baseline db r.device_serial (some (or_empty r.youtube_scenario))))
    | inr broken ↦ rw broken refl
  ]
    where
      never : (o : Option Baseline) → is_unverified (compared a db threshold_pct r o) ≡ false
      never none = refl
      never (some b) = elim (Bool-cases (regressed_from a db threshold_pct r (some b))) [
        | inl worse ↦ rw worse refl
        | inr same ↦ rw same refl
      ]

-- The counts of the dashboard's home page, over the recent runs that it lists: passed, failed, without a
-- baseline and unverified make up the completed ones. The unverified are the completed runs whose scenario was not
-- carried out. And the failed ones are exactly the completed runs that repeat_analysis, for the run's own
-- scenario, takes into account and calls regressed, so the two pages judge a run by one rule.
pub get_dashboard_stats_exact :
    (a : Arithmetic) (db : Storage) (threshold_pct : a.Number) (recent_limit : ℕ)
    (device_serial : Option String)
    → let runs = list_runs recent_limit device_serial none false db in
      let stats = get_dashboard_stats a db threshold_pct recent_limit device_serial in
      (count (λ r. is_completed r.status) runs
        ≡ stats.passed + stats.failed + stats.no_baselines + stats.unverified_runs)
      × (stats.unverified_runs
          ≡ count (λ r. is_completed r.status && not (is_verified a db threshold_pct r)) runs)
      × (stats.failed
          ≡ count
              (λ r.
                is_completed r.status
                && (is_verified a db threshold_pct r && regresses a db threshold_pct r))
              runs)
unfolding get_dashboard_stats
get_dashboard_stats_exact a db threshold_pct recent_limit device_serial =
    let runs = list_runs recent_limit device_serial none false db in
    let f = verdict_of a db threshold_pct in
    let counted = λ (q : RunVerdict → Bool). counts_of f q runs in
    (
      rw (counted is_passing, counted is_failing, counted lacks_baseline, counted is_unverified)
          (all_four f runs),
      counted is_unverified
          ∙ count-congr _ _
              (λ r. ap (λ b. is_completed r.status && b) (verdict-unverified a db threshold_pct r))
              runs,
      counted is_failing
          ∙ count-congr _ _
              (λ r. ap (λ b. is_completed r.status && b) (verdict-failing a db threshold_pct r))
              runs,
    )
