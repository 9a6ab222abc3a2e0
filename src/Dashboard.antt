-- ===== src/Dashboard.antt =====
-- webapp/dashboard/services.py, `get_dashboard_stats`: the verdict on each recent run, and how many there
-- are of each. The trend, the breakdown by scenario and the texts for display are left out.
pub mod Counted
use auto_perf.Prelude.{
  ℕ, String, Bool, true, false, not, Option, none, some, List, [], ◌∷◌, ltb, if◌then◌else◌, length,
  map,
}
use auto_perf.Prelude.Count.{any, count, select}
use auto_perf.Prelude.Floats.{Arithmetic}
use auto_perf.Models.{is_completed}
use auto_perf.Storage.Rows.{Run, Baseline, Storage}
use auto_perf.Storage.Queue.{list_runs}
use auto_perf.Storage.Baselines.{get_baseline, or_empty, run_quality}
use auto_perf.Analyzer.{MetricComparison, compare_stats}
use auto_perf.Analyzer.Stats.{run_stats}

pub data RunVerdict : Type 0 where
  passing failing no_baseline unverified : RunVerdict

abbrev pub is_passing : RunVerdict → Bool
is_passing RunVerdict.passing = true
is_passing _ = false

abbrev pub is_failing : RunVerdict → Bool
is_failing RunVerdict.failing = true
is_failing _ = false

abbrev pub lacks_baseline : RunVerdict → Bool
lacks_baseline RunVerdict.no_baseline = true
lacks_baseline _ = false

abbrev pub is_unverified : RunVerdict → Bool
is_unverified RunVerdict.unverified = true
is_unverified _ = false

-- `run["started_at"] or ""` as a sort key: no start comes before each start
abbrev pub starts_before : Option ℕ → Option ℕ → Bool
starts_before none none = false
starts_before none (some t) = true
starts_before (some s) none = false
starts_before (some s) (some t) = ltb s t

-- `completed.sort(key=...)`, which keeps the order of equals
unfoldable pub insert_run : Run → List Run → List Run
insert_run r [] = r ∷ []
insert_run r (s ∷ ss) =
    if starts_before s.started_at r.started_at then s ∷ insert_run r ss else r ∷ (s ∷ ss)

unfoldable pub sort_runs : List Run → List Run
unfolding insert_run
sort_runs [] = []
sort_runs (r ∷ rs) = insert_run r (sort_runs rs)

module _ (a : Arithmetic) (db : Storage) (threshold_pct : a.Number) where
  abbrev pub compared : Run → Option Baseline → RunVerdict
  compared r none = RunVerdict.no_baseline
  compared r (some b) =
      if any (λ (c : MetricComparison a). c.regressed)
        (compare_stats a (run_stats a db b.run_id) (run_stats a db r.id) threshold_pct)
      then RunVerdict.failing
      else RunVerdict.passing

  abbrev pub verdict_of : Run → RunVerdict
  verdict_of r =
      if not (run_quality db r.id).verified
      then RunVerdict.unverified
      else compared r (get_baseline db r.device_serial (some (or_empty r.youtube_scenario)))

  pub record DashboardStats : Type 0 where
    pub total_runs : ℕ
    pub passed : ℕ
    pub failed : ℕ
    pub no_baselines : ℕ
    pub unverified_runs : ℕ

  unfoldable pub get_dashboard_stats : ℕ → Option String → DashboardStats
  unfolding sort_runs list_runs
  get_dashboard_stats recent_limit device_serial =
      let runs = list_runs recent_limit device_serial none false db in
      let verdicts = map verdict_of (sort_runs (select (λ r. is_completed r.status) runs)) in
      record {
        total_runs = length runs;
        passed = count is_passing verdicts;
        failed = count is_failing verdicts;
        no_baselines = count lacks_baseline verdicts;
        unverified_runs = count is_unverified verdicts;
      }
