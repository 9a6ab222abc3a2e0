-- ===== src/Tests/Stats.antt =====
-- The dashboard's counts for a phone with four runs.
use auto_perf.Prelude.{◌+◌, ◌≡◌, refl, not, ◌&&◌, some, none, false, [], ◌∷◌}
use auto_perf.Prelude.Count.{count, any, select, first}
use auto_perf.Models.{is_completed}
use auto_perf.Storage.Rows.{Storage}
use auto_perf.Storage.Queue.{list_runs}
use auto_perf.Storage.Baselines.{run_quality, count_run_events, get_baseline}
use auto_perf.Storage.Aggregates.{insert_name, names, values_of, aggregate_names, aggregate_samples}
use auto_perf.Analyzer.{find_stats, compare_stats}
use auto_perf.Analyzer.Stats.{stats_from_aggregates, run_stats}
use auto_perf.Campaigns.Repeat.{is_verified}
use auto_perf.Dashboard.{DashboardStats, insert_run, sort_runs, get_dashboard_stats}
use auto_perf.Dashboard.Counted.{regresses, get_dashboard_stats_exact}
use auto_perf.Tests.Rows.{waiting}
use auto_perf.Tests.Analyses.{arithmetic, done, history}

-- One run passed, one regressed, one was of a scenario without a baseline, and one waits.
abbrev played : Storage
played = record history {
  test_runs =
      done "r1"
      ∷ done "r2"
      ∷ record (done "r4") { youtube_scenario = some "shorts_browsing" }
      ∷ waiting
      ∷ [];
}

abbrev shown : DashboardStats arithmetic played 20
shown = record { total_runs = 3; passed = 1; failed = 1; no_baselines = 1; unverified_runs = 0 }

counts : get_dashboard_stats arithmetic played 20 50 none ≡ shown
unfolding get_dashboard_stats sort_runs insert_run list_runs select any first run_quality
    count_run_events count get_baseline run_stats stats_from_aggregates aggregate_samples
    aggregate_names values_of names insert_name compare_stats find_stats
counts = refl

get_dashboard_stats_exact_example :
    let runs = list_runs 50 none none false played in
    let stats = get_dashboard_stats arithmetic played 20 50 none in
    (count (λ r. is_completed r.status) runs
      ≡ stats.passed + stats.failed + stats.no_baselines + stats.unverified_runs)
    × (stats.unverified_runs
        ≡ count (λ r. is_completed r.status && not (is_verified arithmetic played 20 r)) runs)
    × (stats.failed
        ≡ count
            (λ r.
              is_completed r.status
              && (is_verified arithmetic played 20 r && regresses arithmetic played 20 r))
            runs)
get_dashboard_stats_exact_example = get_dashboard_stats_exact arithmetic played 20 50 none
