-- ===== src/Tests/Analyses.antt =====
-- A repeat campaign of which one run regressed.
use Prim.Native.Nat.{◌*◌, ◌/◌}
use auto_perf.Prelude.{
  ◌==◌, ℕ, zero, suc, leb, map, ◌+◌, ◌-◌, String, none, some, true, ◌≡◌, refl, List, [], ◌∷◌, ltb,
  eqb, if◌then◌else◌, length, ◌&&◌,
}
use auto_perf.Prelude.Count.{count, any, select, first}
use auto_perf.Prelude.Int.{pos, abs}
use auto_perf.Models.{RunStatus, MetricSample, Kind}
use auto_perf.Storage.Rows.{Run, Event, Storage}
use auto_perf.Storage.Baselines.{Quality, count_run_events, run_quality, get_baseline}
use auto_perf.Prelude.Floats.{Arithmetic}
use auto_perf.Analyzer.{find_stats, compare_stats}
use auto_perf.Analyzer.Stats.{stats_from_aggregates, run_stats, compute_stats}
use auto_perf.Analyzer.Agreed.{Agree, run_stats-compute_stats}
use auto_perf.Storage.Aggregates.{
  samples_of, insert_name, names, values_of, aggregate_names, aggregate_samples,
}
use auto_perf.Analyzer.Versions.{describe, app_version_changed}
use auto_perf.Campaigns.Repeat.{
  ScenarioResult, add_run, add_runs, insert_group, sort_groups, analyse_group, analyse_groups,
  repeat_analysis, is_regressed,
}
use auto_perf.Campaigns.Flaky.{measured, passes, fails, analyse_group_exact}
use auto_perf.Storage.Qualities.{keys, put_counts, run_quality_many}
use auto_perf.Storage.Judged.{run_quality_many_exact}
use auto_perf.Tests.Rows.{waiting, with_baseline}

abbrev total : List ℕ → ℕ
total [] = 0
total (n ∷ ns) = n + total ns

abbrev mean : List ℕ → ℕ
mean ns = total ns / length ns

abbrev distance : ℕ → ℕ → ℕ
distance m n = ((m - n) + (n - m)) * ((m - n) + (n - m))

-- The highest number up to the first whose square is at most the second.
abbrev root : ℕ → ℕ → ℕ
root zero n = 0
root (suc k) n = if leb (suc k * suc k) n then suc k else root k n

abbrev lowest : List ℕ → ℕ
lowest [] = 0
lowest (n ∷ []) = n
lowest (n ∷ ns) = if ltb n (lowest ns) then n else lowest ns

abbrev highest : List ℕ → ℕ
highest [] = 0
highest (n ∷ ns) = if ltb n (highest ns) then highest ns else n

-- Numbers without a sign, of which a difference is as large as it is.
abbrev pub arithmetic : Arithmetic
arithmetic = record {
  Number = ℕ;
  zero_point = 0;
  hundred = 100;
  of_value = abs;
  is_zero = λ n. eqb n 0;
  sub = λ m n. (m - n) + (n - m);
  div = λ m n. m / n;
  mul = λ m n. m * n;
  magnitude = λ n. n;
  exceeds = λ m n. ltb n m;
  non_negative = λ n. n;
  sqrt = λ n. root n n;
  sql_average = mean;
  fmean = mean;
  pstdev = λ ns.
      root (mean (map (λ n. distance n (mean ns)) ns)) (mean (map (λ n. distance n (mean ns)) ns));
  least = λ ns. lowest ns;
  greatest = λ ns. highest ns;
}

abbrev pub done : String → Run
done id = record waiting { id = id; status = RunStatus.completed }

abbrev runs : List Run
runs = done "r1" ∷ done "r2" ∷ waiting ∷ []

abbrev launch : String → ℕ → MetricSample
launch id value = record {
  run_id = id;
  collector = "launch";
  name = "launch";
  value = pos value;
  unit = "ms";
  timestamp = 1;
}

-- The second run took twice as long as the baseline.
abbrev pub history : Storage
history = record with_baseline {
  baselines =
      record { device_serial = "phone"; scenario = "cold_start"; run_id = "r0"; created_at = 1 }
      ∷ [];
  metric_samples = launch "r0" 10 ∷ launch "r1" 10 ∷ launch "r2" 18 ∷ launch "r2" 22 ∷ [];
}

abbrev result : ScenarioResult
result = record {
  scenario = "cold_start";
  total = 3;
  pending = 1;
  completed = 2;
  unverified = 0;
  errored = 0;
  regressed = "r2" ∷ [];
  flaky = true;
}

analysis : repeat_analysis arithmetic history 20 runs ≡ result ∷ []
unfolding repeat_analysis analyse_groups sort_groups insert_group add_runs add_run analyse_group
    select any first run_quality count_run_events count get_baseline run_stats stats_from_aggregates
    aggregate_samples aggregate_names values_of names insert_name compare_stats find_stats
analysis = refl

-- Another build is told from the same one, and an unknown one is neither.
versions :
    (app_version_changed
        (some (record (done "r1") { app_version_code = some 2 }))
        (some (record (done "r2") { app_version_code = some 3 }))
      ≡ some true)
    × (app_version_changed (some (done "r1")) (some (done "r2")) ≡ none)
unfolding app_version_changed describe
versions = (refl, refl)

analyse_group_exact_example :
    let r = analyse_group arithmetic history 20 ("cold_start", runs) in
    (r.total ≡ r.pending + r.completed + r.unverified + r.errored)
    × (r.completed ≡ count (measured arithmetic history 20 "cold_start") runs)
    × (length r.regressed
        ≡ count
            (λ x.
              measured arithmetic history 20 "cold_start" x
              && is_regressed arithmetic history 20 "cold_start" x)
            runs)
    × (r.flaky ≡ (
        any (passes arithmetic history 20 "cold_start") runs
        && any (fails arithmetic history 20 "cold_start") runs))
analyse_group_exact_example = analyse_group_exact arithmetic history 20 "cold_start" runs

run_stats-compute_stats_example :
    Agree arithmetic
      (values_of arithmetic "launch" (samples_of history "r2"))
      (find_stats arithmetic "launch" (run_stats arithmetic history "r2"))
      (find_stats arithmetic "launch" (compute_stats arithmetic (samples_of history "r2")))
run_stats-compute_stats_example = run_stats-compute_stats arithmetic history "r2" "launch"

recorded_twice : values_of arithmetic "launch" (samples_of history "r2") ≡ 18 ∷ 22 ∷ []
unfolding values_of select
recorded_twice = refl

abbrev event : String → Kind → Event
event id kind = record { run_id = id; timestamp = 1; kind = kind }

-- One run with a failed check among two, and an event of a run that nobody asks for.
abbrev logged : Storage
logged = record history {
  test_events =
      event "r1" Kind.selector_fallback
      ∷ event "r2" Kind.verification_failed
      ∷ event "r1" Kind.lifecycle
      ∷ event "r1" Kind.selector_fallback
      ∷ event "r3" Kind.selector_stale
      ∷ [];
}

abbrev two_fallbacks : Quality
two_fallbacks = record {
  verification_failures = 0;
  selector_fallbacks = 2;
  stale_selectors = 0;
  ui_introspections = 0;
  verified = true;
}

verdicts :
    (run_quality_many logged ("r1" ∷ "r2" ∷ []) "r1" ≡ some two_fallbacks)
    × (run_quality_many logged ("r1" ∷ "r2" ∷ []) "r3" ≡ none)
unfolding run_quality_many put_counts keys select any count
verdicts = (refl, refl)

asked_for : any (λ s. s == "r2") ("r1" ∷ "r2" ∷ []) ≡ true
unfolding any
asked_for = refl

run_quality_many_exact_example :
    run_quality_many logged ("r1" ∷ "r2" ∷ []) "r2" ≡ some (run_quality logged "r2")
run_quality_many_exact_example = run_quality_many_exact logged ("r1" ∷ "r2" ∷ []) "r2" asked_for
