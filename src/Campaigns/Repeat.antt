-- ===== src/Campaigns/Repeat.antt =====
-- src/autoperf/campaigns.py, `repeat_analysis`: the runs of a repeat campaign, by scenario. The
-- spread of the means and the rate are left out.
use Prim.Native.String.{compare}
use Prim.Native.Nat.{Ordering}
use auto_perf.Prelude.{
  ℕ, ◌+◌, ◌-◌, String, Bool, false, not, ◌&&◌, Option, none, some, List, [], ◌∷◌, ◌++◌, ◌==◌, ltb,
  if◌then◌else◌, length, map,
}
use auto_perf.Prelude.Count.{any, select}
use auto_perf.Models.{is_completed, is_errored, is_terminal}
use auto_perf.Storage.Rows.{Run, Baseline, Storage}
use auto_perf.Storage.Baselines.{get_baseline, or_empty, run_quality}
use auto_perf.Prelude.Floats.{Arithmetic}
use auto_perf.Analyzer.{MetricComparison, compare_stats}
use auto_perf.Analyzer.Stats.{run_stats}

abbrev pub Group : Type 0
Group = String × List Run

-- `by_scenario.setdefault(run["youtube_scenario"] or "", []).append(run)`
unfoldable pub add_run : Run → List Group → List Group
add_run r [] = (or_empty r.youtube_scenario, r ∷ []) ∷ []
add_run r ((name, runs) ∷ groups) =
    if name == or_empty r.youtube_scenario
    then (name, runs ++ r ∷ []) ∷ groups
    else (name, runs) ∷ add_run r groups

unfoldable pub add_runs : List Run → List Group → List Group
add_runs [] groups = groups
add_runs (r ∷ rs) groups = add_runs rs (add_run r groups)

-- `sorted(by_scenario.items())`: the names differ, so they decide
unfoldable pub insert_group : Group → List Group → List Group
insert_group g [] = g ∷ []
insert_group g (h ∷ hs) =
    let later = h ∷ insert_group g hs in
    elim (compare g.0 h.0) [ Ordering.gt ↦ later | _ ↦ g ∷ (h ∷ hs) ]

unfoldable pub sort_groups : List Group → List Group
sort_groups [] = []
sort_groups (g ∷ gs) = insert_group g (sort_groups gs)

-- an entry of `scenarios`, without the rate and the stability
pub record ScenarioResult : Type 0 where
  pub scenario : String
  pub total : ℕ
  pub pending : ℕ
  pub completed : ℕ
  pub unverified : ℕ
  pub errored : ℕ
  pub regressed : List String
  pub flaky : Bool

module _ (a : Arithmetic) (db : Storage) (threshold_pct : a.Number) where
  abbrev pub is_verified : Run → Bool
  is_verified r = (run_quality db r.id).verified

  abbrev pub has_regressed : MetricComparison a → Bool
  has_regressed c = c.regressed

  -- the comparison with the baseline's run, where there is a baseline
  abbrev pub regressed_from : Run → Option Baseline → Bool
  regressed_from r none = false
  regressed_from r (some b) =
      any has_regressed
        (compare_stats a (run_stats a db b.run_id) (run_stats a db r.id) threshold_pct)

  abbrev pub is_regressed : String → Run → Bool
  is_regressed scenario r = regressed_from r (get_baseline db r.device_serial (some scenario))

  unfoldable pub analyse_group : Group → ScenarioResult
  analyse_group (scenario, runs) =
      let finished_ok = select (λ r. is_completed r.status) runs in
      let unverified = select (λ r. not (is_verified r)) finished_ok in
      let completed = select (λ r. not (any (λ u. u.id == r.id) unverified)) finished_ok in
      let errored = select (λ r. is_errored r.status) runs in
      let regressed = select (is_regressed scenario) completed in
      let finished = length completed + length errored in
      let passed = length completed - length regressed in
      record {
        scenario = scenario;
        total = length runs;
        pending = length (select (λ r. not (is_terminal r.status)) runs);
        completed = length completed;
        unverified = length unverified;
        errored = length errored;
        regressed = map (λ r. r.id) regressed;
        flaky = ltb 1 finished && ltb 0 passed && ltb passed finished;
      }

  unfoldable pub analyse_groups : List Group → List ScenarioResult
  unfolding analyse_group
  analyse_groups [] = []
  analyse_groups (g ∷ gs) = analyse_group g ∷ analyse_groups gs

  unfoldable pub repeat_analysis : List Run → List ScenarioResult
  unfolding analyse_groups sort_groups insert_group add_runs add_run
  repeat_analysis runs = analyse_groups (sort_groups (add_runs runs []))
