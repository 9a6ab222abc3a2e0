-- ===== src/Analyzer/Agreed.antt =====
-- src/autoperf/analyzer.py: the two ways to a run's statistics.
use mathlib.Core.Path.{subst}
use auto_perf.Prelude.{
  String, ◌≡◌, refl, sym, ap, ◌∙◌, inl, inr, Bool, Option, none, some, List, [], ◌∷◌, map, ◌==◌,
  if◌then◌else◌, Bool-cases, not, ltb, length,
}
use auto_perf.Prelude.Count.{any, select}
use auto_perf.Prelude.Floats.{Arithmetic}
use auto_perf.Models.{MetricSample}
use auto_perf.Storage.Rows.{Storage}
use auto_perf.Storage.Aggregates.{
  samples_of, names, values_of, deviation, aggregate, aggregate_samples,
}
use auto_perf.Analyzer.{MetricStats, find_stats}
use auto_perf.Analyzer.Stats.{stats_of_values, compute_stats, stats_of_aggregate, run_stats}
use auto_perf.Analyzer.Grouped.{
  is_nil, is_named, any-names, stats_found, find_stats-aggregates, find_stats-compute_stats,
}

-- What two ways to compute the statistics of one metric have in common, and what tells them apart.
-- Both have nothing for a metric without values. For a metric with values they agree on its count,
-- minimum and maximum; the mean of the first is SQL's and the mean of the second is fmean's, and where there
-- are two values or more the first takes the root of SQL's mean squared deviation, cut off at 0, and
-- the second takes pstdev.
abbrev pub Agree :
    (a : Arithmetic) → List a.Number → Option (MetricStats a) → Option (MetricStats a) → Type 0
Agree a [] sql python = (sql ≡ none) × (python ≡ none)
Agree a (v ∷ vs) sql python =
    let values = v ∷ vs in
    let squares = map (deviation a (a.sql_average values)) values in
    let many = ltb 1 (length values) in
    (s : MetricStats a) × (p : MetricStats a) × (sql ≡ some s)
    × (python ≡ some p)
    × (s.count ≡ length values)
    × (p.count ≡ s.count)
    × (s.minimum ≡ a.least values)
    × (p.minimum ≡ s.minimum)
    × (s.maximum ≡ a.greatest values)
    × (p.maximum ≡ s.maximum)
    × (s.mean ≡ a.sql_average values)
    × (p.mean ≡ a.fmean values)
    × (s.stdev ≡ (if many then a.sqrt (a.non_negative (a.sql_average squares)) else a.zero_point))
    × (p.stdev ≡ (if many then a.pstdev values else a.zero_point))

Agree-found :
    (a : Arithmetic) (name : String) (values : List a.Number) (measured : Bool)
    → measured ≡ not (is_nil values)
    → Agree a values
        (if measured then some (stats_of_aggregate a (aggregate a name values)) else none)
        (stats_found a name (if measured then some values else none))
Agree-found a name [] measured same = rw same (refl, refl)
Agree-found a name (v ∷ vs) measured same = rw same (
  stats_of_aggregate a (aggregate a name (v ∷ vs)),
  stats_of_values a name (v ∷ vs),
  refl,
  refl,
  refl,
  refl,
  refl,
  refl,
  refl,
  refl,
  refl,
  refl,
  refl,
  refl,
)

is_nil-values :
    (a : Arithmetic) (name : String) (ms : List MetricSample)
    → any (is_named name) ms ≡ not (is_nil (values_of a name ms))
unfolding any values_of select
is_nil-values a name [] = refl
is_nil-values a name (m ∷ ms) = elim (Bool-cases (m.name == name)) [
  | inl same ↦ rw same refl
  | inr other ↦ rw other (is_nil-values a name ms)
]

-- The statistics that SQL computes for a run and those that Python computes from all the run's samples
-- are, for every metric, statistics of the same values, which are the values that the run recorded for
-- it. Both leave out the same metrics, those without values, and they agree on the count, the minimum
-- and the maximum. The means are those of AVG and of fmean on these values, and the standard deviations
-- are 0 for a single value and else the root of SQL's mean squared deviation, cut off at 0, and pstdev.
pub run_stats-compute_stats :
    (a : Arithmetic) (db : Storage) (run_id name : String)
    → Agree a
        (values_of a name (samples_of db run_id))
        (find_stats a name (run_stats a db run_id))
        (find_stats a name (compute_stats a (samples_of db run_id)))
unfolding run_stats aggregate_samples
run_stats-compute_stats a db run_id name =
    let ms = samples_of db run_id in
    let measured = any (λ s. s == name) (names ms) in
    let by_sql = find_stats-aggregates a name ms (names ms) in
    let by_python : find_stats a name (compute_stats a ms)
        ≡ stats_found a name (if measured then some (values_of a name ms) else none) =
      find_stats-compute_stats a name ms
      ∙ ap (λ b. stats_found a name (if b then some (values_of a name ms) else none))
          (sym (any-names name ms)) in
    subst (λ o. Agree a (values_of a name ms) o (find_stats a name (compute_stats a ms)))
      (sym by_sql)
      (subst
        (λ o.
          Agree a (values_of a name ms)
            (if measured
              then some (stats_of_aggregate a (aggregate a name (values_of a name ms)))
              else none)
            o)
        (sym by_python)
        (Agree-found a name (values_of a name ms) measured
          (any-names name ms ∙ is_nil-values a name ms)))
