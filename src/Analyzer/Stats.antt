-- ===== src/Analyzer/Stats.antt =====
-- src/autoperf/analyzer.py: the statistics of a run, from its samples or from their aggregates.
use auto_perf.Prelude.{String, List, [], ◌∷◌, ◌++◌, ◌==◌, ltb, if◌then◌else◌, length}
use auto_perf.Prelude.Floats.{Arithmetic}
use auto_perf.Models.{MetricSample}
use auto_perf.Storage.Rows.{Storage}
use auto_perf.Storage.Aggregates.{Aggregate, aggregate_samples}
use auto_perf.Analyzer.{MetricStats}

module _ (a : Arithmetic) where
  open a use {Number, zero_point, of_value, non_negative, sqrt, fmean, pstdev, least, greatest}

  abbrev pub Values : Type 0
  Values = String × List Number

  -- `grouped.setdefault(sample["name"], []).append(sample["value"])`
  unfoldable pub add_value : MetricSample → List Values → List Values
  add_value m [] = (m.name, of_value m.value ∷ []) ∷ []
  add_value m ((name, values) ∷ groups) =
      if name == m.name
      then (name, values ++ of_value m.value ∷ []) ∷ groups
      else (name, values) ∷ add_value m groups

  unfoldable pub group_values : List MetricSample → List Values → List Values
  unfolding add_value
  group_values [] groups = groups
  group_values (m ∷ ms) groups = group_values ms (add_value m groups)

  abbrev pub stats_of_values : String → List Number → MetricStats a
  stats_of_values name values = record {
    name = name;
    count = length values;
    mean = fmean values;
    stdev = if ltb 1 (length values) then pstdev values else zero_point;
    minimum = least values;
    maximum = greatest values;
  }

  unfoldable pub stats_of_groups : List Values → List (MetricStats a)
  stats_of_groups [] = []
  stats_of_groups ((name, values) ∷ groups) = stats_of_values name values ∷ stats_of_groups groups

  unfoldable pub compute_stats : List MetricSample → List (MetricStats a)
  unfolding stats_of_groups group_values
  compute_stats samples = stats_of_groups (group_values samples [])

  -- no group of the SQL is empty, so its variance is never NULL
  abbrev pub stats_of_aggregate : Aggregate a → MetricStats a
  stats_of_aggregate row = record {
    name = row.name;
    count = row.count;
    mean = row.mean;
    stdev = if ltb 1 row.count then sqrt (non_negative row.variance) else zero_point;
    minimum = row.minimum;
    maximum = row.maximum;
  }

  unfoldable pub stats_from_aggregates : List (Aggregate a) → List (MetricStats a)
  stats_from_aggregates [] = []
  stats_from_aggregates (row ∷ rows) = stats_of_aggregate row ∷ stats_from_aggregates rows

  -- `stats_from_aggregates(storage.aggregate_samples(run_id))`
  unfoldable pub run_stats : Storage → String → List (MetricStats a)
  unfolding stats_from_aggregates aggregate_samples
  run_stats db run_id = stats_from_aggregates (aggregate_samples a db run_id)
