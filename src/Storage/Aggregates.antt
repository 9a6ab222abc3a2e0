-- ===== src/Storage/Aggregates.antt =====
-- src/autoperf/storage.py, `aggregate_samples`: the statistics of a run's samples, in SQL.
use Prim.Native.String.{compare}
use Prim.Native.Nat.{Ordering}
use auto_perf.Prelude.{ℕ, String, List, [], ◌∷◌, ◌==◌, length, map}
use auto_perf.Prelude.Count.{select}
use auto_perf.Prelude.Floats.{Arithmetic}
use auto_perf.Models.{MetricSample}
use auto_perf.Storage.Rows.{Storage}

-- `WHERE run_id=?`
abbrev pub samples_of : Storage → String → List MetricSample
samples_of db run_id = select (λ m. m.run_id == run_id) db.metric_samples

-- the groups of GROUP BY, which SQLite sorts
unfoldable pub insert_name : String → List String → List String
insert_name name [] = name ∷ []
insert_name name (n ∷ ns) =
    let later = n ∷ insert_name name ns in
    elim (compare name n) [
      | Ordering.lt ↦ name ∷ (n ∷ ns)
      | Ordering.eq ↦ n ∷ ns
      | Ordering.gt ↦ later
    ]

unfoldable pub names : List MetricSample → List String
unfolding insert_name
names [] = []
names (m ∷ ms) = insert_name m.name (names ms)

module _ (a : Arithmetic) where
  open a use {Number, of_value, sub, mul, sql_average, least, greatest}

  -- a row of the answer
  pub record Aggregate : Type 0 where
    pub name : String
    pub count : ℕ
    pub mean : Number
    pub minimum : Number
    pub maximum : Number
    pub variance : Number

  -- the values of a group
  unfoldable pub values_of : String → List MetricSample → List Number
  values_of name samples = map (λ m. of_value m.value) (select (λ m. m.name == name) samples)

  abbrev pub deviation : Number → Number → Number
  deviation mean value = mul (sub value mean) (sub value mean)

  abbrev pub aggregate : String → List Number → Aggregate
  aggregate name values = record {
    name = name;
    count = length values;
    mean = sql_average values;
    minimum = least values;
    maximum = greatest values;
    variance = sql_average (map (deviation (sql_average values)) values);
  }

  unfoldable pub aggregate_names : List MetricSample → List String → List Aggregate
  unfolding values_of
  aggregate_names samples [] = []
  aggregate_names samples (n ∷ ns) = aggregate n (values_of n samples) ∷ aggregate_names samples ns

  unfoldable pub aggregate_samples : Storage → String → List Aggregate
  unfolding aggregate_names names
  aggregate_samples db run_id =
      let samples = samples_of db run_id in aggregate_names samples (names samples)
