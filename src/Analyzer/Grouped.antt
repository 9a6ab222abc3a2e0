-- ===== src/Analyzer/Grouped.antt =====
-- src/autoperf/analyzer.py: what each of the two ways to a run's statistics finds for a metric.
use Prim.Native.Nat.{Ordering}
use Prim.Native.String.{compare}
use text.Mathlib.TextEquality.{path_by_compare}
use mathlib.Core.List.{append_assoc, append-nil}
use mathlib.Core.Bool.{true≢false}
use auto_perf.Prelude.{
  String, ◌≡◌, refl, sym, ap, ◌∙◌, ◌⊎◌, inl, inr, Bool, ◌||◌, Option, none, some, List, [], ◌∷◌,
  ◌++◌, arith, ◌==◌, if◌then◌else◌, Bool-cases, eq_iff, true, false,
}
use auto_perf.Prelude.Count.{any, select}
use auto_perf.Prelude.Floats.{Arithmetic}
use auto_perf.Models.{MetricSample}
use auto_perf.Storage.Aggregates.{insert_name, names, values_of, aggregate, aggregate_names}
use auto_perf.Analyzer.{MetricStats, find_stats}
use auto_perf.Analyzer.Stats.{
  Values, add_value, group_values, stats_of_values, stats_of_groups, compute_stats,
  stats_of_aggregate, stats_from_aggregates,
}

abbrev pub is_nil {ℓ} : {A : Type ℓ} → List A → Bool
is_nil [] = true
is_nil (x ∷ xs) = false

abbrev pub is_named : String → MetricSample → Bool
is_named name m = m.name == name

Ordering-cases : (o : Ordering) → (o ≡ Ordering.lt) ⊎ (o ≡ Ordering.eq) ⊎ (o ≡ Ordering.gt)
Ordering-cases Ordering.lt = inl refl
Ordering-cases Ordering.eq = inr (inl refl)
Ordering-cases Ordering.gt = inr (inr refl)

any-insert_name :
    (name n : String) (ns : List String)
    → any (λ s. s == name) (insert_name n ns) ≡ ((n == name) || any (λ s. s == name) ns)
unfolding any insert_name
any-insert_name name n [] = refl
any-insert_name name n (s ∷ ss) = elim (Ordering-cases (compare n s)) [
  | inl lower ↦ rw (insert_name, lower) refl
  | inr (inl same) ↦
      let one_text : (n == name) ≡ (s == name) = ap (λ t. t == name) (path_by_compare n s same) in
      rw (insert_name, same) (ground (arith, one_text))
  | inr (inr higher) ↦ rw (insert_name, higher) (ground (arith, any-insert_name name n ss))
]

pub any-names :
    (name : String) (ms : List MetricSample)
    → any (λ s. s == name) (names ms) ≡ any (is_named name) ms
unfolding any names
any-names name [] = refl
any-names name (m ∷ ms) =
    any-insert_name name m.name (names ms) ∙ ap (λ b. (m.name == name) || b) (any-names name ms)

module _ (a : Arithmetic) where
  open a use {Number, of_value}

  -- Values that come behind those of a group that may not be there yet.
  extended : Option (List Number) → List Number → Option (List Number)
  extended none [] = none
  extended none (v ∷ vs) = some (v ∷ vs)
  extended (some us) vs = some (us ++ vs)

  find_values : String → List (Values a) → Option (List Number)
  find_values name [] = none
  find_values name ((n, values) ∷ groups) =
      if n == name then some values else find_values name groups

  abbrev pub stats_found : String → Option (List Number) → Option (MetricStats a)
  stats_found name none = none
  stats_found name (some values) = some (stats_of_values a name values)

  abbrev of_one : String → MetricSample → List Number
  of_one name m = if m.name == name then of_value m.value ∷ [] else []

  extended-append :
      (o : Option (List Number)) (us vs : List Number)
      → extended (extended o us) vs ≡ extended o (us ++ vs)
  unfolding extended
  extended-append none [] vs = refl
  extended-append none (u ∷ us) vs = refl
  extended-append (some ws) us vs = ap some (append_assoc ws us vs)

  extended_nothing : (o : Option (List Number)) → extended o [] ≡ o
  unfolding extended
  extended_nothing none = refl
  extended_nothing (some us) = ap some (append-nil us)

  find_values-add_value :
      (name : String) (m : MetricSample) (groups : List (Values a))
      → find_values name (add_value a m groups) ≡ extended (find_values name groups) (of_one name m)
  unfolding find_values add_value extended
  find_values-add_value name m [] = elim (Bool-cases (m.name == name)) [
    | inl same ↦ rw same refl
    | inr other ↦ rw other refl
  ]
  find_values-add_value name m ((n, values) ∷ groups) = elim (Bool-cases (n == m.name)) [
    | inl same ↦
        let one_text : (m.name == name) ≡ (n == name) =
          ap (λ t. t == name) (sym ((eq_iff n m.name).0 same)) in
        elim (Bool-cases (n == name)) [
          | inl hit ↦ rw (same, one_text, hit) refl
          | inr miss ↦ rw (same, one_text, miss) (sym (extended_nothing (find_values name groups)))
        ]
    | inr other ↦ elim (Bool-cases (n == name)) [
      | inl hit ↦ elim (Bool-cases (m.name == name)) [
        | inl both ↦ absurd (
            true≢false (
              sym ((eq_iff n m.name).1 ((eq_iff n name).0 hit ∙ sym ((eq_iff m.name name).0 both)))
              ∙ other))
        | inr fresh ↦ rw (other, hit, fresh) (ap some (sym (append-nil values)))
      ]
      | inr miss ↦ rw (other, miss) (find_values-add_value name m groups)
    ]
  ]

  values-cons :
      (name : String) (m : MetricSample) (ms : List MetricSample)
      → values_of a name (m ∷ ms) ≡ of_one name m ++ values_of a name ms
  unfolding values_of select
  values-cons name m ms = elim (Bool-cases (m.name == name)) [
    | inl same ↦ rw same refl
    | inr other ↦ rw other refl
  ]

  find_values-group_values :
      (name : String) (ms : List MetricSample) (groups : List (Values a))
      → find_values name (group_values a ms groups)
        ≡ extended (find_values name groups) (values_of a name ms)
  unfolding group_values values_of select
  find_values-group_values name [] groups = sym (extended_nothing (find_values name groups))
  find_values-group_values name (m ∷ ms) groups =
      find_values-group_values name ms (add_value a m groups)
      ∙ ap (λ o. extended o (values_of a name ms)) (find_values-add_value name m groups)
      ∙ extended-append (find_values name groups) (of_one name m) (values_of a name ms)
      ∙ ap (extended (find_values name groups)) (sym (values-cons name m ms))

  extended_values :
      (name : String) (ms : List MetricSample)
      → extended none (values_of a name ms)
        ≡ (if any (is_named name) ms then some (values_of a name ms) else none)
  unfolding any values_of select extended
  extended_values name [] = refl
  extended_values name (m ∷ ms) = elim (Bool-cases (m.name == name)) [
    | inl same ↦ rw same refl
    | inr other ↦ rw other (extended_values name ms)
  ]

  find_stats-groups :
      (name : String) (groups : List (Values a))
      → find_stats a name (stats_of_groups a groups) ≡ stats_found name (find_values name groups)
  unfolding find_stats stats_of_groups find_values
  find_stats-groups name [] = refl
  find_stats-groups name ((n, values) ∷ groups) = elim (Bool-cases (n == name)) [
    | inl hit ↦ rw hit (ap (λ t. some (stats_of_values a t values)) ((eq_iff n name).0 hit))
    | inr miss ↦ rw miss (find_stats-groups name groups)
  ]

  pub find_stats-aggregates :
      (name : String) (ms : List MetricSample) (ns : List String)
      → find_stats a name (stats_from_aggregates a (aggregate_names a ms ns)) ≡ (
          if any (λ s. s == name) ns
          then some (stats_of_aggregate a (aggregate a name (values_of a name ms)))
          else none)
  unfolding find_stats stats_from_aggregates aggregate_names any
  find_stats-aggregates name ms [] = refl
  find_stats-aggregates name ms (n ∷ ns) = elim (Bool-cases (n == name)) [
    | inl hit ↦ rw hit (
        ap (λ t. some (stats_of_aggregate a (aggregate a t (values_of a t ms))))
          ((eq_iff n name).0 hit))
    | inr miss ↦ rw miss (find_stats-aggregates name ms ns)
  ]

  -- Python finds the values that the run recorded for a metric, if there are any.
  pub find_stats-compute_stats :
      (name : String) (ms : List MetricSample)
      → find_stats a name (compute_stats a ms)
        ≡ stats_found name (if any (is_named name) ms then some (values_of a name ms) else none)
  unfolding compute_stats find_values
  find_stats-compute_stats name ms =
      find_stats-groups name (group_values a ms [])
      ∙ ap (stats_found name) (find_values-group_values name ms [] ∙ extended_values name ms)
