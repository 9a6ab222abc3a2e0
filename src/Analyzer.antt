-- ===== src/Analyzer.antt =====
-- src/autoperf/analyzer.py: the comparison of two runs. Python's floats are a parameter.
pub mod Stats
pub mod Grouped
pub mod Agreed
pub mod Versions
use auto_perf.Prelude.{ℕ, String, Bool, not, Option, none, some, List, [], ◌∷◌, ◌==◌, if◌then◌else◌}
use auto_perf.Prelude.Floats.{Arithmetic}

module _ (a : Arithmetic) where
  open a use {Number, hundred, is_zero, sub, div, mul, magnitude, exceeds}

  -- class MetricStats; a dict of them is a list, in its order
  pub record MetricStats : Type 0 where
    pub name : String
    pub count : ℕ
    pub mean : Number
    pub stdev : Number
    pub minimum : Number
    pub maximum : Number

  pub record MetricComparison : Type 0 where
    pub name : String
    pub baseline_mean : Number
    pub candidate_mean : Number
    pub delta_pct : Option Number
    pub regressed : Bool

  -- `candidate.get(name)`
  unfoldable pub find_stats : String → List MetricStats → Option MetricStats
  find_stats name [] = none
  find_stats name (s ∷ ss) = if s.name == name then some s else find_stats name ss

  abbrev pub delta : Number → Number → Number
  delta baseline candidate = mul (div (sub candidate baseline) baseline) hundred

  abbrev pub compare_means : String → Number → Number → Number → MetricComparison
  compare_means name baseline candidate threshold_pct = record {
    name = name;
    baseline_mean = baseline;
    candidate_mean = candidate;
    delta_pct = if is_zero baseline then none else some (delta baseline candidate);
    regressed =
        if is_zero baseline
        then not (is_zero candidate)
        else exceeds (magnitude (delta baseline candidate)) threshold_pct;
  }

  -- `compare`: a metric that only one side has is left out
  unfoldable pub compare_stats :
      List MetricStats → List MetricStats → Number → List MetricComparison
  unfolding find_stats
  compare_stats [] candidate threshold_pct = []
  compare_stats (b ∷ bs) candidate threshold_pct =
      let rest = compare_stats bs candidate threshold_pct in
      elim (find_stats b.name candidate) [
        | none ↦ rest
        | some c ↦ compare_means b.name b.mean c.mean threshold_pct ∷ rest
      ]
