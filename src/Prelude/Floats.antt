-- ===== src/Prelude/Floats.antt =====
-- Python's floats are a parameter: a type of numbers with the operations that the code uses, those of
-- SQLite and of the module `statistics` among them.
use auto_perf.Prelude.{Bool, List}
use auto_perf.Prelude.Int.{ℤ}

pub record Arithmetic : Type 1 where
  pub Number : Type 0
  pub zero_point : Number
  pub hundred : Number
  pub of_value : ℤ → Number
  pub is_zero : Number → Bool
  pub sub : Number → Number → Number
  pub div : Number → Number → Number
  pub mul : Number → Number → Number
  pub magnitude : Number → Number
  pub exceeds : Number → Number → Bool
  -- max(0.0, x) and math.sqrt
  pub non_negative : Number → Number
  pub sqrt : Number → Number
  -- SQLite's AVG, which need not round as statistics.fmean does
  pub sql_average : List Number → Number
  -- statistics.fmean, statistics.pstdev, MIN and min, MAX and max
  pub fmean : List Number → Number
  pub pstdev : List Number → Number
  pub least : List Number → Number
  pub greatest : List Number → Number
