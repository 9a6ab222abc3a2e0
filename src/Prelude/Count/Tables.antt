-- ===== src/Prelude/Count/Tables.antt =====
-- Tables as lists of rows: SELECT, UPDATE, DELETE by a row test, and how they change COUNT(*).
use Prim.Native.Nat.{ℕ, ◌+◌}
use mathlib.Core.Bool.{Bool, true, false, ◌&&◌, ◌||◌}
use mathlib.Core.Option.{Option, none, some}
use mathlib.Core.List.{List, [], ◌∷◌}
use auto_perf.Prelude.Tests.{if◌then◌else◌}

-- A test as a number, for counting.
abbrev pub one : Bool → ℕ
one true = 1
one false = 0

module _ {ℓ} {A : Type ℓ} where
  -- SELECT COUNT(*) WHERE q
  unfoldable pub count : (A → Bool) → List A → ℕ
  count q [] = 0
  count q (x ∷ xs) = one (q x) + count q xs

  -- EXISTS (SELECT 1 WHERE q)
  unfoldable pub any : (A → Bool) → List A → Bool
  any q [] = false
  any q (x ∷ xs) = q x || any q xs

  unfoldable pub all : (A → Bool) → List A → Bool
  all q [] = true
  all q (x ∷ xs) = q x && all q xs

  -- SELECT * WHERE q, in row order
  unfoldable pub select : (A → Bool) → List A → List A
  select q [] = []
  select q (x ∷ xs) = let rest = select q xs in if q x then x ∷ rest else rest

  -- SELECT * WHERE q LIMIT 1
  unfoldable pub first : (A → Bool) → List A → Option A
  first q [] = none
  first q (x ∷ xs) = if q x then some x else first q xs

  -- UPDATE SET f WHERE q
  unfoldable pub update_where : (A → Bool) → (A → A) → List A → List A
  update_where q f [] = []
  update_where q f (x ∷ xs) = (if q x then f x else x) ∷ update_where q f xs

  -- DELETE WHERE q
  unfoldable pub delete_where : (A → Bool) → List A → List A
  delete_where q [] = []
  delete_where q (x ∷ xs) = let rest = delete_where q xs in if q x then rest else x ∷ rest
