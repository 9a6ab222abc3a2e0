-- ===== src/Prelude/Count/Laws.antt =====
-- How the operations on tables change COUNT(*).
use Prim.Native.Nat.{◌+◌, ◌≤◌}
use mathlib.Core.Path.{◌≡◌, refl, ap}
use mathlib.Core.Bool.{Bool, false, not, ◌&&◌}
use mathlib.Core.List.{List, [], ◌∷◌, ◌++◌}
use native.Mathlib.Omega.{arith}
use auto_perf.Prelude.Tests.{if◌then◌else◌, eqb, ltb}
use auto_perf.Prelude.Lists.{length}
use auto_perf.Prelude.Count.Tables.{one, count, any, all, select, update_where, delete_where}

module _ {ℓ} {A : Type ℓ} where
  pub count-append : (q : A → Bool) (xs ys : List A) → count q (xs ++ ys) ≡ count q xs + count q ys
  unfolding count
  count-append q [] ys = omega arith
  count-append q (x ∷ xs) ys = omega (arith, count-append q xs ys)

  pub count-le-length : (q : A → Bool) (xs : List A) → count q xs ≤ length xs
  unfolding count
  count-le-length q [] = omega arith
  count-le-length q (x ∷ xs) = ground (arith, count-le-length q xs)

  pub count-delete :
      (p q : A → Bool) (xs : List A)
      → count p (delete_where q xs) ≡ count (λ x. p x && not (q x)) xs
  unfolding count delete_where
  count-delete p q [] = refl
  count-delete p q (x ∷ xs) = ground (arith, count-delete p q xs)

  pub count-delete-le : (p q : A → Bool) (xs : List A) → count p (delete_where q xs) ≤ count p xs
  unfolding count delete_where
  count-delete-le p q [] = omega arith
  count-delete-le p q (x ∷ xs) = ground (arith, count-delete-le p q xs)

  pub count-any : (q : A → Bool) (xs : List A) → any q xs ≡ false → count q xs ≡ 0
  unfolding count any
  count-any q [] h = refl
  count-any q (x ∷ xs) h = ground (arith, count-any q xs)

  pub any-count : (q : A → Bool) (xs : List A) → count q xs ≡ 0 → any q xs ≡ false
  unfolding count any
  any-count q [] h = refl
  any-count q (x ∷ xs) h = ground (arith, any-count q xs)

  pub any-positive : (q : A → Bool) (xs : List A) → any q xs ≡ ltb 0 (count q xs)
  unfolding any count
  any-positive q [] = refl
  any-positive q (x ∷ xs) = ground (arith, any-positive q xs)

  -- A bound that holds row by row holds for the counts.
  pub count-le-add :
      (p q r : A → Bool)
      → ((x : A) → one (p x) ≤ one (q x) + one (r x))
      → (xs : List A) → count p xs ≤ count q xs + count r xs
  unfolding count
  count-le-add p q r h [] = omega arith
  count-le-add p q r h (x ∷ xs) = omega (arith, h x, count-le-add p q r h xs)

  pub count-congr :
      (p q : A → Bool) → ((x : A) → p x ≡ q x) → (xs : List A) → count p xs ≡ count q xs
  unfolding count
  count-congr p q h [] = refl
  count-congr p q h (x ∷ xs) = omega (arith, ap one (h x), count-congr p q h xs)

  -- COUNT after an UPDATE is the count of the rows as they are after it.
  pub count-update :
      (p q : A → Bool) (f : A → A) (xs : List A)
      → count p (update_where q f xs) ≡ count (λ x. p (if q x then f x else x)) xs
  unfolding count update_where
  count-update p q f [] = refl
  count-update p q f (x ∷ xs) = omega (arith, count-update p q f xs)

  pub count-select :
      (p q : A → Bool) (xs : List A) → count p (select q xs) ≡ count (λ x. q x && p x) xs
  unfolding count select
  count-select p q [] = refl
  count-select p q (x ∷ xs) = ground (arith, count-select p q xs)

  pub length-select : (q : A → Bool) (xs : List A) → length (select q xs) ≡ count q xs
  unfolding count select
  length-select q [] = refl
  length-select q (x ∷ xs) = ground (arith, length-select q xs)

  pub all-count : (q : A → Bool) (xs : List A) → all q xs ≡ eqb (count q xs) (length xs)
  unfolding count all
  all-count q [] = refl
  all-count q (x ∷ xs) = ground (arith, all-count q xs, count-le-length q xs)

  -- An UPDATE that makes no new row pass the test does not raise the count.
  pub count-update-le :
      (p q : A → Bool) (f : A → A)
      → ((x : A) → one (p (if q x then f x else x)) ≤ one (p x))
      → (xs : List A) → count p (update_where q f xs) ≤ count p xs
  unfolding count update_where
  count-update-le p q f h [] = omega arith
  count-update-le p q f h (x ∷ xs) = omega (arith, h x, count-update-le p q f h xs)
