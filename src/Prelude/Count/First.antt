-- ===== src/Prelude/Count/First.antt =====
-- The row that SELECT … LIMIT 1 gives, under an UPDATE.
use Prim.Native.Nat.{◌+◌, ◌≤◌}
use mathlib.Core.Path.{◌≡◌, refl, ap}
use mathlib.Core.Logic.{inl, inr}
use mathlib.Core.Bool.{Bool, true, false, ◌&&◌}
use mathlib.Core.Option.{none, some}
use mathlib.Core.List.{List, [], ◌∷◌, ◌++◌}
use native.Mathlib.Omega.{arith}
use auto_perf.Prelude.Tests.{if◌then◌else◌, Bool-cases}
use auto_perf.Prelude.Count.Tables.{count, any, first, update_where}

module _ {ℓ} {A : Type ℓ} where
  pub count-and-le : (q p : A → Bool) (ys : List A) → count (λ x. q x && p x) ys ≤ count q ys
  unfolding count
  count-and-le q p [] = omega arith
  count-and-le q p (y ∷ ys) = ground (arith, count-and-le q p ys)

  -- The first row of a test that one row passes at most stands for all of them.
  pub count-first :
      (q p : A → Bool) (xs : List A) {row : A}
      → first q xs ≡ some row
      → count q xs ≤ 1
      → p row ≡ false
      → count (λ x. q x && p x) xs ≡ 0
  unfolding count first
  count-first q p [] e u h = refl
  count-first q p (x ∷ xs) {row} e u h = elim (Bool-cases (q x)) [
    | inl t ↦ ground (arith, count-and-le q p xs)
    | inr f ↦ ground (arith, count-first q p xs {row = row})
  ]

  -- An UPDATE that keeps a test keeps the first row that passes it, as the UPDATE leaves it.
  pub first-update :
      (q p : A → Bool) (f : A → A)
      → ((x : A) → q (f x) ≡ q x)
      → (xs : List A) {row : A} → first q xs ≡ some row
      → first q (update_where p f xs) ≡ some (if p row then f row else row)
  unfolding first update_where
  first-update q p f same [] e = cc
  first-update q p f same (x ∷ xs) {row} e =
      ground (arith, same x, first-update q p f same xs {row = row})

  pub first-none-update :
      (q p : A → Bool) (f : A → A)
      → ((x : A) → q (f x) ≡ q x)
      → (xs : List A) → first q xs ≡ none
      → first q (update_where p f xs) ≡ none
  unfolding first update_where
  first-none-update q p f same [] e = refl
  first-none-update q p f same (x ∷ xs) e = ground (arith, same x, first-none-update q p f same xs)

  pub first-passes : (q : A → Bool) (xs : List A) {row : A} → first q xs ≡ some row → q row ≡ true
  unfolding first
  first-passes q [] e = cc
  first-passes q (x ∷ xs) {row} e = ground (arith, first-passes q xs {row = row})

  pub first-count : (q : A → Bool) (xs : List A) {row : A} → first q xs ≡ some row → 1 ≤ count q xs
  unfolding count first
  first-count q [] e = cc
  first-count q (x ∷ xs) {row} e = ground (arith, first-count q xs {row = row})

  pub update-none :
      (q : A → Bool) (f : A → A) (xs : List A) → count q xs ≡ 0 → update_where q f xs ≡ xs
  unfolding count update_where
  update-none q f [] h = refl
  update-none q f (x ∷ xs) h = ground (arith, update-none q f xs)

  -- An UPDATE of the one row of a test, from outside another test to inside it, adds one.
  pub count-update-one :
      (p q : A → Bool) (f : A → A) (xs : List A) {row : A}
      → first q xs ≡ some row
      → count q xs ≤ 1
      → p row ≡ false
      → p (f row) ≡ true
      → count p (update_where q f xs) ≡ count p xs + 1
  unfolding count first update_where
  count-update-one p q f [] e u out inside = cc
  count-update-one p q f (x ∷ xs) {row} e u out inside = elim (Bool-cases (q x)) [
    | inl t ↦ ground (arith, update-none q f xs)
    | inr n ↦ ground (arith, count-update-one p q f xs {row = row})
  ]

  pub any-update :
      (p q u : A → Bool) (f : A → A) (xs : List A) {row : A}
      → first q xs ≡ some row
      → u row ≡ true
      → p (f row) ≡ true
      → any p (update_where u f xs) ≡ true
  unfolding any first update_where
  any-update p q u f [] e hit good = cc
  any-update p q u f (x ∷ xs) {row} e hit good = elim (Bool-cases (q x)) [
    | inl t ↦ ground arith
    | inr n ↦ ground (arith, any-update p q u f xs {row = row})
  ]

  pub first-any : (q : A → Bool) (xs : List A) → first q xs ≡ none → any q xs ≡ false
  unfolding any first
  first-any q [] e = refl
  first-any q (x ∷ xs) e = ground (arith, first-any q xs)

  -- `first` gives the row in front of which no row passes.
  pub first-split :
      (q : A → Bool) (xs : List A) {row : A}
      → first q xs ≡ some row
      → (ahead : List A) × (behind : List A) × (xs ≡ ahead ++ row ∷ behind)
        × (any q ahead ≡ false)
        × (q row ≡ true)
  unfolding any first
  first-split q [] e = cc
  first-split q (x ∷ xs) {row} e = elim (Bool-cases (q x)) [
    | inl t ↦ ([], xs, ground arith, refl, ground arith)
    | inr n ↦
        let (ahead, behind, split, none_ahead, passes) =
          first-split q xs {row = row} (ground arith) in
        (x ∷ ahead, behind, ap (λ l. x ∷ l) split, rw n none_ahead, passes)
  ]

-- INSERT … ON CONFLICT DO UPDATE, and what SELECT gives afterwards.
module _ {ℓ} {A : Type ℓ} (q : A → Bool) where
  pub first-append :
      (y : A) (xs : List A) → any q xs ≡ false → q y ≡ true → first q (xs ++ y ∷ []) ≡ some y
  unfolding first any
  first-append y [] none_before hit = rw hit
  first-append y (x ∷ xs) none_before hit = elim (Bool-cases (q x)) [
    | inl e ↦ absurd (ground (arith, e))
    | inr n ↦ rw n (first-append y xs (ground (arith, n)) hit)
  ]

  -- An UPDATE that makes every row that passes the same row.
  pub first-overwrite :
      (f : A → A) (z : A) (xs : List A)
      → any q xs ≡ true
      → ((x : A) → q x ≡ true → f x ≡ z)
      → q z ≡ true
      → first q (update_where q f xs) ≡ some z
  unfolding first any update_where
  first-overwrite f z [] there same hit = cc
  first-overwrite f z (x ∷ xs) there same hit = elim (Bool-cases (q x)) [
    | inl e ↦ rw e (rw (same x e) (rw hit refl))
    | inr n ↦ rw n (rw n (first-overwrite f z xs (ground (arith, n)) same hit))
  ]

  -- Neither an UPDATE nor an INSERT of rows that do not pass a test is seen by it.
  pub first-update-other :
      (p : A → Bool) (f : A → A) (xs : List A)
      → ((x : A) → q x ≡ true → p x ≡ false)
      → ((x : A) → q x ≡ true → p (f x) ≡ false)
      → first p (update_where q f xs) ≡ first p xs
  unfolding first update_where
  first-update-other p f [] old new = refl
  first-update-other p f (x ∷ xs) old new = elim (Bool-cases (q x)) [
    | inl e ↦ rw e (rw (old x e, new x e) (first-update-other p f xs old new))
    | inr n ↦ rw n (ap (λ r. if p x then some x else r) (first-update-other p f xs old new))
  ]

  pub first-append-other : (y : A) (xs : List A) → q y ≡ false → first q (xs ++ y ∷ []) ≡ first q xs
  unfolding first
  first-append-other y [] miss = rw miss
  first-append-other y (x ∷ xs) miss =
      ap (λ r. if q x then some x else r) (first-append-other y xs miss)
