-- ===== src/Preflight/Members.antt =====
-- src/autoperf/preflight.py, `covering_scenarios`: members of sets that are kept as lists.
use Prim.Native.String.{compare}
use Prim.Native.Nat.{Ordering}
use mathlib.Core.Path.{subst}
use auto_perf.Prelude.{
  ◌+◌, ◌≤◌, String, ◌≡◌, refl, sym, ap, ◌∙◌, Bool, true, not, ◌||◌, inl, inr, List, [], ◌∷◌, arith,
  ◌==◌, ==_refl, eq_iff, length, Bool-cases,
}
use auto_perf.Prelude.Count.{count, any, all, select}
use auto_perf.Scenarios.{insert, sorted}
use auto_perf.Preflight.Cover.{is_in, is_empty, union}

-- A member that passes is counted, found, and kept.
pub in-count :
    (q : String → Bool) (t : String) (xs : List String)
    → is_in t xs ≡ true
    → q t ≡ true
    → 1 ≤ count q xs
unfolding any count
in-count q t [] there hit = cc
in-count q t (x ∷ xs) there hit = elim (Bool-cases (x == t)) [
  | inl e ↦ let same : q x ≡ true = ap q ((eq_iff x t).0 e) ∙ hit in ground (arith, same)
  | inr n ↦ ground (arith, n, there, in-count q t xs (ground (arith, n, there)) hit)
]

pub in-any :
    (q : String → Bool) (t : String) (xs : List String)
    → is_in t xs ≡ true
    → q t ≡ true
    → any q xs ≡ true
unfolding any
in-any q t [] there hit = cc
in-any q t (x ∷ xs) there hit = elim (Bool-cases (x == t)) [
  | inl e ↦ let same : q x ≡ true = ap q ((eq_iff x t).0 e) ∙ hit in ground (arith, same)
  | inr n ↦ ground (arith, n, there, in-any q t xs (ground (arith, n, there)) hit)
]

pub in-select :
    (q : String → Bool) (t : String) (xs : List String)
    → is_in t xs ≡ true
    → q t ≡ true
    → is_in t (select q xs) ≡ true
unfolding any select
in-select q t [] there hit = cc
in-select q t (x ∷ xs) there hit = elim (Bool-cases (x == t)) [
  | inl e ↦ let same : q x ≡ true = ap q ((eq_iff x t).0 e) ∙ hit in ground (arith, same, e)
  | inr n ↦ ground (arith, n, there, in-select q t xs (ground (arith, n, there)) hit)
]

pub all-select :
    (p q : String → Bool) (xs : List String) → all p xs ≡ true → all p (select q xs) ≡ true
unfolding all select
all-select p q [] h = refl
all-select p q (x ∷ xs) h = ground (arith, h, all-select p q xs (ground (arith, h)))

pub length-without :
    (p : String → Bool) (xs : List String)
    → length (select (λ t. not (p t)) xs) + count p xs ≡ length xs
unfolding count select
length-without p [] = refl
length-without p (x ∷ xs) = ground (arith, length-without p xs)

pub all-in :
    (p : String → Bool) (t : String) (xs : List String)
    → all p xs ≡ true
    → is_in t xs ≡ true
    → p t ≡ true
unfolding all any
all-in p t [] h there = cc
all-in p t (x ∷ xs) h there = elim (Bool-cases (x == t)) [
  | inl e ↦ ap p (sym ((eq_iff x t).0 e)) ∙ ground (arith, h)
  | inr n ↦ all-in p t xs (ground (arith, h)) (ground (arith, n, there))
]

pub all-of :
    (p : String → Bool) (xs : List String)
    → ((t : String) → is_in t xs ≡ true → p t ≡ true)
    → all p xs ≡ true
unfolding all any
all-of p [] h = refl
all-of p (x ∷ xs) h =
    ground
      (arith, h x (ground (arith, ==_refl x)), all-of p xs (λ t there. h t (ground (arith, there))))

pub in-is_empty : (t : String) (xs : List String) → is_in t xs ≡ true → not (is_empty xs) ≡ true
unfolding any
in-is_empty t [] there = cc
in-is_empty t (x ∷ xs) there = refl

-- Sorting keeps the members.
any-insert :
    (p : String → Bool) (s : String) (ts : List String) → any p (insert s ts) ≡ (p s || any p ts)
unfolding any insert
any-insert p s [] = refl
any-insert p s (t ∷ ts) = placed (compare s t) (any-insert p s ts)
  where
    placed :
        (o : Ordering)
        → any p (insert s ts) ≡ (p s || any p ts)
        → any p (elim o [ Ordering.gt ↦ t ∷ insert s ts | _ ↦ s ∷ (t ∷ ts) ])
          ≡ (p s || (p t || any p ts))
    placed Ordering.lt later = refl
    placed Ordering.eq later = refl
    placed Ordering.gt later = ground (arith, later)

pub any-sorted : (p : String → Bool) (ss : List String) → any p (sorted ss) ≡ any p ss
unfolding any sorted
any-sorted p [] = refl
any-sorted p (s ∷ ss) = any-insert p s (sorted ss) ∙ ap (λ b. p s || b) (any-sorted p ss)

-- A member that is equal to one that is there is there.
in-equal :
    (x t : String) (us : List String) → (x == t) ≡ true → is_in x us ≡ true → is_in t us ≡ true
in-equal x t us e there = subst (λ u. is_in u us ≡ true) ((eq_iff x t).0 e) there

pub in-union :
    (t : String) (xs ys : List String) → is_in t (union xs ys) ≡ (is_in t xs || is_in t ys)
unfolding any union
in-union t [] ys = refl
in-union t (x ∷ xs) ys = elim (Bool-cases (is_in x (union xs ys))) [
  | inl there ↦
      let step : union (x ∷ xs) ys ≡ union xs ys = rw there refl in
      elim (Bool-cases (x == t)) [
        | inl e ↦
            let found : is_in t (union xs ys) ≡ true = in-equal x t (union xs ys) e there in
            ap (is_in t) step ∙ ground (arith, e, found)
        | inr n ↦ ap (is_in t) step ∙ ground (arith, n, in-union t xs ys)
      ]
  | inr new ↦
      let step : union (x ∷ xs) ys ≡ x ∷ union xs ys = rw new refl in
      ap (is_in t) step ∙ (ap (λ b. x == t || b) (in-union t xs ys) ∙ ground arith)
]
