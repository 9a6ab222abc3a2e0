-- ===== src/Campaigns/Flaky.antt =====
-- src/autoperf/campaigns.py, `repeat_analysis`: what the counts of a scenario say of its runs.
use auto_perf.Prelude.{
  ℕ, ◌+◌, ◌-◌, String, ◌≡◌, refl, ap, ◌∙◌, inl, inr, Bool, true, false, not, ◌&&◌, ◌||◌, List, [],
  ◌∷◌, arith, ◌==◌, ltb, Bool-cases, length, eq_iff, ==_refl, length-map,
}
use auto_perf.Prelude.Count.{
  one, count, any, all, select, count-select, count-congr, any-positive, length-select,
}
use auto_perf.Models.{RunStatus, is_completed, is_errored, is_terminal}
use auto_perf.Storage.Rows.{Run, Storage}
use auto_perf.Storage.Baselines.{run_quality}
use auto_perf.Prelude.Floats.{Arithmetic}
use auto_perf.Campaigns.Repeat.{is_verified, is_regressed, analyse_group}

all-weaken {ℓ} :
    {A : Type ℓ} (p q : A → Bool)
    → ((x : A) → p x ≡ true → q x ≡ true)
    → (xs : List A) → all p xs ≡ true
    → all q xs ≡ true
unfolding all
all-weaken p q h [] k = refl
all-weaken p q h (x ∷ xs) k = ground (arith, h x, all-weaken p q h xs)

select-same {ℓ} :
    {A : Type ℓ} (p q : A → Bool) (xs : List A)
    → all (λ x. not (p x) || q x) xs ≡ true
    → all (λ x. p x || not (q x)) xs ≡ true
    → select p xs ≡ select q xs
unfolding all select
select-same p q [] h k = refl
select-same p q (x ∷ xs) h k = ground (arith, select-same p q xs)

module _ (db : Storage) where
  verified : Run → Bool
  verified r = (run_quality db r.id).verified

  abbrev bad : Run → Bool
  bad r = not (verified r)

  -- A run whose id is among those of the unverified runs is not verified.
  id_among :
      (runs : List Run) (r : Run)
      → any (λ u. u.id == r.id) (select bad runs) ≡ true
      → verified r ≡ false
  unfolding any select verified
  id_among [] r h = cc
  id_among (u ∷ us) r h = elim (Bool-cases (bad u)) [
    | inr fine ↦ id_among us r (rw fine at h)
    | inl wrong ↦ elim (Bool-cases (u.id == r.id)) [
      | inl same ↦
          let one_id : verified u ≡ verified r =
            ap (λ (s : String). (run_quality db s).verified) ((eq_iff u.id r.id).0 same) in
          ground (arith, one_id, wrong)
      | inr other ↦ id_among us r (ground (arith, h, wrong, other))
    ]
  ]

  abbrev among : List Run → Run → Bool
  among runs r = any (λ u. u.id == r.id) (select bad runs)

  among-cons :
      (u : Run) (runs : List Run) (r : Run) → among runs r ≡ true → among (u ∷ runs) r ≡ true
  unfolding any select
  among-cons u runs r h = elim (Bool-cases (bad u)) [
    | inl wrong ↦ rw wrong (ground (arith, h))
    | inr fine ↦ rw fine h
  ]

  among_self : (r : Run) (runs : List Run) → (among (r ∷ runs) r || verified r) ≡ true
  unfolding any select
  among_self r runs = elim (Bool-cases (bad r)) [
    | inl wrong ↦ rw wrong (rw (==_refl r.id) refl)
    | inr fine ↦ ground (arith, fine)
  ]

  bad_among : (runs : List Run) → all (λ r. among runs r || verified r) runs ≡ true
  unfolding all
  bad_among [] = refl
  bad_among (r ∷ rs) = rw (among_self r rs) (
      all-weaken (λ x. among rs x || verified x) (λ x. among (r ∷ rs) x || verified x)
        (λ x h. ground (arith, among-cons r rs x)) rs (bad_among rs))

  all-true : (p : Run → Bool) → ((r : Run) → p r ≡ true) → (runs : List Run) → all p runs ≡ true
  unfolding all
  all-true p h [] = refl
  all-true p h (r ∷ rs) = rw (h r) (all-true p h rs)

  -- Leaving out the ids of the unverified runs leaves the verified runs.
  by_id :
      (runs : List Run)
      → select (λ r. not (any (λ u. u.id == r.id) (select bad runs))) runs ≡ select verified runs
  by_id runs =
      select-same (λ r. not (any (λ u. u.id == r.id) (select bad runs))) verified runs
        (all-weaken (λ r. any (λ u. u.id == r.id) (select bad runs) || verified r) _
          (λ r h. ground arith) runs (bad_among runs))
        (all-true _ (λ r. ground (arith, id_among runs r)) runs)

-- Two selections one after the other, as one count.
length-select_twice :
    (p q : Run → Bool) (runs : List Run)
    → length (select p (select q runs)) ≡ count (λ r. q r && p r) runs
length-select_twice p q runs = length-select p (select q runs) ∙ count-select p q runs

length-select_thrice :
    (p q r : Run → Bool) (runs : List Run)
    → length (select p (select q (select r runs))) ≡ count (λ x. (r x && q x) && p x) runs
length-select_thrice p q r runs =
    length-select_twice p q (select r runs)
    ∙ count-select (λ x. q x && p x) r runs
    ∙ count-congr _ _ (λ x. ground arith) runs

one_each :
    (s : RunStatus) (v : Bool)
    → 1
      ≡ one (not (is_terminal s))
        + one (is_completed s && v)
        + one (is_completed s && not v)
        + one (is_errored s)
one_each RunStatus.completed true = refl
one_each RunStatus.completed false = refl
one_each _ v = refl

module _ (a : Arithmetic) (db : Storage) (threshold_pct : a.Number) (scenario : String) where
  abbrev pub measured : Run → Bool
  measured r = is_completed r.status && is_verified a db threshold_pct r

  abbrev regresses : Run → Bool
  regresses r = is_regressed a db threshold_pct scenario r

  -- An iteration passes if it completed, carried out its scenario and did not regress; it fails if it
  -- did not come to its end, or carried out its scenario and regressed.
  abbrev pub passes : Run → Bool
  passes r = measured r && not (regresses r)

  abbrev pub fails : Run → Bool
  fails r = is_errored r.status || measured r && regresses r

  tallies :
      (runs : List Run)
      → (count measured runs ≡ count passes runs + count (λ r. measured r && regresses r) runs)
        × (count fails runs
            ≡ count (λ r. is_errored r.status) runs + count (λ r. measured r && regresses r) runs)
        × (length runs
            ≡ count (λ r. not (is_terminal r.status)) runs
              + count measured runs
              + count (λ r. is_completed r.status && not (is_verified a db threshold_pct r)) runs
              + count (λ r. is_errored r.status) runs)
  unfolding count
  tallies [] = (refl, refl, refl)
  tallies (r ∷ rs) =
      let t = tallies rs in
      (
        ground (arith, t.0),
        ground (arith, t.1),
        omega (arith, t.2, one_each r.status (is_verified a db threshold_pct r)),
      )

mixed :
    (passed regressed errored completed failed : ℕ)
    → completed ≡ passed + regressed
    → failed ≡ errored + regressed
    → (ltb 1 (completed + errored)
        && ltb 0 (completed - regressed)
        && ltb (completed - regressed) (completed + errored))
      ≡ (ltb 0 passed && ltb 0 failed)
mixed passed regressed errored completed failed h k = ground (arith, h, k)

-- The counts of a scenario in repeat_analysis, for any runs of it: each run is counted once, as pending,
-- as completed, as unverified or as errored. The completed runs are those whose status is completed and
-- whose own scenario was carried out; the code finds them by leaving out the ids of the others. The
-- regressed ones are those of them that regressed from the baseline. And the scenario is flaky exactly
-- if one of its runs passed and another failed: it passed if it completed, was carried out and did not
-- regress, and it failed if its status is failed or interrupted, or if it regressed.
pub analyse_group_exact :
    (a : Arithmetic) (db : Storage) (threshold_pct : a.Number) (scenario : String) (runs : List Run)
    → let result = analyse_group a db threshold_pct (scenario, runs) in
      (result.total ≡ result.pending + result.completed + result.unverified + result.errored)
      × (result.completed ≡ count (measured a db threshold_pct scenario) runs)
      × (length result.regressed
          ≡ count
              (λ r.
                measured a db threshold_pct scenario r
                && is_regressed a db threshold_pct scenario r)
              runs)
      × (result.flaky ≡ (
          any (passes a db threshold_pct scenario) runs
          && any (fails a db threshold_pct scenario) runs))
unfolding analyse_group verified
analyse_group_exact a db threshold_pct scenario runs =
    let P = passes a db threshold_pct scenario in
    let F = fails a db threshold_pct scenario in
    let ok = λ (r : Run). is_completed r.status in
    let v = λ (r : Run). is_verified a db threshold_pct r in
    let g = λ (r : Run). is_regressed a db threshold_pct scenario r in
    let bad = λ (r : Run). not (v r) in
    let t = tallies a db threshold_pct scenario runs in
    rw
      (
        by_id db (select ok runs),
        any-positive P runs,
        any-positive F runs,
        length-map (λ (r : Run). r.id) (select g (select v (select ok runs))),
        length-select (λ (r : Run). not (is_terminal r.status)) runs,
        length-select (λ (r : Run). is_errored r.status) runs,
        length-select_twice v ok runs,
        length-select_twice bad ok runs,
        length-select_thrice g v ok runs,
      )
      (t.2, refl, refl, mixed _ _ _ _ _ t.0 t.1)
