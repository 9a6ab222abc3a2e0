-- ===== src/Runner/Rounds.antt =====
-- src/autoperf/runner.py, `run`: a proof rule for the control loop, and when the loop ends.
use mathlib.Core.Path.{subst}
use auto_perf.Prelude.{
  ℕ, ◌-◌, String, ◌≡◌, refl, sym, ◌∙◌, ◌⊎◌, inl, inr, Bool, true, false, ◌||◌, Option, none, some,
  List, [], ◌∷◌, arith, leb, Bool-cases,
}
use auto_perf.Prelude.Count.{any}
use auto_perf.Runner.Loop.{
  TestRunner, Loop, Tick, Outcome, going, raised, and_then, Act, body, check_cancel, arrive,
  goes_on, rounds,
}
use auto_perf.Runner.Frame.{left}

pub Outcome-cases : (o : Outcome) → ((s : Loop) × (o ≡ going s)) ⊎ ((s : Loop) × (o ≡ raised s))
Outcome-cases (going s) = inl (s, refl)
Outcome-cases (raised s) = inr (s, refl)

module _ (r : TestRunner) (str : ℕ → String) (t : Tick) (ts : List Tick) (s : Loop) where
  abbrev pub looked : Loop
  looked = check_cancel r t (arrive t s)

  pub rounds-over :
      goes_on r t (arrive t s) ≡ false → rounds r str (t ∷ ts) s ≡ some (going (arrive t s))
  unfolding rounds
  rounds-over over = rw (rounds, over) refl

  pub rounds-cancelled :
      goes_on r t (arrive t s) ≡ true
      → looked.stop ≡ true
      → rounds r str (t ∷ ts) s ≡ some (going looked)
  unfolding rounds
  rounds-cancelled on stop = rw (rounds, on) (simp stop)

  pub rounds-next :
      {s' : Loop}
      → goes_on r t (arrive t s) ≡ true
      → looked.stop ≡ false
      → body r str t looked ≡ going s'
      → rounds r str (t ∷ ts) s ≡ rounds r str ts s'
  unfolding rounds
  rounds-next on stop e = rw (rounds, on) (rw stop (rw e refl))

  pub rounds-raised :
      {s' : Loop}
      → goes_on r t (arrive t s) ≡ true
      → looked.stop ≡ false
      → body r str t looked ≡ raised s'
      → rounds r str (t ∷ ts) s ≡ some (raised s')
  unfolding rounds
  rounds-raised on stop e = rw (rounds, on) (rw stop (rw e refl))

-- What holds of the state that a loop leaves, if it has ended.
abbrev pub AtEnd : (Loop → Type 0) → Option Outcome → Type 0
AtEnd P none = Unit
AtEnd P (some o) = P (left o)

abbrev pub Keeps : (Loop → Type 0) → Act → Type 0
Keeps P m = (s : Loop) → P s → P (left (m s))

pub keeps_then :
    (P : Loop → Type 0) (o : Outcome) (k : Act) → Keeps P k → P (left o) → P (left (and_then o k))
keeps_then P (going s) k keeps p = keeps s p
keeps_then P (raised s) k keeps p = p

-- What to show of an invariant of the loop.
pub record Rule (r : TestRunner) (str : ℕ → String) (P : Loop → Type 0) : Type 0 where
  pub arrives : (t : Tick) (s : Loop) → P s → P (arrive t s)
  pub looks : (t : Tick) (s : Loop) → P s → P (check_cancel r t s)
  pub goes : (t : Tick) → Keeps P (body r str t)

module _ (r : TestRunner) (str : ℕ → String) {P : Loop → Type 0} (rule : Rule r str P) where
  open rule use {arrives, looks, goes}

  pub rounds-keep : (ts : List Tick) (s : Loop) → P s → AtEnd P (rounds r str ts s)
  unfolding rounds
  rounds-keep [] s p = tt
  rounds-keep (t ∷ ts) s p =
      let here = arrives t s p in
      let seen = looks t (arrive t s) here in
      elim (Bool-cases (goes_on r t (arrive t s))) [
        | inr over ↦ subst (AtEnd P) (sym (rounds-over r str t ts s over)) here
        | inl on ↦ elim (Bool-cases (looked r str t ts s).stop) [
          | inl stop ↦ subst (AtEnd P) (sym (rounds-cancelled r str t ts s on stop)) seen
          | inr stop ↦ elim (Outcome-cases (body r str t (looked r str t ts s))) [
            | inl (s', e) ↦
                let kept = subst (λ o. P (left o)) e (goes t (looked r str t ts s) seen) in
                subst (AtEnd P) (sym (rounds-next r str t ts s on stop e)) (rounds-keep ts s' kept)
            | inr (s', e) ↦
                subst (AtEnd P) (sym (rounds-raised r str t ts s on stop e))
                  (subst (λ o. P (left o)) e (goes t (looked r str t ts s) seen))
          ]
        ]
      ]

-- A round at which the loop has to end: Ctrl+C, or the run's time is over.
abbrev pub is_last : TestRunner → Tick → Bool
is_last r t = t.interrupted || leb r.duration (t.checked - r.started)

pub is_last-over :
    (r : TestRunner) (t : Tick) (s : Loop) → is_last r t ≡ true → goes_on r t (arrive t s) ≡ false
is_last-over r t s h = ground arith

pub rounds-end :
    (r : TestRunner) (str : ℕ → String) (ts : List Tick) (s : Loop)
    → any (is_last r) ts ≡ true
    → (o : Outcome) × (rounds r str ts s ≡ some o)
unfolding any
rounds-end r str [] s h = cc
rounds-end r str (t ∷ ts) s h = elim (Bool-cases (goes_on r t (arrive t s))) [
  | inr over ↦ (going (arrive t s), rounds-over r str t ts s over)
  | inl on ↦ elim (Bool-cases (looked r str t ts s).stop) [
    | inl stop ↦ (going (looked r str t ts s), rounds-cancelled r str t ts s on stop)
    | inr stop ↦ elim (Outcome-cases (body r str t (looked r str t ts s))) [
      | inl (s', e) ↦
          let later = rounds-end r str ts s' (elim (Bool-cases (is_last r t)) [
            | inl last ↦ cc (on, is_last-over r t s last)
            | inr other ↦ rw other at h
          ]) in
          (later.0, rounds-next r str t ts s on stop e ∙ later.1)
      | inr (s', e) ↦ (raised s', rounds-raised r str t ts s on stop e)
    ]
  ]
]
