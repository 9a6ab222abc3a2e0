-- ===== src/Runner/Spaced.antt =====
-- src/autoperf/runner.py, `run`: how often a collector is submitted.
use auto_perf.Prelude.{
  ℕ, ◌+◌, ◌≤◌, String, ◌≡◌, refl, ap, ◌⊎◌, inl, inr, Bool, true, false, not, ◌&&◌, ◌||◌, List, [],
  ◌∷◌, ◌++◌, arith, ◌==◌, leb, ltb, Bool-cases, eq_iff, ==_refl,
}
use auto_perf.Prelude.Count.{any, all}
use auto_perf.Runner.Sampling.{
  Collector, Sampling, is_name, is_active, put_due, submitted, submit_collector, submit_collectors,
}

-- What the spacing of the submissions rests on.
pub record Pace : Type 0 where
  pub due : String → ℕ
  pub sampled : List (Collector × ℕ)

abbrev pub pace_of : Sampling → Pace
pace_of s = record { due = s.due; sampled = s.sampled }

-- Of two submissions of one collector, the later is an interval or more after the earlier.
abbrev pub AllApart : Collector → ℕ → List (Collector × ℕ) → Type 0
AllApart c at [] = Unit
AllApart c at ((other, before) ∷ earlier) =
    (((other.name == c.name) ≡ false) ⊎ (before + other.interval ≤ at)) × AllApart c at earlier

abbrev pub IsSpaced : List (Collector × ℕ) → Type 0
IsSpaced [] = Unit
IsSpaced ((c, at) ∷ earlier) = AllApart c at earlier × IsSpaced earlier

abbrev pub AllDue : (String → ℕ) → List (Collector × ℕ) → Type 0
AllDue due [] = Unit
AllDue due ((c, at) ∷ earlier) = (at + c.interval ≤ due c.name) × AllDue due earlier

pub record IsPaced (p : Pace) : Type 0 where
  pub spaced : IsSpaced p.sampled
  pub not_before : AllDue p.due p.sampled

AllDue-apart :
    (c : Collector) (now : ℕ) (due : String → ℕ) (earlier : List (Collector × ℕ))
    → due c.name ≤ now
    → AllDue due earlier
    → AllApart c now earlier
AllDue-apart c now due [] h d = tt
AllDue-apart c now due ((other, before) ∷ earlier) h (one, d) = (
  elim (Bool-cases (other.name == c.name)) [
    | inl same ↦ inr (omega (arith, ap due ((eq_iff other.name c.name).0 same)))
    | inr differs ↦ inl differs
  ],
  AllDue-apart c now due earlier h d,
)

AllDue-put :
    (name : String) (at : ℕ) (due : String → ℕ) (earlier : List (Collector × ℕ))
    → due name ≤ at
    → AllDue due earlier
    → AllDue (put_due name at due) earlier
AllDue-put name at due [] h d = tt
AllDue-put name at due ((other, before) ∷ earlier) h (one, d) = (
  elim (Bool-cases (other.name == name)) [
    | inl same ↦ rw same (omega (arith, ap due ((eq_iff other.name name).0 same)))
    | inr differs ↦ rw differs one
  ],
  AllDue-put name at due earlier h d,
)

submitted-IsPaced :
    (now : ℕ) (c : Collector) (s : Sampling)
    → s.due c.name ≤ now
    → IsPaced (pace_of s)
    → IsPaced (pace_of (submitted now c s))
submitted-IsPaced now c s h p = record {
  spaced = (AllDue-apart c now s.due s.sampled h p.not_before, p.spaced);
  not_before = (
    rw (==_refl c.name) (omega arith),
    AllDue-put c.name (now + c.interval) s.due s.sampled (omega arith) p.not_before,
  );
}

submit_collector-IsPaced :
    (now : ℕ) (c : Collector) (s : Sampling)
    → IsPaced (pace_of s)
    → IsPaced (pace_of (submit_collector now c s))
unfolding submit_collector
submit_collector-IsPaced now c s p =
    elim (Bool-cases (leb (s.due c.name) now && not (is_active c.name s))) [
      | inl e ↦ rw e (submitted-IsPaced now c s (ground (arith, e)) p)
      | inr n ↦ rw n p
    ]

pub submit_collectors-IsPaced :
    (now : ℕ) (cs : List Collector) (s : Sampling)
    → IsPaced (pace_of s)
    → IsPaced (pace_of (submit_collectors now cs s))
unfolding submit_collectors
submit_collectors-IsPaced now [] s p = p
submit_collectors-IsPaced now (c ∷ cs) s p =
    submit_collectors-IsPaced now cs (submit_collector now c s) (submit_collector-IsPaced now c s p)

-- A collector is in flight, or its next time lies ahead.
abbrev pub is_served : ℕ → Collector → Sampling → Bool
is_served now c s = is_active c.name s || ltb now (s.due c.name)

any-append :
    (name : String) (xs ys : List (String × ℕ))
    → any (is_name name) xs ≡ true
    → any (is_name name) (xs ++ ys) ≡ true
unfolding any
any-append name [] ys h = cc
any-append name (x ∷ xs) ys h = ground (arith, any-append name xs ys)

any-last :
    (name : String) (at : ℕ) (xs : List (String × ℕ))
    → any (is_name name) (xs ++ (name, at) ∷ []) ≡ true
unfolding any
any-last name at [] = rw (==_refl name)
any-last name at (x ∷ xs) = ground (arith, any-last name at xs)

submit_collector-served :
    (now : ℕ) (c : Collector) (s : Sampling) → is_served now c (submit_collector now c s) ≡ true
unfolding submit_collector
submit_collector-served now c s =
    elim (Bool-cases (leb (s.due c.name) now && not (is_active c.name s))) [
      | inl e ↦ rw e (rw (any-last c.name now s.active))
      | inr n ↦ rw n (ground (arith, n))
    ]

submit_collector-still :
    (now : ℕ) (c other : Collector) (s : Sampling)
    → is_served now other s ≡ true
    → is_served now other (submit_collector now c s) ≡ true
unfolding submit_collector
submit_collector-still now c other s h =
    elim (Bool-cases (leb (s.due c.name) now && not (is_active c.name s))) [
      | inl e ↦ rw e (elim (Bool-cases (other.name == c.name)) [
        | inl same ↦ rw ((eq_iff other.name c.name).0 same) (rw (any-last c.name now s.active))
        | inr differs ↦ elim (Bool-cases (is_active other.name s)) [
          | inl on ↦ rw (any-append other.name s.active ((c.name, now) ∷ []) on)
          | inr off ↦ rw differs (ground (arith, h, off))
        ]
      ])
      | inr n ↦ rw n h
    ]

still_served :
    (now : ℕ) (other : Collector) (cs : List Collector) (s : Sampling)
    → is_served now other s ≡ true
    → is_served now other (submit_collectors now cs s) ≡ true
unfolding submit_collectors
still_served now other [] s h = h
still_served now other (c ∷ cs) s h =
    still_served now other cs (submit_collector now c s) (submit_collector-still now c other s h)

-- The loop over the collectors leaves each of them in flight or not due yet.
pub served_from :
    (now : ℕ) (cs : List Collector) (s : Sampling)
    → all (λ c. is_served now c (submit_collectors now cs s)) cs ≡ true
unfolding submit_collectors all
served_from now [] s = refl
served_from now (c ∷ cs) s =
    rw (still_served now c cs (submit_collector now c s) (submit_collector-served now c s))
      (served_from now cs (submit_collector now c s))
