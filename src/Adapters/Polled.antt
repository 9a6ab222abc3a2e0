-- ===== src/Adapters/Polled.antt =====
-- src/autoperf/adapters.py: which reading the checks that wait answer with, and when they end; the wait for playback.
use mathlib.Core.Path.{subst}
use mathlib.Core.Bool.{true≢false}
use auto_perf.Prelude.{
  ℕ, zero, suc, ◌+◌, ◌≤◌, ◌<◌, ◌≡◌, sym, ap, ◌∙◌, Bool, true, false, ◌⊎◌, inl, inr, Option, some,
  arith, leb, Bool-cases,
}
use auto_perf.Adapters.Polling.{poll, is_late, is_true, playback, playback_of, verify_playing}

module _ {A : Type 0} (reading : ℕ → A) (hit : A → Bool) (late : ℕ → Bool) where
  -- The answer of a loop that reads at most `n + 1` times from `i` on.
  abbrev pub Polled : ℕ → ℕ → Option A → Type 0
  Polled n i result =
      (k : ℕ) × (k ≤ n)
      × (result ≡ some (reading (i + k)))
      × ((j : ℕ) → j < k → (hit (reading (i + j)) ≡ false) × (late (i + j) ≡ false))
      × ((hit (reading (i + k)) ≡ true) ⊎ (late (i + k) ≡ true))

  earlier :
      (i k : ℕ)
      → hit (reading i) ≡ false
      → late i ≡ false
      → ((j : ℕ) → j < k → (hit (reading (suc i + j)) ≡ false) × (late (suc i + j) ≡ false))
      → (j : ℕ) → j < suc k
      → (hit (reading (i + j)) ≡ false) × (late (i + j) ≡ false)
  earlier i k missed early before zero below =
      let here : i ≡ i + 0 = omega arith in
      subst (λ m. (hit (reading m) ≡ false) × (late m ≡ false)) here (missed, early)
  earlier i k missed early before (suc j) below =
      let here : suc i + j ≡ i + suc j = omega arith in
      subst (λ m. (hit (reading m) ≡ false) × (late m ≡ false)) here
        (before j (omega (arith, below)))

  Polled-here :
      (n i : ℕ) → (hit (reading i) ≡ true) ⊎ (late i ≡ true) → Polled n i (some (reading i))
  Polled-here n i why =
      let here : i ≡ i + 0 = omega arith in
      (
        0,
        omega arith,
        ap (λ m. some (reading m)) here,
        λ j. λ below. absurd (omega (arith, below)),
        subst (λ m. (hit (reading m) ≡ true) ⊎ (late m ≡ true)) here why,
      )

  Polled-later :
      (n i : ℕ) (result : Option A)
      → hit (reading i) ≡ false
      → late i ≡ false
      → Polled n (suc i) result
      → Polled (suc n) i result
  Polled-later n i result missed early (k, bound, same, before, why) =
      let here : suc i + k ≡ i + suc k = omega arith in
      let before_all = earlier i k missed early before in
      (
        suc k,
        omega (arith, bound),
        same ∙ ap (λ m. some (reading m)) here,
        before_all,
        subst (λ m. (hit (reading m) ≡ true) ⊎ (late m ≡ true)) here why,
      )

  one_turn-Polled :
      (n left i : ℕ)
      → (hit (reading i) ≡ false → late i ≡ false → Polled n i (poll reading hit late left (suc i)))
      → Polled n i (poll reading hit late (suc left) i)
  unfolding poll
  one_turn-Polled n left i next = elim (Bool-cases (hit (reading i))) [
    | inl reached ↦ rw (poll, reached) (Polled-here n i (inl reached))
    | inr missed ↦ elim (Bool-cases (late i)) [
      | inl up ↦ rw (poll, missed, up) (Polled-here n i (inr up))
      | inr early ↦ rw (poll, missed, early) (next missed early)
    ]
  ]

  -- A loop whose time is up by its last reading ends.
  poll-Polled : (n i : ℕ) → late (i + n) ≡ true → Polled n i (poll reading hit late (suc n) i)
  poll-Polled zero i over =
      let here : i ≡ i + 0 = omega arith in
      one_turn-Polled 0 0 i
        (λ missed early. absurd (true≢false (sym over ∙ ap late (sym here) ∙ early)))
  poll-Polled (suc n) i over =
      let here : suc i + n ≡ i + suc n = omega arith in
      one_turn-Polled (suc n) (suc n) i (λ missed early.
        Polled-later n i (poll reading hit late (suc n) (suc i)) missed early
          (poll-Polled n (suc i) (ap late here ∙ over)))

  abbrev pub Stopped : ℕ → Option A → Type 0
  Stopped n result =
      (k : ℕ) × (k ≤ n)
      × (result ≡ some (reading k))
      × ((j : ℕ) → j < k → (hit (reading j) ≡ false) × (late j ≡ false))
      × ((hit (reading k) ≡ true) ⊎ (late k ≡ true))

  pub poll-Stopped : (n : ℕ) → late n ≡ true → Stopped n (poll reading hit late (suc n) 0)
  poll-Stopped n over =
      let from_zero : (m : ℕ) → 0 + m ≡ m = λ m. omega arith in
      let (k, bound, same, before, why) = poll-Polled n 0 (ap late (from_zero n) ∙ over) in
      (
        k,
        bound,
        same ∙ ap (λ m. some (reading m)) (from_zero k),
        λ j below.
            subst (λ m. (hit (reading m) ≡ false) × (late m ≡ false)) (from_zero j)
              (before j below),
        subst (λ m. (hit (reading m) ≡ true) ⊎ (late m ≡ true)) (from_zero k) why,
      )

-- A wait for playback whose time is up by its `n + 1`-th reading ends by then, and its answer is the
-- verdict of one reading: playing is verified, no session to read is unknown and not a failure, and
-- not playing is a failure. No reading before it saw playback, none before it was at or after the deadline,
-- and that reading saw playback or was.
pub verify_playing_exact :
    (playing : ℕ → Option Bool) (timeout : ℕ) (now : ℕ → ℕ) (n : ℕ)
    → leb timeout (now n) ≡ true
    → (k : ℕ) × (k ≤ n)
      × (verify_playing playing timeout now (suc n) ≡ some (playback (playing k)))
      × ((j : ℕ) → j < k → (is_true (playing j) ≡ false) × (leb timeout (now j) ≡ false))
      × ((is_true (playing k) ≡ true) ⊎ (leb timeout (now k) ≡ true))
unfolding verify_playing
verify_playing_exact playing timeout now n over =
    let (k, bound, same, before, why) = poll-Stopped playing is_true (is_late timeout now) n over in
    (k, bound, ap playback_of same, before, why)
