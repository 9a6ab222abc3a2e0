-- ===== src/Adapters/Retries.antt =====
-- src/autoperf/adapters.py, `_resolve`: how often the screen is read, and which reading counts.
use mathlib.Core.Path.{subst, transport}
use auto_perf.Prelude.{
  ℕ, zero, suc, ◌+◌, ◌≤◌, ◌<◌, String, ◌≡◌, refl, sym, ap, ◌∙◌, true, false, ◌⊎◌, inl, inr, Option,
  none, arith, ltb, Bool, ◌||◌, Bool-cases,
}
use auto_perf.UiAuto.{Target, Resolution}
use auto_perf.Adapters.Lookup.{
  Waits, Dump, Cost, no_cost, add_dump, is_match, pause, seen, attempts, lookup,
}

module _ (lower : String → String) (t : Target) (screen : ℕ × ℕ) (device : ℕ → Dump) where
  -- One of the `k` readings from `attempt` on matched.
  unfoldable pub matched_before : ℕ → ℕ → Bool
  matched_before attempt zero = false
  matched_before attempt (suc k) =
      is_match (seen lower t screen device attempt) || matched_before (suc attempt) k

  -- When the `k`-th reading from `attempt` on is judged, where the first begins at `now`: each reading
  -- takes its time, and the pause of a retry comes before the next.
  unfoldable pub judged_at : Waits → ℕ → ℕ → ℕ → ℕ
  judged_at w now attempt zero = now + (device attempt).spent + (device attempt).lag
  judged_at w now attempt (suc k) =
      judged_at w (now + (device attempt).spent + (device attempt).lag + w.resolve_retry)
        (suc attempt) k

  -- Another reading that takes as long as the `k`-th did would end after the budget.
  abbrev pub OutOfTime : Waits → ℕ → ℕ → ℕ → Type 0
  OutOfTime w now attempt k =
      w.resolve_budget < judged_at w now attempt k + w.resolve_retry + (device (attempt + k)).spent

  -- What `left + 1` attempts lead to: the `k`-th reading counts, and none before it matched or was out
  -- of time.
  abbrev pub Attempted : Waits → ℕ → ℕ → ℕ → ℕ → Option Resolution × Cost → Type 0
  Attempted w now left attempt dumps (resolution, cost) =
      (k : ℕ) × (k ≤ left)
      × (resolution ≡ seen lower t screen device (attempt + k))
      × (cost.dumps ≡ dumps + suc k)
      × (matched_before attempt k ≡ false)
      × ((j : ℕ) → j < k → ¬ OutOfTime w now attempt j)
      × ((k ≡ left)
          ⊎ (is_match resolution ≡ true)
          ⊎ ((cost.resolve_budget_spent ≡ true) × OutOfTime w now attempt k))

  OutOfTime-here :
      (w : Waits) (now attempt : ℕ)
      → ltb w.resolve_budget (
          now
          + (device attempt).spent
          + (device attempt).lag
          + w.resolve_retry
          + (device attempt).spent)
        ≡ true
      → OutOfTime w now attempt 0
  unfolding judged_at
  OutOfTime-here w now attempt late =
      let here : attempt ≡ attempt + 0 = omega arith in
      subst
        (λ n.
          w.resolve_budget
          < now
            + (device attempt).spent
            + (device attempt).lag
            + w.resolve_retry
            + (device n).spent)
        here (ground (arith, late))

  Attempted-here :
      (w : Waits) (now left attempt dumps : ℕ) (cost : Cost)
      → cost.dumps ≡ suc dumps
      → ((0 ≡ left)
          ⊎ (is_match (seen lower t screen device attempt) ≡ true)
          ⊎ ((cost.resolve_budget_spent ≡ true) × OutOfTime w now attempt 0))
      → Attempted w now left attempt dumps (seen lower t screen device attempt, cost)
  unfolding matched_before
  Attempted-here w now left attempt dumps cost count why =
      let here : attempt ≡ attempt + 0 = omega arith in
      (
        0,
        omega arith,
        ap (seen lower t screen device) here,
        omega (arith, count),
        refl,
        λ j below. absurd (omega (arith, below)),
        why,
      )

  OutOfTime-later :
      (w : Waits) (now attempt k : ℕ)
      → let checked = now + (device attempt).spent + (device attempt).lag in
        OutOfTime w (checked + w.resolve_retry) (suc attempt) k ≡ OutOfTime w now attempt (suc k)
  unfolding judged_at
  OutOfTime-later w now attempt k =
      let here : suc attempt + k ≡ attempt + suc k = omega arith in
      ap
        (λ n.
          w.resolve_budget < judged_at w now attempt (suc k) + w.resolve_retry + (device n).spent)
        here

  in_time :
      (w : Waits) (now attempt k : ℕ)
      → let checked = now + (device attempt).spent + (device attempt).lag in
        ltb w.resolve_budget (checked + w.resolve_retry + (device attempt).spent) ≡ false
        → ((j : ℕ) → j < k → ¬ OutOfTime w (checked + w.resolve_retry) (suc attempt) j)
        → (j : ℕ) → j < suc k
        → ¬ OutOfTime w now attempt j
  unfolding judged_at
  in_time w now attempt k early before zero below over =
      let here : attempt + 0 ≡ attempt = omega arith in
      let over_here =
        subst
          (λ n.
            w.resolve_budget
            < now
              + (device attempt).spent
              + (device attempt).lag
              + w.resolve_retry
              + (device n).spent)
          here over in
      absurd (ground (arith, early, over_here))
  in_time w now attempt k early before (suc j) below over =
      before j (omega (arith, below)) (transport (sym (OutOfTime-later w now attempt j)) over)

  Attempted-later :
      (w : Waits) (now left attempt dumps : ℕ) (answer : Option Resolution × Cost)
      → let checked = now + (device attempt).spent + (device attempt).lag in
        is_match (seen lower t screen device attempt) ≡ false
        → ltb w.resolve_budget (checked + w.resolve_retry + (device attempt).spent) ≡ false
        → Attempted w (checked + w.resolve_retry) left (suc attempt) (suc dumps) answer
        → Attempted w now (suc left) attempt dumps answer
  unfolding matched_before
  Attempted-later w now left attempt dumps (resolution, cost) missed early
        (k, bound, same, count, before, timely, why) =
      let here : suc attempt + k ≡ attempt + suc k = omega arith in
      (
        suc k,
        omega (arith, bound),
        same ∙ ap (seen lower t screen device) here,
        omega (arith, count),
        ground (arith, missed, before),
        in_time w now attempt k early timely,
        elim why [
          | inl all_used ↦ inl (ap suc all_used)
          | inr (inl hit) ↦ inr (inl hit)
          | inr (inr (spent, over)) ↦
              inr (inr (spent, transport (OutOfTime-later w now attempt k) over))
        ],
      )

module _ (lower : String → String) (t : Target) (screen : ℕ × ℕ) (device : ℕ → Dump) (w : Waits)
    (left attempt now : ℕ) (cost : Cost) (resolution : Option Resolution) where
  abbrev found : Option Resolution
  found = seen lower t screen device attempt

  abbrev checked : ℕ
  checked = now + (device attempt).spent + (device attempt).lag

  abbrev result : Option Resolution × Cost
  result = attempts lower t screen device w (suc left) attempt now cost resolution

  abbrev rest : Option Resolution × Cost
  rest =
      attempts lower t screen device w left (suc attempt) (checked + pause w left) (add_dump cost)
        found

  stops : is_match found ≡ true → result ≡ (found, add_dump cost)
  unfolding attempts
  stops hit = rw (attempts, hit) refl

  gives_up :
      is_match found ≡ false
      → ltb w.resolve_budget (checked + w.resolve_retry + (device attempt).spent) ≡ true
      → result ≡ (found, record (add_dump cost) { resolve_budget_spent = true })
  unfolding attempts
  gives_up missed late = rw (attempts, missed, late) refl

  goes_on :
      is_match found ≡ false
      → ltb w.resolve_budget (checked + w.resolve_retry + (device attempt).spent) ≡ false
      → result ≡ rest
  unfolding attempts
  goes_on missed early = rw (attempts, missed, early) refl

  step-Attempted :
      (is_match found ≡ false
        → ltb w.resolve_budget (checked + w.resolve_retry + (device attempt).spent) ≡ false
        → Attempted lower t screen device w now left attempt cost.dumps rest)
      → Attempted lower t screen device w now left attempt cost.dumps result
  step-Attempted next = elim (Bool-cases (is_match found)) [
    | inl hit ↦
        subst (Attempted lower t screen device w now left attempt cost.dumps) (sym (stops hit)) (
          Attempted-here lower t screen device w now left attempt cost.dumps (add_dump cost) refl
            (inr (inl hit)))
    | inr missed ↦
        elim (Bool-cases
          (ltb w.resolve_budget (checked + w.resolve_retry + (device attempt).spent))) [
            | inl late ↦
                subst (Attempted lower t screen device w now left attempt cost.dumps)
                  (sym (gives_up missed late))
                  (Attempted-here lower t screen device w now left attempt cost.dumps
                    (record (add_dump cost) { resolve_budget_spent = true }) refl
                    (inr (inr (refl, OutOfTime-here lower t screen device w now attempt late))))
            | inr early ↦
                subst (Attempted lower t screen device w now left attempt cost.dumps)
                  (sym (goes_on missed early)) (next missed early)
          ]
  ]

pub attempts-Attempted :
    (lower : String → String) (t : Target) (screen : ℕ × ℕ) (device : ℕ → Dump) (w : Waits)
    (left attempt now : ℕ) (cost : Cost) (resolution : Option Resolution)
    → Attempted lower t screen device w now left attempt cost.dumps
        (attempts lower t screen device w (suc left) attempt now cost resolution)
unfolding attempts
attempts-Attempted lower t screen device w zero attempt now cost resolution =
    step-Attempted lower t screen device w zero attempt now cost resolution (λ missed early.
      Attempted-here lower t screen device w now zero attempt cost.dumps (add_dump cost) refl
        (inl refl))
attempts-Attempted lower t screen device w (suc left) attempt now cost resolution =
    step-Attempted lower t screen device w (suc left) attempt now cost resolution (λ missed early.
      Attempted-later lower t screen device w now left attempt cost.dumps
        (rest lower t screen device w (suc left) attempt now cost resolution) missed early
        (attempts-Attempted lower t screen device w left (suc attempt)
          (now + (device attempt).spent + (device attempt).lag + w.resolve_retry) (add_dump cost)
          (seen lower t screen device attempt)))

-- A lookup that may read the screen at all reads it at least once and at most as often as it may. The
-- last reading is the answer and its number is the cost that is reported. It is the last for one of
-- three reasons: the readings are used up, it matched a selector, or a pause and another reading as long as
-- it would end after the budget, which is reported as spent. No reading before it matched, and none
-- before it was out of time.
pub lookup_exact :
    (lower : String → String) (t : Target) (screen : ℕ × ℕ) (device : ℕ → Dump) (w : Waits)
    (left : ℕ)
    → w.resolve_attempts ≡ suc left
    → Attempted lower t screen device w 0 left 0 0 (lookup lower t screen device w)
unfolding lookup
lookup_exact lower t screen device w left enough =
    subst
      (λ n.
        Attempted lower t screen device w 0 left 0 0
          (attempts lower t screen device w n 0 0 no_cost none))
      (sym enough) (attempts-Attempted lower t screen device w left 0 0 no_cost none)
