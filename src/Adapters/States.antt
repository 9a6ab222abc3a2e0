-- ===== src/Adapters/States.antt =====
-- src/autoperf/adapters.py, `verify_element_state`: which lookup decides, and what it decides.
use mathlib.Core.Path.{subst}
use mathlib.Core.Bool.{true≢false}
use auto_perf.Prelude.{
  ℕ, zero, suc, ◌≤◌, ◌<◌, String, ◌≡◌, ◌≢◌, refl, sym, ap, ◌∙◌, Bool, true, false, not, ◌⊎◌, inl,
  inr, Option, none, some, arith, leb, ◌==◌, if◌then◌else◌, Bool-cases, eq_iff,
}
use auto_perf.UiAuto.{Node, Target, Resolution}
use auto_perf.Adapters.Lookup.{Waits, Dump, Cost, no_cost, attempts}
use auto_perf.Adapters.Retries.{Attempted, attempts-Attempted}
use auto_perf.Adapters.Polling.{
  is_late, is_verifiable, state_of, is_as, is_in_state, StateCheck, unsupported, in_state,
  unreadable, wrong_state, reading, is_reached, missed, judged, judged_of, verify_element_state,
}
use auto_perf.Adapters.Polled.{poll-Stopped}

-- The node shows a value of the state, which is one of the two that can be checked.
abbrev pub Shows : String → Bool → Node → Type 0
Shows state value n =
    ((state ≡ "selected") × (n.selected ≡ value)) ⊎ ((state ≡ "checked") × (n.checked ≡ value))

-- A lookup found a node with that value.
abbrev pub Finds : String → Bool → Option Resolution → Type 0
Finds state value none = ⊥
Finds state value (some r) = (n : Node) × (r.node ≡ some n) × Shows state value n

-- A lookup found no node: nothing at all, or a coordinate.
abbrev pub FindsNone : Option Resolution → Type 0
FindsNone none = Unit
FindsNone (some r) = r.node ≡ none

abbrev pub PassesWith : Option Resolution → Cost → StateCheck → Type 0
PassesWith none cost check = ⊥
PassesWith (some r) cost check = check ≡ in_state r.strategy cost

-- What a lookup makes of the check: it passes, it cannot tell, or it fails with the state found.
abbrev pub Judges : String → Bool → Option Resolution × Cost → StateCheck → Type 0
Judges state expected (found, cost) check =
    (Finds state expected found × PassesWith found cost check)
    ⊎ (FindsNone found × (check ≡ unreadable cost))
    ⊎ (Finds state (not expected) found × (check ≡ wrong_state (not expected)))

is_as-cases :
    (expected b : Bool)
    → ((is_as expected b ≡ true) × (b ≡ expected))
      ⊎ ((is_as expected b ≡ false) × (b ≡ not expected))
is_as-cases true true = inl (refl, refl)
is_as-cases true false = inr (refl, refl)
is_as-cases false true = inr (refl, refl)
is_as-cases false false = inl (refl, refl)

opposite-ne : (b : Bool) → b ≢ not b
opposite-ne true e = true≢false e
opposite-ne false e = true≢false (sym e)

module _ (state : String) (supported : is_verifiable state ≡ true) where
  is_one_of_two : (state ≡ "selected") ⊎ (state ≡ "checked")
  is_one_of_two = elim (Bool-cases (state == "selected")) [
    | inl same ↦ inl ((eq_iff state "selected").0 same)
    | inr other ↦ inr ((eq_iff state "checked").0 (ground (arith, supported, other)))
  ]

  Shows-state_of : (n : Node) → Shows state (state_of state n) n
  Shows-state_of n = elim (Bool-cases (state == "selected")) [
    | inl same ↦ inl ((eq_iff state "selected").0 same, rw same refl)
    | inr other ↦ inr ((eq_iff state "checked").0 (ground (arith, supported, other)), rw other refl)
  ]

  Shows-when : (n : Node) {value : Bool} → state_of state n ≡ value → Shows state value n
  Shows-when n e = subst (λ v. Shows state v n) e (Shows-state_of n)

refused :
    (state : String) → is_verifiable state ≡ false → (state ≢ "selected") × (state ≢ "checked")
refused state other = (
  λ e. true≢false (ap is_verifiable (sym e) ∙ other),
  λ e. true≢false (ap is_verifiable (sym e) ∙ other),
)

-- The value that a node shows is the one that the code reads.
state_of-Shows :
    (state : String) (value : Bool) (n : Node) → Shows state value n → state_of state n ≡ value
state_of-Shows state value n (inl (e, shows)) = ap (λ s. state_of s n) e ∙ shows
state_of-Shows state value n (inr (e, shows)) = ap (λ s. state_of s n) e ∙ shows

module _ (lower : String → String) (t : Target) (screen : ℕ × ℕ) (w : Waits) (device : ℕ → ℕ → Dump)
    (state : String) (expected : Bool) where
  abbrev sees : ℕ → Option Resolution × Cost
  sees = reading lower t screen w device state expected

  judged-Judges :
      is_verifiable state ≡ true
      → (r : Option Resolution × Cost)
      → Judges state expected r (judged lower t screen w device state expected r)
  judged-Judges supported (none, cost) = inr (inl (tt, refl))
  judged-Judges supported (some r, cost) = by_node r.node refl
    where
      by_node :
          (o : Option Node)
          → r.node ≡ o
          → Judges state expected
              (some r, cost)
              (if is_in_state state expected o
                then in_state r.strategy cost
                else missed lower t screen w device state expected o cost)
      by_node none e = inr (inl (e, refl))
      by_node (some n) e = elim (is_as-cases expected (state_of state n)) [
        | inl (as_wanted, value) ↦
            inl ((n, e, Shows-when state supported n value), rw as_wanted refl)
        | inr (not_so, value) ↦
            inr (inr ((n, e, Shows-when state supported n value), rw not_so (ap wrong_state value)))
      ]

  Finds-is_reached :
      is_verifiable state ≡ true
      → (r : Option Resolution × Cost) → is_reached lower t screen w device state expected r ≡ true
      → Finds state expected r.0
  Finds-is_reached supported (none, cost) h = absurd (true≢false (sym h))
  Finds-is_reached supported (some r, cost) h = by_node r.node refl h
    where
      by_node :
          (o : Option Node)
          → r.node ≡ o
          → is_in_state state expected o ≡ true
          → (n : Node) × (r.node ≡ some n) × Shows state expected n
      by_node none e h = absurd (true≢false (sym h))
      by_node (some n) e h = elim (is_as-cases expected (state_of state n)) [
        | inl (as_wanted, value) ↦ (n, e, Shows-when state supported n value)
        | inr (not_so, value) ↦ absurd (true≢false (sym h ∙ not_so))
      ]

  is_reached-none :
      (r : Option Resolution × Cost)
      → is_reached lower t screen w device state expected r ≡ false
      → ¬ Finds state expected r.0
  is_reached-none (none, cost) h finds = finds
  is_reached-none (some r, cost) h (n, e, shows) = elim (is_as-cases expected (state_of state n)) [
    | inl (as_wanted, value) ↦
        true≢false (sym as_wanted ∙ (sym (ap (is_in_state state expected) e) ∙ h))
    | inr (not_so, value) ↦
        opposite-ne expected (sym (state_of-Shows state expected n shows) ∙ value)
  ]

  abbrev dumps_before : ℕ → ℕ
  dumps_before zero = 0
  dumps_before (suc i) = (sees i).1.dumps

  -- The `i`-th lookup reads the screen as any lookup does, and adds to the cost of those before it.
  abbrev pub Looks : ℕ → ℕ → Type 0
  Looks left i = Attempted lower t screen (device i) w 0 left 0 (dumps_before i) (sees i)

  reading-Looks : (left i : ℕ) → w.resolve_attempts ≡ suc left → Looks left i
  unfolding reading
  reading-Looks left zero enough =
      subst
        (λ n.
          Attempted lower t screen (device 0) w 0 left 0 0
            (attempts lower t screen (device 0) w n 0 0 no_cost none))
        (sym enough) (attempts-Attempted lower t screen (device 0) w left 0 0 no_cost none)
  reading-Looks left (suc i) enough =
      subst
        (λ n.
          Attempted lower t screen (device (suc i)) w 0 left 0 (sees i).1.dumps
            (attempts lower t screen (device (suc i)) w n 0 0 (sees i).1 none))
        (sym enough) (attempts-Attempted lower t screen (device (suc i)) w left 0 0 (sees i).1 none)

  -- What a check with `n + 1` lookups at most comes to: it is refused, or the `k`-th one decides.
  abbrev pub StateChecked : ℕ → (ℕ → ℕ) → ℕ → Option StateCheck → Type 0
  StateChecked timeout now n result =
      ((state ≢ "selected") × (state ≢ "checked") × (result ≡ some unsupported))
      ⊎ (((state ≡ "selected") ⊎ (state ≡ "checked"))
          × (k : ℕ) × (k ≤ n)
          × (check : StateCheck) × (result ≡ some check)
          × Judges state expected (sees k) check
          × ((j : ℕ) → j < k → (¬ Finds state expected (sees j).0) × (now j < timeout))
          × (Finds state expected (sees k).0 ⊎ (timeout ≤ now k)))

-- A check of an element's state, with a lookup that may read the screen at all, and a time that is up by
-- its `n + 1`-th lookup. For a state that is neither selected nor checked it is refused. For the others it
-- ends by then, and one lookup decides. If that found a node in the expected state, the check passes,
-- with the lookup's strategy and the cost so far. If it found no node, a coordinate included, the state is
-- unreadable, whatever an earlier lookup found. If it found a node in the other state, the check fails
-- with that. No earlier lookup found the expected state or came at the deadline or after it, and the one
-- that decides did one of the two. Each lookup reads the screen as lookup_exact says, and adds to the
-- number of dumps of those before it.
pub verify_element_state_exact :
    (lower : String → String) (t : Target) (screen : ℕ × ℕ) (w : Waits) (device : ℕ → ℕ → Dump)
    (state : String) (expected : Bool) (timeout : ℕ) (now : ℕ → ℕ) (n left : ℕ)
    → leb timeout (now n) ≡ true
    → w.resolve_attempts ≡ suc left
    → StateChecked lower t screen w device state expected timeout now n
        (verify_element_state lower t screen w device state expected timeout now (suc n))
      × ((i : ℕ) → Looks lower t screen w device state expected left i)
unfolding verify_element_state
verify_element_state_exact lower t screen w device state expected timeout now n left over enough = (
  elim (Bool-cases (is_verifiable state)) [
    | inr other ↦ let (one, two) = refused state other in inl (one, two, rw other refl)
    | inl supported ↦
        let see = reading lower t screen w device state expected in
        let (k, bound, same, before, why) =
          poll-Stopped see (is_reached lower t screen w device state expected) (is_late timeout now)
            n over in
        inr (
          is_one_of_two state supported,
          k,
          bound,
          judged lower t screen w device state expected (see k),
          rw supported (ap (judged_of lower t screen w device state expected) same),
          judged-Judges lower t screen w device state expected supported (see k),
          λ j below.
              let b = before j below in
              (
                is_reached-none lower t screen w device state expected (see j) b.0,
                ground (arith, b.1),
              ),
          elim why [
            | inl hit ↦
                inl (Finds-is_reached lower t screen w device state expected supported (see k) hit)
            | inr up ↦ inr (ground (arith, up))
          ],
        )
  ],
  λ i. reading-Looks lower t screen w device state expected left i enough,
)
