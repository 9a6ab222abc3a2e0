-- ===== src/Adapters/Polling.antt =====
-- src/autoperf/adapters.py: the checks that wait for a state of an element and for playback. Times are
-- in microseconds since the check began, and `now` is what the clock reads after each reading.
use auto_perf.Prelude.{
  ℕ, zero, suc, String, Bool, true, false, not, Option, none, some, ◌==◌, ◌||◌, leb, if◌then◌else◌,
}
use auto_perf.UiAuto.{Node, Target, Resolution}
use auto_perf.Adapters.Lookup.{
  Waits, Dump, Cost, no_cost, attempts, Verdict, verified, unknown, failed,
}
use auto_perf.Adapters.Focus.{target_node, strategy_found}

-- The loop of both checks: it reads until a reading is the expected one or the time is up. It is
-- `none` where `left` readings were not enough for either.
module _ {A : Type 0} (reading : ℕ → A) (hit : A → Bool) (late : ℕ → Bool) where
  unfoldable pub poll : ℕ → ℕ → Option A
  poll zero i = none
  poll (suc left) i =
      let rest = poll left (suc i) in
      if hit (reading i) then some (reading i) else if late i then some (reading i) else rest

-- time.monotonic() >= deadline
abbrev pub is_late : ℕ → (ℕ → ℕ) → ℕ → Bool
is_late timeout now i = leb timeout (now i)

-- `if playing`
abbrev pub is_true : Option Bool → Bool
is_true none = false
is_true (some b) = b

abbrev pub playback : Option Bool → Verdict
playback none = unknown
playback (some true) = verified
playback (some false) = failed

abbrev pub playback_of : Option (Option Bool) → Option Verdict
playback_of none = none
playback_of (some playing) = some (playback playing)

-- `verify_playing`, from what `uiauto.is_playing` answers each time
unfoldable pub verify_playing : (ℕ → Option Bool) → ℕ → (ℕ → ℕ) → ℕ → Option Verdict
unfolding poll
verify_playing playing timeout now fuel =
    playback_of (poll playing is_true (is_late timeout now) fuel 0)

-- `state in uiauto.VERIFIABLE_STATES`
abbrev pub is_verifiable : String → Bool
is_verifiable state = (state == "selected") || (state == "checked")

-- `getattr(node, state)`
abbrev pub state_of : String → Node → Bool
state_of state n = if state == "selected" then n.selected else n.checked

-- `getattr(node, state) is expected`
abbrev pub is_as : Bool → Bool → Bool
is_as true b = b
is_as false b = not b

abbrev pub is_in_state : String → Bool → Option Node → Bool
is_in_state state expected none = false
is_in_state state expected (some n) = is_as expected (state_of state n)

-- ValueError, `verified` True and None, and VerificationError with the state that was found
pub data StateCheck : Type 0 where
  unsupported : StateCheck
  in_state : String → Cost → StateCheck
  unreadable : Cost → StateCheck
  wrong_state : Bool → StateCheck

module _ (lower : String → String) (t : Target) (screen : ℕ × ℕ) (w : Waits) (device : ℕ → ℕ → Dump)
    (state : String) (expected : Bool) where
  abbrev pub look : ℕ → Cost → Option Resolution × Cost
  look i cost = attempts lower t screen (device i) w w.resolve_attempts 0 0 cost none

  -- what the `i`-th lookup finds, with the cost of all so far
  unfoldable pub reading : ℕ → Option Resolution × Cost
  reading zero = look 0 no_cost
  reading (suc i) = look (suc i) (reading i).1

  abbrev pub is_reached : Option Resolution × Cost → Bool
  is_reached (found, cost) = is_in_state state expected (target_node found)

  abbrev pub missed : Option Node → Cost → StateCheck
  missed none cost = unreadable cost
  missed (some n) cost = wrong_state (state_of state n)

  abbrev pub judged : Option Resolution × Cost → StateCheck
  judged (found, cost) =
      if is_in_state state expected (target_node found)
      then in_state (strategy_found found) cost
      else missed (target_node found) cost

  abbrev pub judged_of : Option (Option Resolution × Cost) → Option StateCheck
  judged_of none = none
  judged_of (some r) = some (judged r)

  unfoldable pub verify_element_state : ℕ → (ℕ → ℕ) → ℕ → Option StateCheck
  unfolding poll reading
  verify_element_state timeout now fuel =
      if is_verifiable state
      then judged_of (poll reading is_reached (is_late timeout now) fuel 0)
      else some unsupported
