-- ===== src/Adapters/Lookup.antt =====
-- src/autoperf/adapters.py, ElementActionsMixin: the lookup with its retries, and the tap on a phone.
-- Times are in microseconds, and `now` is the time since the lookup began.
use auto_perf.Prelude.{
  ℕ, zero, suc, ◌+◌, String, Bool, true, false, not, Option, none, some, List, [], ◌∷◌, ◌==◌, ltb,
  if◌then◌else◌,
}
use auto_perf.Prelude.Int.{ℤ}
use auto_perf.UiAuto.{Node, Target, Resolution, resolve}
use auto_perf.Runner.Outcome.{StepResult, returned, verification_error, other_error}

-- class Waits, as far as a lookup reads it
pub record Waits : Type 0 where
  pub resolve_attempts : ℕ
  pub resolve_retry : ℕ
  pub resolve_budget : ℕ
  pub max_focus_steps : ℕ

abbrev pub waits : Waits
waits = record {
  resolve_attempts = 3;
  resolve_retry = 1_000_000;
  resolve_budget = 7_000_000;
  max_focus_steps = 12;
}

-- one dump: its nodes, none where it failed, how long it took, and the time until the next check
pub record Dump : Type 0 where
  pub nodes : List Node
  pub spent : ℕ
  pub lag : ℕ

-- the dict `cost`, without `dump_seconds`, which is for display
pub record Cost : Type 0 where
  pub dumps : ℕ
  pub resolve_budget_spent : Bool

abbrev pub no_cost : Cost
no_cost = record { dumps = 0; resolve_budget_spent = false }

abbrev pub add_dump : Cost → Cost
add_dump c = record c { dumps = suc c.dumps }

-- `resolution is not None and resolution.strategy != "coordinates"`
abbrev pub is_match : Option Resolution → Bool
is_match none = false
is_match (some r) = not (r.strategy == "coordinates")

-- the pause before another attempt, which the last one does not make
abbrev pub pause : Waits → ℕ → ℕ
pause w zero = 0
pause w (suc left) = w.resolve_retry

module _ (lower : String → String) (t : Target) (screen : ℕ × ℕ) (device : ℕ → Dump) where
  -- what an attempt finds
  abbrev pub seen : ℕ → Option Resolution
  seen attempt = resolve lower t (device attempt).nodes screen

  -- the loop of `_resolve`, with `left` attempts to go
  unfoldable pub attempts : Waits → ℕ → ℕ → ℕ → Cost → Option Resolution → Option Resolution × Cost
  attempts w zero attempt now cost resolution = (resolution, cost)
  attempts w (suc left) attempt now cost resolution =
      let dump = device attempt in
      let spent = add_dump cost in
      let checked = now + dump.spent + dump.lag in
      let rest = attempts w left (suc attempt) (checked + pause w left) spent (seen attempt) in
      if is_match (seen attempt)
      then (seen attempt, spent)
      else if ltb w.resolve_budget (checked + w.resolve_retry + dump.spent)
      then (seen attempt, record spent { resolve_budget_spent = true })
      else rest

  -- `_resolve`
  unfoldable pub lookup : Waits → Option Resolution × Cost
  unfolding attempts
  lookup w = attempts w w.resolve_attempts 0 0 no_cost none

-- ElementNotFound with its cost, what the tap itself raised, or the tap and its report
pub data Tapped : Type 0 where
  not_found : Cost → Tapped
  tap_error : Tapped
  tapped : ℤ × ℤ → String → Cost → Tapped

abbrev pub tap_resolved : Bool → Option Resolution × Cost → Tapped
tap_resolved raises (none, cost) = not_found cost
tap_resolved raises (some r, cost) = if raises then tap_error else tapped r.point r.strategy cost

-- `tap_element`, on a phone; `raises` says whether `self.tap` raises
unfoldable pub tap_element : (String → String) → Target → ℕ × ℕ → (ℕ → Dump) → Waits → Bool → Tapped
unfolding lookup
tap_element lower t screen device w raises = tap_resolved raises (lookup lower t screen device w)

-- what the runner reads off the finished step
abbrev pub step_result : Tapped → StepResult
step_result (not_found cost) = verification_error cost.dumps
step_result tap_error = other_error
step_result (tapped point strategy cost) =
    returned (some (record { strategy = some strategy; dumps = cost.dumps }))

-- `dumpsys window`: the package in front and whether the device is locked, where it says so
pub record Window : Type 0 where
  pub focus : Option String
  pub locked : Option Bool

-- a check passes, says that it could not tell, or fails
pub data Verdict : Type 0 where
  verified unknown failed : Verdict

-- `PACKAGE_MAP.get(package, (package, None))[0]`
unfoldable pub mapped_package : List (String × String) → String → String
mapped_package [] app = app
mapped_package ((name, mapped) ∷ rest) app = if name == app then mapped else mapped_package rest app

abbrev pub in_front : String → Option String → Verdict
in_front app none = unknown
in_front app (some front) = if front == app then verified else failed

abbrev pub is_locked : Option Bool → Bool
is_locked none = false
is_locked (some locked) = locked

unfoldable pub verify_foreground : List (String × String) → String → Window → Verdict
unfolding mapped_package
verify_foreground packages app window =
    if is_locked window.locked then failed else in_front (mapped_package packages app) window.focus
