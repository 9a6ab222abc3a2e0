-- ===== src/Adapters/Trusted.antt =====
-- src/autoperf/adapters.py and runner.py: what the runner records of a tap on an element.
use auto_perf.Prelude.{
  Bool, false, ℕ, suc, String, ◌≡◌, refl, true, not, ◌&&◌, ◌||◌, Option, none, some, arith, is_none,
}
use auto_perf.UiAuto.{Target, Resolution}
use auto_perf.Runner.Outcome.{ScenarioStep}
use auto_perf.Runner.Quality.{Finished, is_trustworthy, has_dumped}
use auto_perf.Adapters.Lookup.{
  Waits, Dump, Cost, is_match, lookup, tap_resolved, tap_element, step_result,
}
use auto_perf.Adapters.Retries.{lookup_exact}

-- The scenario's step for a tap on an element.
abbrev pub tap_step : ℕ → Target → ScenarioStep
tap_step at t = record {
  at = at;
  action = "tap_element";
  target = some (record { name = t.name; coordinate_only = t.coordinate_only });
  app_package = none;
}

resolved_trust :
    (at : ℕ) (t : Target) (raises : Bool) (answer : Option Resolution × Cost)
    → is_trustworthy (tap_step at t, step_result (tap_resolved raises answer))
      ≡ (is_match answer.0 || (not (is_none answer.0) && (t.coordinate_only || raises)))
resolved_trust at t raises (none, cost) = refl
resolved_trust at t true (some r, cost) = ground arith
resolved_trust at t false (some r, cost) = ground arith

resolved_dumps :
    (at k : ℕ) (t : Target) (raises : Bool) (answer : Option Resolution × Cost)
    → answer.1.dumps ≡ suc k
    → has_dumped (tap_step at t, step_result (tap_resolved raises answer))
      ≡ (is_none answer.0 || not raises)
resolved_dumps at k t raises (none, cost) e = ground (arith, e)
resolved_dumps at k t true (some r, cost) e = refl
resolved_dumps at k t false (some r, cost) e = ground (arith, e)

-- A tap on an element leaves the run trustworthy exactly if a selector matched, or if it fell back to a
-- coordinate and either the control is one that the app draws itself or the tap at the coordinate
-- raised. The dumps of the lookup are recorded as its cost unless the tap itself raised, and then they are not.
pub tap_element_recorded :
    (lower : String → String) (t : Target) (screen : ℕ × ℕ) (device : ℕ → Dump) (w : Waits)
    (left at : ℕ) (raises : Bool)
    → w.resolve_attempts ≡ suc left
    → let found = (lookup lower t screen device w).0 in
      let finished : Finished =
        (tap_step at t, step_result (tap_element lower t screen device w raises)) in
      (is_trustworthy finished
        ≡ (is_match found || (not (is_none found) && (t.coordinate_only || raises))))
      × (has_dumped finished ≡ (is_none found || not raises))
unfolding tap_element
tap_element_recorded lower t screen device w left at raises enough =
    let (k, _, _, count, _, _, _) = lookup_exact lower t screen device w left enough in
    (
      resolved_trust at t raises (lookup lower t screen device w),
      resolved_dumps at k t raises (lookup lower t screen device w) (omega (arith, count)),
    )
