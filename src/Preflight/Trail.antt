-- ===== src/Preflight/Trail.antt =====
-- src/autoperf/preflight.py, `check_scenario`: what is graded once the screen is lost.
use mathlib.Core.Path.{subst}
use mathlib.Core.Bool.{true≢false}
use auto_perf.Prelude.{
  ◌∙◌, ℕ, String, ◌≡◌, refl, sym, ap, Bool, true, false, not, ◌&&◌, ◌||◌, ◌⊎◌, inl, inr, Option,
  none, some, List, [], ◌∷◌, ◌==◌, Bool-cases, if◌then◌else◌,
}
use auto_perf.UiAuto.{Target, Resolution, resolve}
use auto_perf.Preflight.Grade.{
  Grade, TargetCheck, Visit, grade_resolved, settled_nodes, graded, check_target,
}
use auto_perf.Preflight.Walk.{Step, tap, verify, navigate, loses, walk_steps, check_scenario}

abbrev pub is_unreliable : TargetCheck → Bool
is_unreliable c = elim c.status [ Grade.unreliable ↦ true | _ ↦ false ]

-- The grades after which the screen is still the one that the scenario means: a control was tapped
-- where a selector found it, or nothing had to be tapped.
abbrev pub keeps_screen : Grade → Bool
keeps_screen Grade.matched = true
keeps_screen Grade.not_applicable = true
keeps_screen _ = false

-- The taps among the steps: the target's name, and whether the device is locked then.
abbrev pub Tap : Type 0
Tap = String × Bool

unfoldable pub taps_of : List Step → List Tap
taps_of [] = []
taps_of (tap at t visit ∷ steps) = (t.name, visit.locked) ∷ taps_of steps
taps_of (verify at action verdict ∷ steps) = taps_of steps
taps_of (navigate at ∷ steps) = taps_of steps

-- Each tap is reported as unreliable, in order.
abbrev pub AllLost : List Tap → List TargetCheck → Type 0
AllLost [] cs = cs ≡ []
AllLost ((name, locked) ∷ taps) [] = ⊥
AllLost ((name, locked) ∷ taps) (c ∷ cs) =
    (c.target ≡ name) × (is_unreliable c ≡ true) × AllLost taps cs

-- Each tap is reported, in order: from the first at which the device is locked, all as unreliable; and up
-- to there none is, until one does not keep the screen, and all behind that one are.
abbrev pub Trail : List Tap → List TargetCheck → Type 0
Trail [] cs = cs ≡ []
Trail ((name, locked) ∷ taps) [] = ⊥
Trail ((name, true) ∷ taps) (c ∷ cs) =
    (c.target ≡ name) × (is_unreliable c ≡ true) × AllLost taps cs
Trail ((name, false) ∷ taps) (c ∷ cs) =
    (c.target ≡ name)
    × (is_unreliable c ≡ false)
    × (((keeps_screen c.status ≡ true) × Trail taps cs)
        ⊎ ((keeps_screen c.status ≡ false) × AllLost taps cs))

module _ (lower : String → String) (screen : ℕ × ℕ) (introspectable : Bool)
    (scenario : String) where
  lost_for_good :
      (steps : List Step)
      → AllLost (taps_of steps) (walk_steps lower screen introspectable scenario true steps).targets
  unfolding walk_steps taps_of
  lost_for_good [] = refl
  lost_for_good (tap at t visit ∷ steps) = (refl, refl, lost_for_good steps)
  lost_for_good (verify at action verdict ∷ steps) = lost_for_good steps
  lost_for_good (navigate at ∷ steps) = lost_for_good steps

  grade_resolved_graded :
      (at : ℕ) (t : Target) (tap_raises : Bool) (dump_failed : String) (r : Option Resolution)
      → is_unreliable (grade_resolved scenario at t tap_raises dump_failed r) ≡ false
  grade_resolved_graded at t tap_raises dump_failed none = refl
  grade_resolved_graded at t true dump_failed (some r) = refl
  grade_resolved_graded at t false dump_failed (some r) =
      elim (Bool-cases (r.strategy == "coordinates")) [
        | inl blind ↦ rw blind (elim (Bool-cases (t.coordinate_only && dump_failed == "")) [
          | inl meant ↦ rw meant refl
          | inr stale ↦ rw stale refl
        ])
        | inr found ↦ rw found refl
      ]

  check_target_graded :
      (at : ℕ) (t : Target) (visit : Visit)
      → is_unreliable (check_target lower screen introspectable scenario at t visit) ≡ false
  unfolding check_target
  check_target_graded at t visit = elim (Bool-cases introspectable) [
    | inl readable ↦
        rw (check_target, readable)
          (grade_resolved_graded at t visit.tap_raises (settled_nodes visit.screens).1
            (resolve lower t (settled_nodes visit.screens).0 screen))
    | inr opaque ↦ rw (check_target, opaque) refl
  ]

  grade_resolved_target :
      (at : ℕ) (t : Target) (tap_raises : Bool) (dump_failed : String) (r : Option Resolution)
      → (grade_resolved scenario at t tap_raises dump_failed r).target ≡ t.name
  grade_resolved_target at t tap_raises dump_failed none = refl
  grade_resolved_target at t true dump_failed (some r) = refl
  grade_resolved_target at t false dump_failed (some r) =
      elim (Bool-cases (r.strategy == "coordinates")) [
        | inl blind ↦ rw blind refl
        | inr found ↦ rw found refl
      ]

  check_target-target :
      (at : ℕ) (t : Target) (visit : Visit)
      → (check_target lower screen introspectable scenario at t visit).target ≡ t.name
  unfolding check_target
  check_target-target at t visit = elim (Bool-cases introspectable) [
    | inl readable ↦
        rw (check_target, readable)
          (grade_resolved_target at t visit.tap_raises (settled_nodes visit.screens).1
            (resolve lower t (settled_nodes visit.screens).0 screen))
    | inr opaque ↦ rw (check_target, opaque) refl
  ]

  -- A grade that is no `unreliable` loses the screen exactly if it does not keep it.
  loses-keeps_screen :
      (c : TargetCheck) → is_unreliable c ≡ false → loses c.status ≡ not (keeps_screen c.status)
  loses-keeps_screen c graded = by_grade c.status graded
    where
      by_grade :
          (g : Grade)
          → (elim g [ Grade.unreliable ↦ true | _ ↦ false ]) ≡ false
          → loses g ≡ not (keeps_screen g)
      by_grade Grade.unreliable h = absurd (true≢false h)
      by_grade Grade.matched h = refl
      by_grade Grade.fallback h = refl
      by_grade Grade.missing h = refl
      by_grade Grade.error h = refl
      by_grade Grade.not_applicable h = refl
      by_grade Grade.by_design h = refl

  abbrev targets_after : Bool → List Step → List TargetCheck
  targets_after lost steps = (walk_steps lower screen introspectable scenario lost steps).targets

  Trail-graded :
      (name : String) (c : TargetCheck) (steps : List Step)
      → c.target ≡ name
      → is_unreliable c ≡ false
      → Trail (taps_of steps) (targets_after false steps)
      → Trail ((name, false) ∷ taps_of steps) (c ∷ targets_after (loses c.status) steps)
  Trail-graded name c steps same graded next =
      let flips = loses-keeps_screen c graded in
      elim (Bool-cases (keeps_screen c.status)) [
        | inl kept ↦ (
          same,
          graded,
          inl (
            kept,
            subst (λ b. Trail (taps_of steps) (targets_after b steps)) (sym (flips ∙ ap not kept))
                next,
          ),
        )
        | inr lost ↦ (
          same,
          graded,
          inr (
            lost,
            subst (λ b. AllLost (taps_of steps) (targets_after b steps)) (sym (flips ∙ ap not lost))
                (lost_for_good steps),
          ),
        )
      ]

  -- What the walk makes of a tap, by whether the device is locked.
  abbrev at_lock : Bool → ℕ → Target → Visit → TargetCheck
  at_lock locked at t visit =
      if locked
      then graded scenario at t Grade.unreliable none none
      else check_target lower screen introspectable scenario at t visit

  Trail-visit :
      (at : ℕ) (t : Target) (visit : Visit) (steps : List Step) (locked : Bool)
      → Trail (taps_of steps) (targets_after false steps)
      → let c = at_lock locked at t visit in
        Trail
          ((t.name, locked) ∷ taps_of steps)
          (c ∷ targets_after (locked || loses c.status) steps)
  Trail-visit at t visit steps true next = (refl, refl, lost_for_good steps)
  Trail-visit at t visit steps false next =
      Trail-graded t.name (check_target lower screen introspectable scenario at t visit) steps
        (check_target-target at t visit) (check_target_graded at t visit) next

  walk_steps-Trail : (steps : List Step) → Trail (taps_of steps) (targets_after false steps)
  unfolding walk_steps taps_of
  walk_steps-Trail [] = refl
  walk_steps-Trail (verify at action verdict ∷ steps) = walk_steps-Trail steps
  walk_steps-Trail (navigate at ∷ steps) = walk_steps-Trail steps
  walk_steps-Trail (tap at t visit ∷ steps) =
      Trail-visit at t visit steps visit.locked (walk_steps-Trail steps)

-- Whatever the device shows, the report of a scenario has its targets in the order of their taps, each under
-- its name, and their grades follow the screen. From the first tap that finds the device locked,
-- every target is unreliable. Before that none is, until one was tapped blind or not tapped at all: it
-- has its grade, and every target behind it is unreliable.
pub check_scenario-Trail :
    (lower : String → String) (screen : ℕ × ℕ) (introspectable : Bool) (scenario : String)
    (steps : List Step)
    → Trail (taps_of steps) (check_scenario lower screen introspectable scenario steps).targets
unfolding check_scenario
check_scenario-Trail lower screen introspectable scenario steps =
    walk_steps-Trail lower screen introspectable scenario steps
