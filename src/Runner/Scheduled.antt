-- ===== src/Runner/Scheduled.antt =====
-- src/autoperf/runner.py, `run`: what a run's rounds submit, and when.
use mathlib.Core.Path.{subst}
use auto_perf.Prelude.{
  ℕ, ◌-◌, String, ◌≡◌, refl, sym, ◌∙◌, ap, Bool, Option, some, List, [], none, inl, inr, leb,
  Bool-cases,
}
use auto_perf.Storage.Rows.{Storage}
use auto_perf.Models.{Kind}
use auto_perf.Runner.Driving.{sort_steps}
use auto_perf.Runner.Loop.{
  TestRunner, Loop, Tick, Outcome, going, raised, and_then, Act, note, body, check_cancel,
  submit_sampling, submit_driving, heartbeat, poll_collectors, poll_steps,
}
use auto_perf.Runner.Ending.{
  AppVersion, launched_package, version_read, record_app_version, begin, looped,
}
use auto_perf.Runner.Frame.{left, Same-then, Same-note, Same-poll_collectors, Same-poll_steps}
use auto_perf.Runner.Plan.{
  Plan, plan_of, advance, IsInOrder, IsSorted, submit_steps-advance, advance-IsInOrder,
  waiting-IsSorted,
}
use auto_perf.Runner.Spaced.{Pace, pace_of}
use auto_perf.Runner.Rounds.{AtEnd, Keeps, Rule, rounds-keep}

abbrev pub plan : Loop → Plan
plan s = plan_of s.driving

abbrev pub pace : Loop → Pace
pace s = pace_of s.sampling

module _ (r : TestRunner) (str : ℕ → String) (t : Tick) where
  -- The parts of a round in front of the submission of steps.
  abbrev pub polled : Act
  polled s = poll_collectors r t s.sampling.active s

  abbrev pub sampled : Act
  sampled s = and_then (polled s) (submit_sampling r t)

  abbrev pub steps_polled : Act
  steps_polled s = poll_steps r t s.driving.active s

  abbrev pub front : Act
  front s = and_then (sampled s) steps_polled

  abbrev pub ended : Outcome → Outcome
  ended o = and_then (and_then o (submit_driving r t)) (heartbeat r str t)

  pub front-body : (s : Loop) → body r str t s ≡ ended (front s)
  unfolding body
  front-body s = refl

  plan-polled : (s : Loop) → plan (left (polled s)) ≡ plan s
  plan-polled s =
      Same-poll_collectors plan (λ s w ws. refl) r (λ s active late. refl) t s.sampling.active s

  plan-submit_sampling : (s : Loop) → plan (left (submit_sampling r t s)) ≡ plan s
  unfolding submit_sampling
  plan-submit_sampling s = refl

  plan-front : (s : Loop) → plan (left (front s)) ≡ plan s
  plan-front s =
      Same-then plan (sampled s) steps_polled
        (λ u. Same-poll_steps plan (λ s w ws. refl) r (λ s active late. refl) t u.driving.active u)
      ∙ Same-then plan (polled s) (submit_sampling r t) plan-submit_sampling
      ∙ plan-polled s

  plan-heartbeat : (s : Loop) → plan (left (heartbeat r str t s)) ≡ plan s
  unfolding heartbeat
  plan-heartbeat s = elim (Bool-cases (leb r.heartbeat_interval (t.now - s.last_heartbeat))) [
    | inl e ↦ rw e refl
    | inr e ↦ rw e refl
  ]

  plan-ended :
      (o : Outcome) {s' : Loop}
      → IsSorted (plan (left o)).waiting
      → ended o ≡ going s'
      → plan s' ≡ advance (t.now - r.started) (plan (left o))
  unfolding submit_driving
  plan-ended (raised u) sorted e = cc
  plan-ended (going u) sorted e =
      ap (λ o. plan (left o)) (sym e)
      ∙ plan-heartbeat (left (submit_driving r t u))
      ∙ submit_steps-advance t.now (t.now - r.started) u.driving sorted

  ended-IsInOrder :
      (o : Outcome)
      → IsInOrder r.scenario (plan (left o))
      → IsInOrder r.scenario (plan (left (ended o)))
  unfolding submit_driving
  ended-IsInOrder (raised u) v = v
  ended-IsInOrder (going u) v =
      subst (IsInOrder r.scenario)
        (sym (
          plan-heartbeat (left (submit_driving r t u))
          ∙ submit_steps-advance t.now (t.now - r.started) u.driving
              (waiting-IsSorted r.scenario (plan u) v)))
        (advance-IsInOrder (t.now - r.started) r.scenario (plan u) v)

  front-IsInOrder :
      (s : Loop) → IsInOrder r.scenario (plan s) → IsInOrder r.scenario (plan (left (front s)))
  front-IsInOrder s v = subst (IsInOrder r.scenario) (sym (plan-front s)) v

  body-IsInOrder : Keeps (λ s. IsInOrder r.scenario (plan s)) (body r str t)
  body-IsInOrder s v = rw (front-body s) (ended-IsInOrder (front s) (front-IsInOrder s v))

  pub body-advance :
      (s : Loop) {s' : Loop}
      → IsInOrder r.scenario (plan s)
      → body r str t s ≡ going s'
      → plan s' ≡ advance (t.now - r.started) (plan s)
  body-advance s v e =
      plan-ended (front s) (waiting-IsSorted r.scenario _ (front-IsInOrder s v))
        (sym (front-body s) ∙ e)
      ∙ ap (advance (t.now - r.started)) (plan-front s)

module _ (r : TestRunner) where
  version_read-plan :
      (wall : ℕ) (app : Option String) (version : AppVersion) (s : Loop)
      → plan (left (version_read r wall app version s)) ≡ plan s
  version_read-plan wall none version s = refl
  version_read-plan wall (some p) none s =
      Same-note plan (λ s w ws. refl) r wall Kind.app_version_unavailable s
  version_read-plan wall (some p) (some version) s = refl

  begin-plan :
      (schedule : List (List Bool)) (version : AppVersion) (wall : ℕ) (db : Storage)
      → plan (left (begin r schedule version wall db))
        ≡ record { driven = []; waiting = sort_steps r.scenario; next_step = 0 }
  unfolding begin record_app_version
  begin-plan schedule version wall db =
      Same-then plan (note r wall Kind.lifecycle _) (record_app_version r wall version)
        (version_read-plan wall (launched_package r.scenario) version)
      ∙ Same-note plan (λ s w ws. refl) r wall Kind.lifecycle _

  check_cancel-plan : (t : Tick) (s : Loop) → plan (check_cancel r t s) ≡ plan s
  unfolding check_cancel
  check_cancel-plan t s =
      elim (Bool-cases (leb r.cancel_check_interval (t.now - s.last_cancel_check))) [
        | inl e ↦ rw e refl
        | inr e ↦ rw e refl
      ]

  IsInOrder-rule : (str : ℕ → String) → Rule r str (λ s. IsInOrder r.scenario (plan s))
  IsInOrder-rule str = record {
    arrives = λ t s v. v;
    looks = λ t s v. subst (IsInOrder r.scenario) (sym (check_cancel-plan t s)) v;
    goes = λ t. body-IsInOrder r str t;
  }

  pub looped-keep :
      {P : Loop → Type 0} (str : ℕ → String)
      → Rule r str P
      → (ticks : List Tick) (o : Outcome) → P (left o)
      → AtEnd P (looped r str ticks o)
  looped-keep str rule ticks (going s) p = rounds-keep r str rule ticks s p
  looped-keep str rule ticks (raised s) p = p

-- When the loop of a run ends, in whatever way, the steps that it submitted are the first steps of
-- the scenario in the order of their times, none was submitted before its time, and `next_step`
-- is their number, so each was submitted once.
pub looped-IsInOrder :
    (r : TestRunner) (str : ℕ → String) (schedule : List (List Bool)) (version : AppVersion)
    (wall : ℕ) (ticks : List Tick) (db : Storage) {o : Outcome}
    → looped r str ticks (begin r schedule version wall db) ≡ some o
    → IsInOrder r.scenario (plan (left o))
looped-IsInOrder r str schedule version wall ticks db e =
    subst (AtEnd (λ s. IsInOrder r.scenario (plan s))) e (
      looped-keep r str (IsInOrder-rule r str) ticks (begin r schedule version wall db) (
        subst (IsInOrder r.scenario) (sym (begin-plan r schedule version wall db))
          (record { in_order = refl; on_time = tt; counted = refl })))
