-- ===== src/Runner/Sampled.antt =====
-- src/autoperf/runner.py, `run`: what a run's rounds submit, its collectors included.
use mathlib.Core.Path.{subst}
use auto_perf.Prelude.{
  ℕ, ◌-◌, String, ◌≡◌, refl, sym, ◌∙◌, ap, Bool, true, Option, some, none, inl, inr, List, [], ◌++◌,
  map, leb, Bool-cases,
}
use auto_perf.Prelude.Count.{all, select}
use auto_perf.Models.{Kind}
use auto_perf.Storage.Rows.{Storage}
use auto_perf.Runner.Sampling.{Sampling, submit_collectors}
use auto_perf.Runner.Loop.{
  TestRunner, Loop, Tick, Outcome, going, raised, and_then, note, body, check_cancel,
  submit_sampling, submit_driving, heartbeat,
}
use auto_perf.Runner.Ending.{
  AppVersion, launched_package, version_read, record_app_version, begin, looped,
}
use auto_perf.Runner.Frame.{left, Same-then, Same-note, Same-poll_collectors, Same-poll_steps}
use auto_perf.Runner.Plan.{IsInOrder, is_due, is_later, at_time, Plan}
use auto_perf.Runner.Spaced.{IsPaced, IsSpaced, submit_collectors-IsPaced, is_served, served_from}
use auto_perf.Runner.Rounds.{AtEnd, Keeps, keeps_then, Rule}
use auto_perf.Runner.Scheduled.{
  plan, pace, polled, sampled, steps_polled, ended, front-body, body-advance, looped-keep,
}

abbrev sampling_of : Loop → Sampling
sampling_of s = s.sampling

module _ (r : TestRunner) (str : ℕ → String) (t : Tick) where
  sampling-heartbeat : (s : Loop) → sampling_of (left (heartbeat r str t s)) ≡ sampling_of s
  unfolding heartbeat
  sampling-heartbeat s = elim (Bool-cases (leb r.heartbeat_interval (t.now - s.last_heartbeat))) [
    | inl e ↦ rw e refl
    | inr e ↦ rw e refl
  ]

  sampling-submit_driving : (s : Loop) → sampling_of (left (submit_driving r t s)) ≡ sampling_of s
  unfolding submit_driving
  sampling-submit_driving s = refl

  sampling-steps_polled : (s : Loop) → sampling_of (left (steps_polled r str t s)) ≡ sampling_of s
  sampling-steps_polled s =
      Same-poll_steps sampling_of (λ s w ws. refl) r (λ s active late. refl) t s.driving.active s

  -- Behind the submission of collectors, no part of a round touches them.
  sampling-rest :
      (o : Outcome)
      → sampling_of (left (ended r str t (and_then o (steps_polled r str t))))
        ≡ sampling_of (left o)
  sampling-rest o =
      let after = and_then o (steps_polled r str t) in
      Same-then sampling_of (and_then after (submit_driving r t)) (heartbeat r str t)
        sampling-heartbeat
      ∙ Same-then sampling_of after (submit_driving r t) sampling-submit_driving
      ∙ Same-then sampling_of o (steps_polled r str t) sampling-steps_polled

  polled-IsPaced : Keeps (λ s. IsPaced (pace s)) (polled r str t)
  polled-IsPaced s p =
      subst IsPaced
        (sym (
          Same-poll_collectors pace (λ s w ws. refl) r (λ s active late. refl) t s.sampling.active
            s))
        p

  submit_sampling-IsPaced : Keeps (λ s. IsPaced (pace s)) (submit_sampling r t)
  unfolding submit_sampling
  submit_sampling-IsPaced s p = submit_collectors-IsPaced t.now r.collectors s.sampling p

  body-IsPaced : Keeps (λ s. IsPaced (pace s)) (body r str t)
  body-IsPaced s p = rw (front-body r str t s) (
      subst (λ (a : Sampling). IsPaced (record { due = a.due; sampled = a.sampled }))
        (sym (sampling-rest (sampled r str t s)))
        (keeps_then (λ s. IsPaced (pace s)) (polled r str t s) (submit_sampling r t)
          submit_sampling-IsPaced (polled-IsPaced s p)))

  served_then :
      (o : Outcome) {s' : Loop}
      → ended r str t (and_then (and_then o (submit_sampling r t)) (steps_polled r str t))
        ≡ going s'
      → all (λ c. is_served t.now c s'.sampling) r.collectors ≡ true
  unfolding submit_sampling
  served_then (raised u) e = cc
  served_then (going u) {s'} e =
      let same : s'.sampling ≡ submit_collectors t.now r.collectors u.sampling =
        ap (λ o. sampling_of (left o)) (sym e) ∙ sampling-rest (submit_sampling r t u) in
      subst (λ (a : Sampling). all (λ c. is_served t.now c a) r.collectors ≡ true) (sym same)
        (served_from t.now r.collectors u.sampling)

  body-served :
      (s : Loop) {s' : Loop}
      → body r str t s ≡ going s'
      → all (λ c. is_served t.now c s'.sampling) r.collectors ≡ true
  body-served s e = served_then (polled r str t s) (sym (front-body r str t s) ∙ e)

-- A round that ends with no exception, in a loop whose steps are in order: it submits exactly the
-- steps that wait and whose time since the start has come, in their order, and the others wait
-- on; and it leaves every collector in flight or with its next time ahead.
pub round_submits_exact :
    (r : TestRunner) (str : ℕ → String) (t : Tick) (s : Loop) {s' : Loop}
    → IsInOrder r.scenario (plan s)
    → body r str t s ≡ going s'
    → let elapsed = t.now - r.started in
      (s'.driving.driven
        ≡ s.driving.driven ++ map (at_time elapsed) (select (is_due elapsed) s.driving.waiting))
      × (s'.driving.waiting ≡ select (is_later elapsed) s.driving.waiting)
      × (all (λ c. is_served t.now c s'.sampling) r.collectors ≡ true)
round_submits_exact r str t s v e =
    let advanced = body-advance r str t s v e in
    (
      ap (λ (p : Plan). p.driven) advanced,
      ap (λ (p : Plan). p.waiting) advanced,
      body-served r str t s e,
    )

module _ (r : TestRunner) where
  check_cancel-pace : (t : Tick) (s : Loop) → pace (check_cancel r t s) ≡ pace s
  unfolding check_cancel
  check_cancel-pace t s =
      elim (Bool-cases (leb r.cancel_check_interval (t.now - s.last_cancel_check))) [
        | inl e ↦ rw e refl
        | inr e ↦ rw e refl
      ]

  IsPaced-rule : (str : ℕ → String) → Rule r str (λ s. IsPaced (pace s))
  IsPaced-rule str = record {
    arrives = λ t s p. p;
    looks = λ t s p. subst IsPaced (sym (check_cancel-pace t s)) p;
    goes = λ t. body-IsPaced r str t;
  }

  version_read-pace :
      (wall : ℕ) (app : Option String) (version : AppVersion) (s : Loop)
      → pace (left (version_read r wall app version s)) ≡ pace s
  version_read-pace wall none version s = refl
  version_read-pace wall (some p) none s =
      Same-note pace (λ s w ws. refl) r wall Kind.app_version_unavailable s
  version_read-pace wall (some p) (some version) s = refl

  begin-pace :
      (schedule : List (List Bool)) (version : AppVersion) (wall : ℕ) (db : Storage)
      → pace (left (begin r schedule version wall db))
        ≡ record { due = λ name. r.started; sampled = [] }
  unfolding begin record_app_version
  begin-pace schedule version wall db =
      Same-then pace (note r wall Kind.lifecycle _) (record_app_version r wall version)
        (version_read-pace wall (launched_package r.scenario) version)
      ∙ Same-note pace (λ s w ws. refl) r wall Kind.lifecycle _

-- When the loop of a run ends, in whatever way, two submissions of a collector are at least its
-- interval apart.
pub looped-IsSpaced :
    (r : TestRunner) (str : ℕ → String) (schedule : List (List Bool)) (version : AppVersion)
    (wall : ℕ) (ticks : List Tick) (db : Storage) {o : Outcome}
    → looped r str ticks (begin r schedule version wall db) ≡ some o
    → IsSpaced (left o).sampling.sampled
looped-IsSpaced r str schedule version wall ticks db e =
    let paced = looped-keep r str (IsPaced-rule r str) ticks (begin r schedule version wall db) (
      subst IsPaced (sym (begin-pace r schedule version wall db))
        (record { spaced = tt; not_before = tt })) in
    (subst (AtEnd (λ s. IsPaced (pace s))) e paced).spaced
