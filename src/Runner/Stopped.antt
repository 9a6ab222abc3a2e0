-- ===== src/Runner/Stopped.antt =====
-- src/autoperf/runner.py, `run`: what a cancelled run still does.
use auto_perf.Prelude.{
  ℕ, String, ◌≡◌, refl, ◌∙◌, ap, inl, inr, Bool, true, false, ◌||◌, Option, none, some, List, [],
  ◌∷◌, ◌++◌, arith, if◌then◌else◌, Bool-cases,
}
use auto_perf.Models.{Kind}
use auto_perf.Runner.Outcome.{StepResult, record_step_outcome}
use auto_perf.Runner.Sampling.{has_timed_out}
use auto_perf.Runner.Driving.{ActiveStep, step_timed_out}
use auto_perf.Runner.Loop.{
  TestRunner, Command, home, shutdown, Loop, Collected, Outcome, going, raised, Act, and_then, note,
  work, next_work,
}
use auto_perf.Runner.Ending.{
  Close, has_adapter, driven_package, quieting, stop_driven_app, collector_left, settle_collectors,
  step_left, settle_steps, joined, close_writer, quiet_early, press_home, interrupt, shut_down,
  wind_down,
}
use auto_perf.Writer.{BatchWriter, Raised, close}
use auto_perf.Runner.Frame.{left, Same, Same-then, Same-note, Same-store_samples, Same-emit_events}

-- whether the run was stopped, and what the device was told
abbrev pub told : Loop → Bool × List Command
told s = (s.stop, s.commands)

-- What holds if a part of the end raises nothing.
abbrev pub Ensures : (Loop → Type 0) → Outcome → Type 0
Ensures P (going s) = P s
Ensures P (raised s) = Unit

Ensures-then :
    (P Q : Loop → Type 0) (o : Outcome) (k : Act)
    → Ensures P o
    → ((s : Loop) → P s → Ensures Q (k s))
    → Ensures Q (and_then o k)
Ensures-then P Q (going s) k p next = next s p
Ensures-then P Q (raised s) k p next = tt

abbrev pub Told : Bool × List Command → Loop → Type 0
Told x s = told s ≡ x

Ensures-same : (o : Outcome) (x : Bool × List Command) → told (left o) ≡ x → Ensures (Told x) o
Ensures-same (going s) x h = h
Ensures-same (raised s) x h = tt

step_if :
    (b : Bool) (m : Act) (s : Loop) (x : Bool × List Command)
    → b ≡ true
    → Ensures (Told x) (m s)
    → Ensures (Told x) (if b then m s else going s)
step_if true m s x on h = h
step_if false m s x on h = absurd (ground arith)

module _ (r : TestRunner) (e : Close) where
  Same-collector_left :
      (name : String) (c : Option Collected) → Same told (collector_left r e name c)
  Same-collector_left name none s = refl
  Same-collector_left name (some c) s = elim (Bool-cases (has_timed_out name s.sampling)) [
    | inl late ↦ rw late refl
    | inr on ↦ rw on (Same-store_samples told (λ s w ws. refl) r e.wall c s)
  ]

  Same-settle_collectors : (active : List (String × ℕ)) → Same told (settle_collectors r e active)
  unfolding settle_collectors
  Same-settle_collectors [] s = refl
  Same-settle_collectors ((name, at) ∷ rest) s =
      Same-then told (collector_left r e name (e.collected name) s) (settle_collectors r e rest)
        (Same-settle_collectors rest)
      ∙ Same-collector_left name (e.collected name) s

  Same-step_left : (entry : ActiveStep) (c : Option StepResult) → Same told (step_left r e entry c)
  Same-step_left entry none s = refl
  Same-step_left (i, at, step) (some c) s = elim (Bool-cases (step_timed_out i s.driving)) [
    | inl late ↦ rw late refl
    | inr on ↦
        rw on
          (Same-emit_events told (λ s w ws. refl) (record_step_outcome e.wall r.run_id step c) s)
  ]

  Same-settle_steps : (active : List ActiveStep) → Same told (settle_steps r e active)
  unfolding settle_steps
  Same-settle_steps [] s = refl
  Same-settle_steps (entry ∷ rest) s =
      Same-then told (step_left r e entry (e.finished entry.0) s) (settle_steps r e rest)
        (Same-settle_steps rest)
      ∙ Same-step_left entry (e.finished entry.0) s

  -- The device is told to stop the app, or to go Home.
  abbrev pub quieted : List Command → List Command
  quieted cs = if has_adapter r.adapter then cs ++ quieting (driven_package r.scenario) ∷ [] else cs

  abbrev pub sent_home : List Command → List Command
  sent_home cs = if has_adapter r.adapter then cs ++ home ∷ [] else cs

  -- The calls in flight are waited for.
  abbrev pub waited : List Command → List Command
  waited cs = cs ++ shutdown ∷ []

  told-stop_driven_app :
      (fails : Bool) (s : Loop)
      → told (left (stop_driven_app r e.wall fails s)) ≡ (s.stop, quieted s.commands)
  unfolding stop_driven_app
  told-stop_driven_app true s = elim (Bool-cases (has_adapter r.adapter)) [
    | inl on ↦ rw on (Same-note told (λ s w ws. refl) r e.wall Kind.adapter_error _)
    | inr off ↦ rw off refl
  ]
  told-stop_driven_app false s = elim (Bool-cases (has_adapter r.adapter)) [
    | inl on ↦ rw on refl
    | inr off ↦ rw off refl
  ]

  told-press_home :
      (s : Loop)
      → s.stop ≡ true
      → told (left (press_home r s.stop s)) ≡ (true, sent_home s.commands)
  told-press_home s on = elim (Bool-cases (has_adapter r.adapter)) [
    | inl has ↦ rw (on, has) refl
    | inr none_there ↦ rw (on, none_there) refl
  ]

  told_either : (b : Bool) (s : Loop) → told (left (if b then raised s else going s)) ≡ told s
  told_either true s = refl
  told_either false s = refl

  told-joined :
      (s : Loop) (o : BatchWriter × Option Raised) → told (left (joined e.joined s o)) ≡ told s
  told-joined s (w, some x) = refl
  told-joined s (w, none) = told_either _ (record s { writer = _ })

  told-close_writer : Same told (close_writer e)
  unfolding close_writer
  told-close_writer s = told-joined s (close (work (next_work s.schedule) s.writer))

  -- The parts of the end, from a run that was stopped.
  step-Same :
      (m : Act) (x : Bool × List Command)
      → Same told m
      → (s : Loop) → Told x s
      → Ensures (Told x) (m s)
  step-Same m x same s h = Ensures-same (m s) x (same s ∙ h)

  step_interrupt :
      (came : Bool) (cs : List Command) (s : Loop)
      → Told (true, cs) s
      → Ensures (Told (true, cs)) (interrupt came s)
  step_interrupt came cs s h = ap (λ (x : Bool × List Command). (x.0 || came, x.1)) h

  step_quiet :
      (fails : Bool) (cs : List Command) (s : Loop)
      → Told (true, cs) s
      → Ensures (Told (true, quieted cs)) (stop_driven_app r e.wall fails s)
  step_quiet fails cs s h =
      Ensures-same (stop_driven_app r e.wall fails s) (true, quieted cs)
        (told-stop_driven_app fails s ∙ ap (λ (x : Bool × List Command). (x.0, quieted x.1)) h)

  step_quiet_early :
      (cs : List Command) (s : Loop)
      → Told (true, cs) s
      → Ensures (Told (true, quieted cs)) (quiet_early r e s)
  step_quiet_early cs s h =
      step_if s.stop (stop_driven_app r e.wall e.first_stop_fails) s (true, quieted cs)
        (ap (λ (x : Bool × List Command). x.0) h) (step_quiet e.first_stop_fails cs s h)

  step_shut_down :
      (cs : List Command) (s : Loop)
      → Told (true, cs) s
      → Ensures (Told (true, waited cs)) (shut_down r s)
  step_shut_down cs s h = ap (λ (x : Bool × List Command). (x.0, waited x.1)) h

  step_home :
      (cs : List Command) (s : Loop)
      → Told (true, cs) s
      → Ensures (Told (true, sent_home cs)) (press_home r s.stop s)
  step_home cs s h =
      Ensures-same (press_home r s.stop s) (true, sent_home cs)
        (told-press_home s (ap (λ (x : Bool × List Command). x.0) h)
          ∙ ap (λ (x : Bool × List Command). (true, sent_home x.1)) h)

  -- From the loop's end on, a stopped run stays stopped, and unless it raises, the app is stopped
  -- before and after the calls in flight are waited for, and the device is sent Home.
  pub wind_down-Told :
      (s : Loop)
      → s.stop ≡ true
      → Ensures (Told (true, sent_home (quieted (waited (quieted s.commands))))) (wind_down r e s)
  unfolding wind_down
  wind_down-Told s on =
      let c = s.commands in
      let c0 = quieted c in
      let c1 = waited c0 in
      let c2 = quieted c1 in
      let c3 = sent_home c2 in
      Ensures-then (Told (true, c3)) (Told (true, c3)) _ (close_writer e)
        (Ensures-then (Told (true, c3)) (Told (true, c3)) _ (note r e.wall Kind.lifecycle)
          (Ensures-then (Told (true, c2)) (Told (true, c3)) _ (λ s. press_home r s.stop s)
            (Ensures-then (Told (true, c1)) (Told (true, c2)) _
              (stop_driven_app r e.wall e.stop_fails)
              (Ensures-then (Told (true, c1)) (Told (true, c1)) _ (interrupt e.interrupted_late)
                (Ensures-then (Told (true, c1)) (Told (true, c1)) _
                  (λ s. settle_steps r e s.driving.active s)
                  (Ensures-then (Told (true, c1)) (Told (true, c1)) _
                    (λ s. settle_collectors r e s.sampling.active s)
                    (Ensures-then (Told (true, c0)) (Told (true, c1)) _ (shut_down r)
                      (Ensures-then (Told (true, c)) (Told (true, c0)) (interrupt e.interrupted s)
                        (quiet_early r e)
                        (step_interrupt e.interrupted c s (ap (λ (b : Bool). (b, s.commands)) on))
                        (step_quiet_early c))
                      (step_shut_down c0))
                    (step-Same _ (true, c1) (λ s. Same-settle_collectors s.sampling.active s)))
                  (step-Same _ (true, c1) (λ s. Same-settle_steps s.driving.active s)))
                (step_interrupt e.interrupted_late c1))
              (step_quiet e.stop_fails c1))
            (step_home c2))
          (step-Same (note r e.wall Kind.lifecycle) (true, c3)
            (Same-note told (λ s w ws. refl) r e.wall Kind.lifecycle)))
        (step-Same (close_writer e) (true, c3) told-close_writer)
