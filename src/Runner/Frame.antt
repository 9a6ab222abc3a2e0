-- ===== src/Runner/Frame.antt =====
-- src/autoperf/runner.py, `run`: what the parts of a round leave alone.
use auto_perf.Prelude.{
  ℕ, ◌-◌, String, ◌≡◌, refl, ◌∙◌, Bool, true, false, not, ◌&&◌, Option, none, some, List, [], ◌∷◌,
  leb, if◌then◌else◌,
}
use auto_perf.Models.{MetricSample, Kind}
use auto_perf.Storage.Rows.{Event}
use auto_perf.Writer.{Item, BatchWriter, Raised, sample, put}
use auto_perf.Writer.{event as event_item}
use auto_perf.Runner.Outcome.{ScenarioStep, StepResult, record_step_outcome}
use auto_perf.Runner.Sampling.{has_timed_out, settle_collector}
use auto_perf.Runner.Driving.{ActiveStep, step_timed_out, settle_step}
use auto_perf.Runner.Loop.{
  TestRunner, Loop, Collected, Tick, Outcome, going, raised, Act, and_then, handled, work,
  next_work, later_work, put_outcome, emit, emit_samples, emit_events, note, store_samples,
  collector_done, collector_late, collector_polled, poll_collector, poll_collectors, step_polled,
  step_done, step_late, poll_step, poll_steps,
}

-- the state that a part leaves, however it ends
abbrev pub left : Outcome → Loop
left (going s) = s
left (raised s) = s

module _ {X : Type 0} (f : Loop → X) where
  abbrev pub Same : Act → Type 0
  Same m = (s : Loop) → f (left (m s)) ≡ f s

  pub Same-then : (o : Outcome) (k : Act) → Same k → f (left (and_then o k)) ≡ f (left o)
  Same-then (going s) k keeps = keeps s
  Same-then (raised s) k keeps = refl

  Same-handled : (o : Outcome) (k : Act) → Same k → f (left (handled o k)) ≡ f (left o)
  Same-handled (going s) k keeps = refl
  Same-handled (raised s) k keeps = keeps s

  same_if :
      (b : Bool) (m n : Act) (s : Loop) {x : X}
      → f (left (m s)) ≡ x
      → f (left (n s)) ≡ x
      → f (left (if b then m s else n s)) ≡ x
  same_if true m n s yes_case no_case = yes_case
  same_if false m n s yes_case no_case = no_case

  -- A view that does not look at the writer.
  module _
      (writes : (s : Loop) (w : BatchWriter) (ws : List (List Bool))
        → f (record s { writer = w; schedule = ws }) ≡ f s) where
    Same-put_outcome :
        (s : Loop) (o : BatchWriter × Option Raised) → f (left (put_outcome s o)) ≡ f s
    Same-put_outcome s (w, none) = writes s w (later_work s.schedule)
    Same-put_outcome s (w, some e) = writes s w (later_work s.schedule)

    pub Same-emit : (i : Item) → Same (emit i)
    unfolding emit
    Same-emit i s = Same-put_outcome s (put i (work (next_work s.schedule) s.writer))

    Same-emit_samples : (xs : List MetricSample) → Same (emit_samples xs)
    unfolding emit_samples
    Same-emit_samples [] s = refl
    Same-emit_samples (x ∷ xs) s =
        Same-then (emit (sample x) s) (emit_samples xs) (Same-emit_samples xs)
        ∙ Same-emit (sample x) s

    pub Same-emit_events : (es : List Event) → Same (emit_events es)
    unfolding emit_events
    Same-emit_events [] s = refl
    Same-emit_events (e ∷ es) s =
        Same-then (emit (event_item e) s) (emit_events es) (Same-emit_events es)
        ∙ Same-emit (event_item e) s

    module _ (r : TestRunner) where
      pub Same-note : (wall : ℕ) (kind : Kind) → Same (note r wall kind)
      Same-note wall kind s =
          Same-emit (event_item (record { run_id = r.run_id; timestamp = wall; kind = kind })) s

      pub Same-store_samples : (wall : ℕ) (c : Collected) → Same (store_samples r wall c)
      unfolding store_samples
      Same-store_samples wall none s = Same-note wall Kind.collector_error s
      Same-store_samples wall (some xs) s =
          Same-handled (emit_samples xs s) (note r wall Kind.collector_error)
            (Same-note wall Kind.collector_error)
          ∙ Same-emit_samples xs s

      -- A view that does not look at the collectors in flight either.
      module _
          (polls : (s : Loop) (active : List (String × ℕ)) (timed_out : List String)
            → f (record s {
              sampling = record s.sampling { active = active; timed_out = timed_out };
            })
              ≡ f s) where
        Same-collector_done :
            (wall : ℕ) (name : String) (late : Bool) (c : Collected)
            → Same (collector_done r wall name late c)
        unfolding collector_done settle_collector
        Same-collector_done wall name true c s = polls s _ _
        Same-collector_done wall name false c s = Same-store_samples wall c _ ∙ polls s _ _

        Same-collector_late : (wall : ℕ) (name : String) → Same (collector_late r wall name)
        unfolding collector_late
        Same-collector_late wall name s = Same-note wall Kind.collector_timeout _ ∙ polls s _ _

        Same-poll_collector :
            (t : Tick) (name : String) (at : ℕ) → Same (poll_collector r t name at)
        unfolding poll_collector
        Same-poll_collector t name at s =
            elim (t.collected name) as (λ o. f (left (collector_polled r t name at o s)) ≡ f s) [
              | some c ↦ Same-collector_done t.wall name (has_timed_out name s.sampling) c s
              | none ↦
                  same_if
                    (leb r.collector_timeout (t.now - at) && not (has_timed_out name s.sampling))
                    (collector_late r t.wall name) going s (Same-collector_late t.wall name s) refl
            ]

        pub Same-poll_collectors :
            (t : Tick) (active : List (String × ℕ)) → Same (poll_collectors r t active)
        unfolding poll_collectors
        Same-poll_collectors t [] s = refl
        Same-poll_collectors t ((name, at) ∷ rest) s =
            Same-then (poll_collector r t name at s) (poll_collectors r t rest)
              (Same-poll_collectors t rest)
            ∙ Same-poll_collector t name at s

      -- A view that does not look at the steps in flight.
      module _
          (polls : (s : Loop) (active : List ActiveStep) (timed_out : List ℕ)
            → f (record s { driving = record s.driving { active = active; timed_out = timed_out } })
              ≡ f s) where
        Same-step_done :
            (wall i : ℕ) (step : ScenarioStep) (late : Bool) (result : StepResult)
            → Same (step_done r wall i step late result)
        unfolding step_done settle_step
        Same-step_done wall i step true result s = polls s _ _
        Same-step_done wall i step false result s =
            Same-emit_events (record_step_outcome wall r.run_id step result) _ ∙ polls s _ _

        Same-step_late : (wall i : ℕ) → Same (step_late r wall i)
        unfolding step_late
        Same-step_late wall i s = Same-note wall Kind.adapter_timeout _ ∙ polls s _ _

        Same-poll_step : (t : Tick) (entry : ActiveStep) → Same (poll_step r t entry)
        unfolding poll_step
        Same-poll_step t (i, at, step) s =
            elim (t.finished i) as (λ o. f (left (step_polled r t (i, at, step) o s)) ≡ f s) [
              | some result ↦ Same-step_done t.wall i step (step_timed_out i s.driving) result s
              | none ↦
                  same_if
                    (leb r.adapter_action_timeout (t.now - at) && not (step_timed_out i s.driving))
                    (step_late r t.wall i) going s (Same-step_late t.wall i s) refl
            ]

        pub Same-poll_steps : (t : Tick) (active : List ActiveStep) → Same (poll_steps r t active)
        unfolding poll_steps
        Same-poll_steps t [] s = refl
        Same-poll_steps t (entry ∷ rest) s =
            Same-then (poll_step r t entry s) (poll_steps r t rest) (Same-poll_steps t rest)
            ∙ Same-poll_step t entry s
