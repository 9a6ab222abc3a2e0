-- ===== src/Runner/Quality.antt =====
-- src/autoperf/runner.py and storage.py: what a run's quality says of the steps that it carried out.
use auto_perf.Prelude.{
  ℕ, ◌+◌, String, ◌≡◌, refl, Bool, true, false, not, ◌&&◌, none, some, List, [], ◌∷◌, ◌++◌, arith,
  ◌==◌, ==_refl, eqb, ltb,
}
use auto_perf.Prelude.Count.{one, count, all, count-append}
use auto_perf.Models.{Kind}
use auto_perf.Storage.Rows.{Event, Storage}
use auto_perf.Storage.Baselines.{is_kind, count_run_events, run_quality}
use auto_perf.Runner.Outcome.{
  ScenarioStep, StepResult, returned, verification_error, other_error, is_expected, fell_back,
  record_step_outcome, record_outcomes,
}

-- What a step's outcome means, read off the step and its result alone.
abbrev pub Finished : Type 0
Finished = ScenarioStep × StepResult

abbrev pub has_failed : Finished → Bool
has_failed (step, verification_error dumps) = true
has_failed (step, _) = false

abbrev pub was_by_coordinates : Finished → Bool
was_by_coordinates (step, returned (some report)) = fell_back report.strategy
was_by_coordinates (step, _) = false

abbrev pub was_blind : Finished → Bool
was_blind (step, result) = was_by_coordinates (step, result) && not (is_expected step.target)

abbrev pub has_dumped : Finished → Bool
has_dumped (step, verification_error dumps) = ltb 0 dumps
has_dumped (step, returned (some report)) = ltb 0 report.dumps
has_dumped (step, _) = false

-- The steps that count for each kind of event.
abbrev pub counts_for : Kind → Finished → Bool
counts_for Kind.verification_failed f = has_failed f
counts_for Kind.selector_fallback f = was_by_coordinates f
counts_for Kind.selector_stale f = was_blind f
counts_for Kind.ui_introspection f = has_dumped f
counts_for Kind.adapter_action (step, returned report) = true
counts_for Kind.adapter_error (step, other_error) = true
counts_for _ f = false

abbrev of_kind : String → Kind → Event → Bool
of_kind run_id kind e = e.run_id == run_id && is_kind kind e.kind

one_step :
    (now : ℕ) (run_id : String) (kind : Kind) (step : ScenarioStep) (result : StepResult)
    → count (of_kind run_id kind) (record_step_outcome now run_id step result)
      ≡ one (counts_for kind (step, result))
unfolding count record_step_outcome
one_step now run_id kind step (returned none) = ground (arith, ==_refl run_id)
one_step now run_id kind step (returned (some report)) = ground (arith, ==_refl run_id)
one_step now run_id kind step (verification_error dumps) = ground (arith, ==_refl run_id)
one_step now run_id kind step other_error = ground (arith, ==_refl run_id)

all_steps :
    (now : ℕ) (run_id : String) (kind : Kind) (done : List Finished)
    → count (of_kind run_id kind) (record_outcomes now run_id done) ≡ count (counts_for kind) done
unfolding count record_outcomes
all_steps now run_id kind [] = refl
all_steps now run_id kind ((step, result) ∷ rest) = omega (
  arith,
  count-append (of_kind run_id kind) (record_step_outcome now run_id step result)
      (record_outcomes now run_id rest),
  one_step now run_id kind step result,
  all_steps now run_id kind rest,
)

abbrev pub recorded : ℕ → String → List Finished → Storage → Storage
recorded now run_id done db = record db {
  test_events = db.test_events ++ record_outcomes now run_id done;
}

-- The events of one kind that recording the steps adds.
count_run_events-recorded :
    (now : ℕ) (run_id : String) (kind : Kind) (done : List Finished) (db : Storage)
    → count_run_events (recorded now run_id done db) run_id kind
      ≡ count_run_events db run_id kind + count (counts_for kind) done
unfolding count_run_events
count_run_events-recorded now run_id kind done db = omega (
  arith,
  count-append (of_kind run_id kind) db.test_events (record_outcomes now run_id done),
  all_steps now run_id kind done,
)

-- A step whose numbers describe what the scenario says.
abbrev pub is_trustworthy : Finished → Bool
is_trustworthy f = not (has_failed f) && not (was_blind f)

trusted :
    (done : List Finished)
    → (eqb (count has_failed done) 0 && eqb (count was_blind done) 0) ≡ all is_trustworthy done
unfolding count all
trusted [] = refl
trusted (f ∷ rest) = ground (arith, trusted rest)

-- Recording the outcomes of any steps of a run: its quality stays verified exactly if it was so and no
-- step failed its verification or tapped a coordinate that it was not meant to, and each of the four
-- counts grows by the number of the steps that it is about.
pub run_quality-recorded :
    (now : ℕ) (run_id : String) (done : List Finished) (db : Storage)
    → let old = run_quality db run_id in
      let new = run_quality (recorded now run_id done db) run_id in
      (new.verified ≡ (old.verified && all is_trustworthy done))
      × (new.verification_failures ≡ old.verification_failures + count has_failed done)
      × (new.selector_fallbacks ≡ old.selector_fallbacks + count was_by_coordinates done)
      × (new.stale_selectors ≡ old.stale_selectors + count was_blind done)
      × (new.ui_introspections ≡ old.ui_introspections + count has_dumped done)
unfolding run_quality
run_quality-recorded now run_id done db =
    let failures = count_run_events-recorded now run_id Kind.verification_failed done db in
    let stale = count_run_events-recorded now run_id Kind.selector_stale done db in
    (
      ground (arith, failures, stale, trusted done),
      failures,
      count_run_events-recorded now run_id Kind.selector_fallback done db,
      stale,
      count_run_events-recorded now run_id Kind.ui_introspection done db,
    )
