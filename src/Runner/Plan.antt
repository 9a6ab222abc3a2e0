-- ===== src/Runner/Plan.antt =====
-- src/autoperf/runner.py, `run`: the plan of a scenario's steps, and what a round does to it.
use mathlib.Core.List.{append_assoc, append-nil, map-append}
use auto_perf.Prelude.{
  ℕ, ◌+◌, ◌≤◌, ◌<◌, ◌≡◌, refl, ap, ◌∙◌, inl, inr, Bool, not, List, [], ◌∷◌, ◌++◌, map, arith, leb,
  Bool-cases, length, length-append, length-map,
}
use auto_perf.Prelude.Count.{select}
use auto_perf.Runner.Outcome.{ScenarioStep}
use auto_perf.Runner.Driving.{
  Driving, insert_step, sort_steps, submitted_step, submit_from, submit_steps,
}

-- What has been submitted, each step with the time since the start, and what waits.
pub record Plan : Type 0 where
  pub driven : List (ScenarioStep × ℕ)
  pub waiting : List ScenarioStep
  pub next_step : ℕ

abbrev pub plan_of : Driving → Plan
plan_of d = record { driven = d.driven; waiting = d.waiting; next_step = d.next_step }

abbrev pub is_due : ℕ → ScenarioStep → Bool
is_due elapsed step = leb step.at elapsed

abbrev pub is_later : ℕ → ScenarioStep → Bool
is_later elapsed step = not (leb step.at elapsed)

abbrev pub at_time : ℕ → ScenarioStep → ScenarioStep × ℕ
at_time elapsed step = (step, elapsed)

-- Every step whose time has come is submitted, in order, and no other.
abbrev pub advance : ℕ → Plan → Plan
advance elapsed p = record {
  driven = p.driven ++ map (at_time elapsed) (select (is_due elapsed) p.waiting);
  waiting = select (is_later elapsed) p.waiting;
  next_step = p.next_step + length (select (is_due elapsed) p.waiting);
}

-- No step of the list is before the time given.
abbrev pub AllFrom : ℕ → List ScenarioStep → Type 0
AllFrom at [] = Unit
AllFrom at (step ∷ rest) = (at ≤ step.at) × AllFrom at rest

abbrev pub IsSorted : List ScenarioStep → Type 0
IsSorted [] = Unit
IsSorted (step ∷ rest) = AllFrom step.at rest × IsSorted rest

AllFrom-le : (a b : ℕ) (steps : List ScenarioStep) → a ≤ b → AllFrom b steps → AllFrom a steps
AllFrom-le a b [] h all_from = tt
AllFrom-le a b (step ∷ rest) h (one, others) = (omega arith, AllFrom-le a b rest h others)

insert_step-AllFrom :
    (a : ℕ) (step : ScenarioStep) (steps : List ScenarioStep)
    → a ≤ step.at
    → AllFrom a steps
    → AllFrom a (insert_step step steps)
unfolding insert_step
insert_step-AllFrom a step [] h all_from = (h, tt)
insert_step-AllFrom a step (other ∷ rest) h (one, others) =
    elim (Bool-cases (leb step.at other.at)) [
      | inl e ↦ rw e (h, (one, others))
      | inr n ↦ rw n (one, insert_step-AllFrom a step rest h others)
    ]

insert_step-IsSorted :
    (step : ScenarioStep) (steps : List ScenarioStep)
    → IsSorted steps
    → IsSorted (insert_step step steps)
unfolding insert_step
insert_step-IsSorted step [] s = (tt, tt)
insert_step-IsSorted step (other ∷ rest) (first_le, s) = elim (Bool-cases (leb step.at other.at)) [
  | inl e ↦
      let le : step.at ≤ other.at = ground (arith, e) in
      rw e ((le, AllFrom-le step.at other.at rest le first_le), (first_le, s))
  | inr n ↦ rw n (
    insert_step-AllFrom other.at step rest (ground (arith, n)) first_le,
    insert_step-IsSorted step rest s,
  )
]

pub sort_steps-IsSorted : (steps : List ScenarioStep) → IsSorted (sort_steps steps)
unfolding sort_steps
sort_steps-IsSorted [] = tt
sort_steps-IsSorted (step ∷ rest) =
    insert_step-IsSorted step (sort_steps rest) (sort_steps-IsSorted rest)

pub append-IsSorted : (xs ys : List ScenarioStep) → IsSorted (xs ++ ys) → IsSorted ys
append-IsSorted [] ys s = s
append-IsSorted (x ∷ xs) ys s = append-IsSorted xs ys s.1

-- Behind a step that is not due, nothing is.
none_due :
    (elapsed at : ℕ) (steps : List ScenarioStep)
    → elapsed < at
    → AllFrom at steps
    → (select (is_due elapsed) steps ≡ []) × (select (is_later elapsed) steps ≡ steps)
unfolding select
none_due elapsed at [] h all_from = (refl, refl)
none_due elapsed at (step ∷ rest) h (one, others) =
    ground (arith, none_due elapsed at rest h others)

pub due_first :
    (elapsed : ℕ) (steps : List ScenarioStep)
    → IsSorted steps
    → select (is_due elapsed) steps ++ select (is_later elapsed) steps ≡ steps
unfolding select
due_first elapsed [] s = refl
due_first elapsed (step ∷ rest) (first_le, s) = elim (Bool-cases (leb step.at elapsed)) [
  | inl e ↦ rw e (ap (λ l. step ∷ l) (due_first elapsed rest s))
  | inr n ↦
      let nothing = none_due elapsed step.at rest (ground (arith, n)) first_le in
      rw n (rw (nothing.0, nothing.1) refl)
]

-- The loop over the steps that are due submits all of them.
submit_from-advance :
    (now elapsed : ℕ) (steps : List ScenarioStep) (d : Driving)
    → d.waiting ≡ steps
    → IsSorted steps
    → plan_of (submit_from now elapsed steps d) ≡ advance elapsed (plan_of d)
unfolding submit_from select
submit_from-advance now elapsed [] d e s = rw e (ground (arith, append-nil d.driven))
submit_from-advance now elapsed (step ∷ rest) d e (first_le, s) =
    rw e (elim (Bool-cases (leb step.at elapsed)) [
      | inl due ↦ rw due (
          submit_from-advance now elapsed rest (submitted_step now elapsed step rest d) refl s
          ∙ ground (
            arith,
            append_assoc d.driven ((step, elapsed) ∷ [])
                (map (at_time elapsed) (select (is_due elapsed) rest)),
          ))
      | inr later ↦
          let nothing = none_due elapsed step.at rest (ground (arith, later)) first_le in
          rw later (rw (nothing.0, nothing.1) (ground (arith, append-nil d.driven)))
    ])

pub submit_steps-advance :
    (now elapsed : ℕ) (d : Driving)
    → IsSorted d.waiting
    → plan_of (submit_steps now elapsed d) ≡ advance elapsed (plan_of d)
unfolding submit_steps
submit_steps-advance now elapsed d s = submit_from-advance now elapsed d.waiting d refl s

abbrev pub AllOnTime : List (ScenarioStep × ℕ) → Type 0
AllOnTime [] = Unit
AllOnTime ((step, elapsed) ∷ rest) = (step.at ≤ elapsed) × AllOnTime rest

abbrev pub step_of : ScenarioStep × ℕ → ScenarioStep
step_of entry = entry.0

-- The steps submitted are the first of the scenario in its order, none before its time, and
-- `next_step` is their number.
pub record IsInOrder (scenario : List ScenarioStep) (p : Plan) : Type 0 where
  pub in_order : map step_of p.driven ++ p.waiting ≡ sort_steps scenario
  pub on_time : AllOnTime p.driven
  pub counted : p.next_step ≡ length p.driven

AllOnTime-append :
    (xs ys : List (ScenarioStep × ℕ)) → AllOnTime xs → AllOnTime ys → AllOnTime (xs ++ ys)
AllOnTime-append [] ys a b = b
AllOnTime-append ((step, elapsed) ∷ xs) ys (one, a) b = (one, AllOnTime-append xs ys a b)

AllOnTime-due :
    (elapsed : ℕ) (steps : List ScenarioStep)
    → AllOnTime (map (at_time elapsed) (select (is_due elapsed) steps))
unfolding select
AllOnTime-due elapsed [] = tt
AllOnTime-due elapsed (step ∷ rest) = elim (Bool-cases (leb step.at elapsed)) [
  | inl e ↦ rw e (ground (arith, e), AllOnTime-due elapsed rest)
  | inr n ↦ rw n (AllOnTime-due elapsed rest)
]

steps_of_times :
    (elapsed : ℕ) (steps : List ScenarioStep) → map step_of (map (at_time elapsed) steps) ≡ steps
steps_of_times elapsed [] = refl
steps_of_times elapsed (step ∷ rest) = ap (λ l. step ∷ l) (steps_of_times elapsed rest)

pub waiting-IsSorted :
    (scenario : List ScenarioStep) (p : Plan) → IsInOrder scenario p → IsSorted p.waiting
waiting-IsSorted scenario p v =
    append-IsSorted (map step_of p.driven) p.waiting (rw v.in_order (sort_steps-IsSorted scenario))

pub advance-IsInOrder :
    (elapsed : ℕ) (scenario : List ScenarioStep) (p : Plan)
    → IsInOrder scenario p
    → IsInOrder scenario (advance elapsed p)
advance-IsInOrder elapsed scenario p v =
    let due = select (is_due elapsed) p.waiting in
    let times = map (at_time elapsed) due in
    record {
      in_order =
          rw
            (
              map-append step_of p.driven times,
              steps_of_times elapsed due,
              append_assoc (map step_of p.driven) due (select (is_later elapsed) p.waiting),
              due_first elapsed p.waiting (waiting-IsSorted scenario p v),
            )
            v.in_order;
      on_time = AllOnTime-append p.driven times v.on_time (AllOnTime-due elapsed p.waiting);
      counted =
          omega (arith, v.counted, length-append p.driven times, length-map (at_time elapsed) due);
    }
