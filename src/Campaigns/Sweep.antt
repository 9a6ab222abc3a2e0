-- ===== src/Campaigns/Sweep.antt =====
-- src/autoperf/campaigns.py, `execute_campaign`: which runs it executes.
use mathlib.Core.Path.{subst}
use mathlib.Core.Bool.{true≢false}
use auto_perf.Prelude.{
  sym, ℕ, suc, String, ◌≡◌, refl, ap, ◌⊎◌, inl, inr, Bool, true, false, not, Option, none, some,
  List, [], ◌∷◌, ◌++◌, Bool-cases,
}
use auto_perf.Prelude.Count.{select}
use auto_perf.Models.{is_terminal}
use auto_perf.Storage.Rows.{Run, Campaign, Storage}
use auto_perf.Storage.Runs.{get_run}
use auto_perf.Storage.Campaigns.{get_campaign, run_ids}
use auto_perf.Campaigns.Execute.{
  Turn, is_cancelled, Progress, executed_first, execute_run, execute_runs,
}
use auto_perf.Campaigns.Executed.{RunEnds, IsClosed, Closed, execute_run-Closed}

-- Every turn comes to an end.
abbrev pub AllEnd : Campaign → (ℕ → Turn) → ℕ → List Run → Type 0
AllEnd c turns i [] = Unit
AllEnd c turns i (row ∷ rows) =
    RunEnds c row (turns i).world (turns i).built × AllEnd c turns (suc i) rows

abbrev pub is_open : Run → Bool
is_open row = not (is_terminal row.status)

-- The campaign was cancelled, or it was not; a row that is gone was not.
abbrev pub IsFlagged : Option Campaign → Type 0
IsFlagged none = ⊥
IsFlagged (some c) = c.cancel_requested ≡ true

abbrev pub IsUnflagged : Option Campaign → Type 0
IsUnflagged none = Unit
IsUnflagged (some c) = c.cancel_requested ≡ false

module _ (str : ℕ → String) (c : Campaign) (turns : ℕ → Turn) where
  -- The loop over the rows from the `i`-th turn on, with the database that it starts from: it ends with
  -- the rows, or at the first turn that finds the campaign cancelled; a row that was terminal when it
  -- was read is passed over; and any other is executed, is closed then, and is the next in `executed`.
  abbrev pub Sweep : ℕ → List Run → Storage → Option Progress → Type 0
  Sweep i [] db p = p ≡ some (db, [], false)
  Sweep i (row ∷ rows) db p =
      let here = (turns i).others db in
      (IsFlagged (get_campaign here c.id) × (p ≡ some (here, [], true)))
      ⊎ (IsUnflagged (get_campaign here c.id)
          × (is_terminal row.status ≡ true)
          × Sweep (suc i) rows here p)
      ⊎ (IsUnflagged (get_campaign here c.id)
          × (is_terminal row.status ≡ false)
          × (after : Storage) × (later : Option Progress) × (execute_run str c row (turns i) here
              ≡ some after)
          × IsClosed (get_run after row.id)
          × (p ≡ executed_first row.id later)
          × Sweep (suc i) rows after later)

pub cancelled-IsFlagged : (o : Option Campaign) → is_cancelled o ≡ true → IsFlagged o
cancelled-IsFlagged none h = absurd (true≢false (sym h))
cancelled-IsFlagged (some c) h = h

open-IsUnflagged : (o : Option Campaign) → is_cancelled o ≡ false → IsUnflagged o
open-IsUnflagged none h = tt
open-IsUnflagged (some c) h = h

-- The runs executed are the first of the open ones, all of them unless the campaign was cancelled, and
-- then the database says so.
abbrev pub ExecutedOf : String → List Run → Option Progress → Type 0
ExecutedOf id rows none = ⊥
ExecutedOf id rows (some (db, executed, cancelled)) =
    (rest : List String) × (executed ++ rest ≡ run_ids (select is_open rows))
    × (((cancelled ≡ true) × IsFlagged (get_campaign db id)) ⊎ ((cancelled ≡ false) × (rest ≡ [])))

executed_first-open :
    (id : String) (row : Run) (rows : List Run) (p : Option Progress)
    → is_terminal row.status ≡ false
    → ExecutedOf id rows p
    → ExecutedOf id (row ∷ rows) (executed_first row.id p)
unfolding select
executed_first-open id row rows none is_one h = h
executed_first-open id row rows (some (db, executed, cancelled)) is_one (rest, split, all_of) =
    rw is_one (rest, ap (λ l. row.id ∷ l) split, all_of)

executed_later :
    (id : String) (row : Run) (rows : List Run) (p : Option Progress)
    → is_terminal row.status ≡ true
    → ExecutedOf id rows p
    → ExecutedOf id (row ∷ rows) p
unfolding select
executed_later id row rows none over h = h
executed_later id row rows (some (db, executed, cancelled)) over (rest, split, all_of) =
    rw over (rest, split, all_of)

pub some-Closed :
    (run_id : String) (x : Option Storage) → Closed run_id x → (db : Storage) × (x ≡ some db)
some-Closed run_id none h = absurd h
some-Closed run_id (some db) h = (db, refl)

pub execute_runs-Sweep :
    (str : ℕ → String) (c : Campaign) (turns : ℕ → Turn) (i : ℕ) (rows : List Run) (db : Storage)
    → AllEnd c turns i rows
    → Sweep str c turns i rows db (execute_runs str c turns i rows db)
unfolding execute_runs
execute_runs-Sweep str c turns i [] db ends = refl
execute_runs-Sweep str c turns i (row ∷ rows) db (ends, later) =
    let here = (turns i).others db in
    elim (Bool-cases (is_cancelled (get_campaign here c.id))) [
      | inl stop ↦
          inl (cancelled-IsFlagged (get_campaign here c.id) stop, rw (execute_runs, stop) refl)
      | inr on ↦
          let unflagged = open-IsUnflagged (get_campaign here c.id) on in
          elim (Bool-cases (is_terminal row.status)) [
            | inl over ↦ inr (
                inl (
                  unflagged,
                  over,
                  rw (execute_runs, on, over)
                      (execute_runs-Sweep str c turns (suc i) rows here later),
                ))
            | inr is_one ↦
                let closed = execute_run-Closed str c row (turns i) here ends in
                let (after, e) = some-Closed row.id _ closed in
                inr (
                  inr (
                    unflagged,
                    is_one,
                    after,
                    execute_runs str c turns (suc i) rows after,
                    e,
                    subst (Closed row.id) e closed,
                    rw (execute_runs, on, is_one, e) refl,
                    execute_runs-Sweep str c turns (suc i) rows after later,
                  ))
          ]
    ]

pub Sweep-executed :
    (str : ℕ → String) (c : Campaign) (turns : ℕ → Turn) (i : ℕ) (rows : List Run) (db : Storage)
    (p : Option Progress)
    → Sweep str c turns i rows db p
    → ExecutedOf c.id rows p
unfolding select
Sweep-executed str c turns i [] db p e =
    subst (ExecutedOf c.id []) (sym e) ([], refl, inr (refl, refl))
Sweep-executed str c turns i (row ∷ rows) db p (inl (flag, e)) =
    subst (ExecutedOf c.id (row ∷ rows)) (sym e)
      (run_ids (select is_open (row ∷ rows)), refl, inl (refl, flag))
Sweep-executed str c turns i (row ∷ rows) db p (inr (inl (unflagged, over, later))) =
    executed_later c.id row rows p over
      (Sweep-executed str c turns (suc i) rows ((turns i).others db) p later)
Sweep-executed str c turns i (row ∷ rows) db p
      (inr (inr (unflagged, is_one, after, rest, e, closed, same, later))) =
    subst (ExecutedOf c.id (row ∷ rows)) (sym same) (
      executed_first-open c.id row rows rest is_one
        (Sweep-executed str c turns (suc i) rows after rest later))
