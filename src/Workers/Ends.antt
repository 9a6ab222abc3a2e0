-- ===== src/Workers/Ends.antt =====
-- src/autoperf/workers.py, the loop of `run_many`: when it ends, while the watched runs keep their rows.
use mathlib.Core.Bool.{true≢false}
use auto_perf.Prelude.{
  ℕ, String, ◌≡◌, refl, sym, ap, ◌∙◌, true, false, inl, inr, Option, none, some, List, [], Bool,
  not, ==_refl, eq_iff, ◌==◌, arith, ◌∷◌, ◌++◌, Bool-cases, Option-cases, is_none,
}
use auto_perf.Prelude.Count.{select, first, any, all}
use auto_perf.Prelude.Int.{ℤ}
use auto_perf.Storage.Rows.{Run, Storage}
use auto_perf.Storage.Runs.{has_id, get_run}
use auto_perf.Workers.{Worker, Pass, Watch, Ending, all_over, stays, pass, supervise, is_nobody}
use auto_perf.Workers.Watched.{pass_exact, seen_by}
use auto_perf.Workers.Supervised.{orphaned, is_orphan}
use auto_perf.Workers.Opened.{is_there, has_row, ids_of}

abbrev pub AllExited : Pass → Type 0
AllExited p = (run_id : String) → is_none (p.exited run_id) ≡ false

nobody_stays :
    (timeout : ℕ) (p : Pass) (last_seen : String → ℕ) (ws : List Worker)
    → AllExited p
    → select (stays timeout p last_seen) ws ≡ []
unfolding select
nobody_stays timeout p last_seen [] over = refl
nobody_stays timeout p last_seen (w ∷ ws) over = elim (Option-cases (p.exited w.run_id)) [
  | inl alive ↦ absurd (true≢false (sym (ap is_none alive) ∙ over w.run_id))
  | inr (code, gone) ↦ rw gone (nobody_stays timeout p last_seen ws over)
]

-- Between two passes other processes may delete any run but those that are watched.
abbrev pub KeepsRows : List String → Pass → Type 0
KeepsRows ids p =
    (db : Storage) → all (is_there db) ids ≡ true → all (is_there (p.others db)) ids ≡ true

abbrev pub AllKeepRows : List String → List Pass → Type 0
AllKeepRows ids [] = Unit
AllKeepRows ids (p ∷ ps) = KeepsRows ids p × AllKeepRows ids ps

is_none-first : (q : Run → Bool) (rows : List Run) → is_none (first q rows) ≡ not (any q rows)
unfolding first any
is_none-first q [] = refl
is_none-first q (row ∷ rows) = ground (arith, is_none-first q rows)

is_none-get_run : (db : Storage) (id : String) → is_none (get_run db id) ≡ not (is_there db id)
unfolding get_run
is_none-get_run db id = is_none-first (has_id id) db.test_runs

same_rows :
    (db db' : Storage)
    → ((id : String) → is_none (get_run db' id) ≡ is_none (get_run db id))
    → (ids : List String) → all (is_there db) ids ≡ true
    → all (is_there db') ids ≡ true
unfolding all
same_rows db db' same [] there = refl
same_rows db db' same (id ∷ ids) there =
    ground
      (arith, same id, is_none-get_run db id, is_none-get_run db' id, same_rows db db' same ids)

-- Each worker that is watched is one of those that were opened.
abbrev pub is_one_of : List String → Worker → Bool
is_one_of ids w = any (λ t. t == w.run_id) ids

there-any :
    (db : Storage) (ids : List String) (id : String)
    → all (is_there db) ids ≡ true
    → any (λ t. t == id) ids ≡ true
    → is_there db id ≡ true
unfolding all any
there-any db [] id there one = absurd (true≢false (sym one))
there-any db (i ∷ ids) id there one = elim (Bool-cases (i == id)) [
  | inl same ↦ ap (is_there db) (sym ((eq_iff i id).0 same)) ∙ ground (arith, there)
  | inr other ↦ there-any db ids id (ground arith) (ground arith)
]

no_orphan :
    (timeout : ℕ) (p : Pass) (seen : String → ℕ) (db : Storage) (ids : List String)
    (ws : List Worker)
    → all (is_there db) ids ≡ true
    → all (is_one_of ids) ws ≡ true
    → any (orphaned timeout p seen db) ws ≡ false
unfolding all any
no_orphan timeout p seen db ids [] there known = refl
no_orphan timeout p seen db ids (w ∷ ws) there known =
    ground (arith, fine (p.exited w.run_id), no_orphan timeout p seen db ids ws there)
  where
    fine : (code : Option ℤ) → is_orphan timeout p seen w code db ≡ false
    fine none = refl
    fine (some code) = ground (
      arith,
      is_none-get_run db w.run_id,
      there-any db ids w.run_id there (ground (arith, known)),
    )

all-select :
    (q keep : Worker → Bool) (ws : List Worker) → all q ws ≡ true → all q (select keep ws) ≡ true
unfolding all select
all-select q keep [] h = refl
all-select q keep (w ∷ ws) h = ground (arith, all-select q keep ws)

-- A pass while the watched runs keep their rows does not raise.
passes-KeepsRows :
    (timeout : ℕ) (p : Pass) (s : Watch) (ids : List String)
    → KeepsRows ids p
    → all (is_there s.db) ids ≡ true
    → all (is_one_of ids) s.alive ≡ true
    → (s' : Watch) × (pass timeout p s ≡ some s')
      × (s'.alive ≡ select (stays timeout p (seen_by timeout p s)) s.alive)
      × (all (is_there s'.db) ids ≡ true)
      × (all (is_one_of ids) s'.alive ≡ true)
passes-KeepsRows timeout p s ids keeps there known =
    let there' = keeps s.db there in
    elim (pass_exact timeout p s) [
      | inl (orphan, raises) ↦
          let clash =
            no_orphan timeout p (seen_by timeout p s) (p.others s.db) ids s.alive there' known in
          absurd (true≢false (sym orphan ∙ clash))
      | inr (fine, s', result, kept, bad, records, rows) ↦ (
        s',
        result,
        kept,
        same_rows (p.others s.db) s'.db rows ids there',
        ap (all (is_one_of ids)) kept
            ∙ all-select (is_one_of ids) (stays timeout p (seen_by timeout p s)) s.alive known,
      )
    ]

abbrev pub AllOver : Ending → Type 0
AllOver e = (db : Storage) × (e ≡ all_over db)

supervise-nobody :
    (timeout : ℕ) (ps : List Pass) (s : Watch) → s.alive ≡ [] → AllOver (supervise timeout ps s)
unfolding supervise
supervise-nobody timeout [] s none_left = (s.db, rw none_left refl)
supervise-nobody timeout (p ∷ ps) s none_left = (s.db, rw none_left refl)

supervise-cons :
    (timeout : ℕ) (p : Pass) (ps : List Pass) (s s' : Watch)
    → pass timeout p s ≡ some s'
    → AllOver (supervise timeout ps s')
    → AllOver (supervise timeout (p ∷ ps) s)
unfolding supervise
supervise-cons timeout p ps s s' result (db, ends) = elim (Bool-cases (is_nobody s.alive)) [
  | inl nobody ↦ (s.db, rw nobody refl)
  | inr someone ↦ (db, rw (someone, result) ends)
]

pub supervise-AllOver :
    (timeout : ℕ) (before : List Pass) (p : Pass) (after : List Pass) (s : Watch)
    (ids : List String)
    → AllExited p
    → AllKeepRows ids (before ++ p ∷ [])
    → all (is_there s.db) ids ≡ true
    → all (is_one_of ids) s.alive ≡ true
    → AllOver (supervise timeout (before ++ p ∷ after) s)
supervise-AllOver timeout [] p after s ids over (keeps, rest) there known =
    let (s', result, kept, there', known') = passes-KeepsRows timeout p s ids keeps there known in
    supervise-cons timeout p after s s' result (
      supervise-nobody timeout after s'
        (kept ∙ nobody_stays timeout p (seen_by timeout p s) s.alive over))
supervise-AllOver timeout (q ∷ before) p after s ids over (keeps, rest) there known =
    let (s', result, kept, there', known') = passes-KeepsRows timeout q s ids keeps there known in
    supervise-cons timeout q (before ++ p ∷ after) s s' result
      (supervise-AllOver timeout before p after s' ids over rest there' known')

pub rows-ids :
    (db : Storage) (ws : List Worker)
    → all (has_row db) ws ≡ true
    → all (is_there db) (ids_of ws) ≡ true
unfolding all
rows-ids db [] h = refl
rows-ids db (w ∷ ws) h = ground (arith, rows-ids db ws)

known_mono :
    (id : String) (ids : List String) (ws : List Worker)
    → all (is_one_of ids) ws ≡ true
    → all (is_one_of (id ∷ ids)) ws ≡ true
unfolding all any
known_mono id ids [] h = refl
known_mono id ids (w ∷ ws) h = ground (arith, known_mono id ids ws)

pub known-own : (ws : List Worker) → all (is_one_of (ids_of ws)) ws ≡ true
unfolding all any
known-own [] = refl
known-own (w ∷ ws) =
    ground (arith, ==_refl w.run_id, known_mono w.run_id (ids_of ws) ws (known-own ws))
