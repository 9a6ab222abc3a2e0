-- ===== src/Workers/Opened.antt =====
-- src/autoperf/workers.py, `run_many`: the rows and the workers that it starts with.
use mathlib.Core.List.{append-nil}
use mathlib.Core.Bool.{true≢false}
use auto_perf.Prelude.{
  ℕ, suc, ◌≤◌, String, ◌≡◌, refl, sym, ap, ◌∙◌, Bool, true, false, not, ◌&&◌, ◌||◌, inl, inr, none,
  some, List, [], ◌∷◌, ◌++◌, map, arith, ◌==◌, ==_refl, eq_iff, Bool-cases,
}
use auto_perf.Prelude.Count.{any, all, count, any-positive, count-any}
use auto_perf.Models.{RunOrigin}
use auto_perf.Storage.Rows.{Run, Storage}
use auto_perf.Storage.Runs.{has_id, new_run, create_run}
use auto_perf.Workers.{Worker, Watch, see, open_workers, has_duplicate}

-- There is a row of the run.
abbrev pub is_there : Storage → String → Bool
is_there db run_id = any (has_id run_id) db.test_runs

abbrev pub has_row : Storage → Worker → Bool
has_row db w = is_there db w.run_id

abbrev pub is_free : Storage → String → Bool
is_free db run_id = not (is_there db run_id)

-- The ids that uuid4 draws for the serials, from the `i`th on.
unfoldable pub drawn_ids : (ℕ → String × ℕ) → ℕ → List String → List String
drawn_ids drawn i [] = []
drawn_ids drawn i (serial ∷ serials) = (drawn i).0 ∷ drawn_ids drawn (suc i) serials

abbrev pub serials_of : List Worker → List String
serials_of ws = map (λ w. w.serial) ws

abbrev pub ids_of : List Worker → List String
ids_of ws = map (λ w. w.run_id) ws

any-append : (q : Run → Bool) (xs ys : List Run) → any q (xs ++ ys) ≡ (any q xs || any q ys)
unfolding any
any-append q [] ys = refl
any-append q (x ∷ xs) ys = ground (arith, any-append q xs ys)

own_row : (row : Run) (rows : List Run) → any (has_id row.id) (rows ++ row ∷ []) ≡ true
unfolding any
own_row row [] = ground (arith, ==_refl row.id)
own_row row (r ∷ rows) = ground (arith, own_row row rows)

==_swap : (s t : String) → (s == t) ≡ true → (t == s) ≡ true
==_swap s t same = (eq_iff t s).1 (sym ((eq_iff s t).0 same))

-- A new row leaves an id free that is not its own.
stays_free :
    (db : Storage) (row : Run) (ids : List String)
    → all (is_free db) ids ≡ true
    → any (λ t. t == row.id) ids ≡ false
    → all (is_free (record db { test_runs = db.test_runs ++ row ∷ [] })) ids ≡ true
unfolding all any
stays_free db row [] free other = refl
stays_free db row (id ∷ ids) free other = ground (
  arith,
  any-append (has_id id) db.test_runs (row ∷ []),
  ==_swap row.id id,
  stays_free db row ids,
)

rows_stay :
    (db : Storage) (row : Run) (ws : List Worker)
    → all (has_row db) ws ≡ true
    → all (has_row (record db { test_runs = db.test_runs ++ row ∷ [] })) ws ≡ true
unfolding all any
rows_stay db row [] have = refl
rows_stay db row (w ∷ ws) have =
    ground (arith, any-append (has_id w.run_id) db.test_runs (row ∷ []), rows_stay db row ws)

all-append : (q : Worker → Bool) (xs ys : List Worker) → all q (xs ++ ys) ≡ (all q xs && all q ys)
unfolding all
all-append q [] ys = refl
all-append q (x ∷ xs) ys = ground (arith, all-append q xs ys)

map-append :
    (f : Worker → String) (ws : List Worker) (w : Worker) (rest : List String)
    → map f (ws ++ w ∷ []) ++ rest ≡ map f ws ++ f w ∷ rest
map-append f [] w rest = refl
map-append f (v ∷ ws) w rest = ap (λ l. f v ∷ l) (map-append f ws w rest)

-- The workers behind `s` are those of the serials in their order, with the ids that were drawn, and each
-- worker has its row.
pub record IsOpened (drawn : ℕ → String × ℕ) (i : ℕ) (serials : List String) (s s' : Watch)
    : Type 0 where
  pub in_order : serials_of s'.alive ≡ serials_of s.alive ++ serials
  pub ids : ids_of s'.alive ≡ ids_of s.alive ++ drawn_ids drawn i serials
  pub rows : all (has_row s'.db) s'.alive ≡ true

-- What the first serial leaves, where its id is free.
abbrev first_opened : (ℕ → String × ℕ) → ℕ → String → Watch → Watch
first_opened drawn i serial s = record {
  alive = s.alive ++ record { run_id = (drawn i).0; serial = serial } ∷ [];
  last_seen = see (drawn i).0 (drawn i).1 s.last_seen;
  db = record s.db {
    test_runs =
        s.db.test_runs ++ new_run (drawn i).0 serial none none RunOrigin.unknown none none ∷ [];
  };
}

open_workers-cons :
    (drawn : ℕ → String × ℕ) (i : ℕ) (serial : String) (serials : List String) (s : Watch)
    → is_there s.db (drawn i).0 ≡ false
    → open_workers drawn i (serial ∷ serials) s
      ≡ open_workers drawn (suc i) serials (first_opened drawn i serial s)
unfolding open_workers create_run
open_workers-cons drawn i serial serials s is_new = rw (open_workers, is_new) refl

pub open_workers-IsOpened :
    (drawn : ℕ → String × ℕ) (i : ℕ) (serials : List String) (s : Watch)
    → has_duplicate (drawn_ids drawn i serials) ≡ false
    → all (is_free s.db) (drawn_ids drawn i serials) ≡ true
    → all (has_row s.db) s.alive ≡ true
    → (s' : Watch) × (open_workers drawn i serials s ≡ some s') × IsOpened drawn i serials s s'
unfolding open_workers drawn_ids has_duplicate all create_run
open_workers-IsOpened drawn i [] s distinct free rows = (
  s,
  refl,
  record {
    in_order = sym (append-nil (serials_of s.alive));
    ids = sym (append-nil (ids_of s.alive));
    rows = rows;
  },
)
open_workers-IsOpened drawn i (serial ∷ serials) s distinct free rows =
    let w : Worker = record { run_id = (drawn i).0; serial = serial } in
    let row = new_run w.run_id serial none none RunOrigin.unknown none none in
    let s1 = first_opened drawn i serial s in
    let later = drawn_ids drawn (suc i) serials in
    let other : any (λ t. t == row.id) later ≡ false = ground arith in
    let is_new : any (has_id row.id) s.db.test_runs ≡ false = ground arith in
    let own : has_row s1.db w ≡ true = own_row row s.db.test_runs in
    let (s', opened, is_opened) =
      open_workers-IsOpened drawn (suc i) serials s1 (ground arith)
        (stays_free s.db row later (ground arith) other)
        (all-append (has_row s1.db) s.alive (w ∷ [])
          ∙ ground (arith, own, rows_stay s.db row s.alive rows)) in
    (
      s',
      open_workers-cons drawn i serial serials s is_new ∙ opened,
      record {
        in_order = is_opened.in_order ∙ map-append (λ v. v.serial) s.alive w serials;
        ids = is_opened.ids ∙ map-append (λ v. v.run_id) s.alive w later;
        rows = is_opened.rows;
      },
    )

-- Whether `len(set(serials))` is smaller is whether some serial is there twice.
pub has_duplicate-twice :
    (serials : List String)
    → has_duplicate serials ≡ true
    → (serial : String) × (2 ≤ count (λ t. t == serial) serials)
unfolding has_duplicate count any
has_duplicate-twice [] two = absurd (true≢false (sym two))
has_duplicate-twice (s ∷ ss) two = elim (Bool-cases (any (λ t. t == s) ss)) [
  | inl again ↦ (s, ground (arith, again, ==_refl s, any-positive (λ t. t == s) ss))
  | inr once ↦
      let (serial, more) = has_duplicate-twice ss (ground arith) in (serial, ground (arith, more))
]

pub has_duplicate-once :
    (serials : List String)
    → has_duplicate serials ≡ false
    → (serial : String) → count (λ t. t == serial) serials ≤ 1
unfolding has_duplicate count any
has_duplicate-once [] once serial = omega arith
has_duplicate-once (s ∷ ss) once serial = elim (Bool-cases (s == serial)) [
  | inl same ↦
      let here : any (λ t. t == s) ss ≡ false = ground arith in
      let elsewhere : count (λ t. t == serial) ss ≡ 0 =
        count-any (λ t. t == serial) ss
          (ap (λ x. any (λ t. t == x) ss) (sym ((eq_iff s serial).0 same)) ∙ here) in
      rw same (omega (arith, elsewhere))
  | inr other ↦ rw other (omega (arith, has_duplicate-once ss (ground arith) serial))
]
