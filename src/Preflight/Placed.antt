-- ===== src/Preflight/Placed.antt =====
-- src/autoperf/preflight.py, `summarise`: in which list each target stands.
use auto_perf.Prelude.{
  ◌+◌, ◌≤◌, String, ◌≡◌, refl, ap, ◌∙◌, inl, inr, Bool, true, false, not, ◌&&◌, none, some, List,
  [], ◌∷◌, ◌++◌, map, arith, ◌==◌, eqb, ltb, if◌then◌else◌, Bool-cases,
}
use auto_perf.Prelude.Count.{one, count, all, any, select, first, count-append, count-and-le}
use auto_perf.Preflight.Grade.{Grade, TargetCheck, ScenarioReport}
use auto_perf.Preflight.Summary.{
  is_matched, is_unreliable, is_by_design, is_not_applicable, is_only, Entry, insert_entry,
  sort_entries, Summary, Place, place, put_in, place_entries, no_targets, add_checks, add_reports,
  summarise, is_nil,
}
use auto_perf.Preflight.Tally.{
  has_target, is_of, is_graded, grade_of, checks_of, entry_of, first-add_checks, add_checks-once,
  add_reports-checks,
}

abbrev pub list_at : Place → Summary → List String
list_at Place.needs_attention s = s.needs_attention
list_at Place.healthy s = s.healthy
list_at Place.not_applicable s = s.not_applicable
list_at Place.ungraded s = s.ungraded
list_at Place.by_design s = s.by_design

abbrev pub same_place : Place → Place → Bool
same_place Place.needs_attention Place.needs_attention = true
same_place Place.healthy Place.healthy = true
same_place Place.not_applicable Place.not_applicable = true
same_place Place.ungraded Place.ungraded = true
same_place Place.by_design Place.by_design = true
same_place _ _ = false

abbrev pub is_it : String → String → Bool
is_it t name = name == t

-- Where a target belongs, read off its checks: those that were graded decide.
abbrev pub place_of : List TargetCheck → Place
place_of cs =
    let graded = select is_graded cs in
    if is_nil graded
    then Place.ungraded
    else if all (λ c. is_by_design c.status) graded
    then Place.by_design
    else if all (λ c. is_not_applicable c.status) graded
    then Place.not_applicable
    else if all (λ c. is_matched c.status) graded
    then Place.healthy
    else Place.needs_attention

all-map :
    (q : Grade → Bool) (cs : List TargetCheck) → all q (map grade_of cs) ≡ all (λ c. q c.status) cs
unfolding all
all-map q [] = refl
all-map q (c ∷ cs) = ap (λ b. q c.status && b) (all-map q cs)

is_only-map :
    (q : Grade → Bool) (cs : List TargetCheck)
    → is_only q (map grade_of cs) ≡ (not (is_nil cs) && all (λ c. q c.status) cs)
is_only-map q [] = refl
is_only-map q (c ∷ cs) = all-map q (c ∷ cs)

matched_bound : (cs : List TargetCheck) → count (λ c. is_matched c.status) cs ≤ count is_graded cs
unfolding count
matched_bound [] = omega arith
matched_bound (c ∷ cs) = ground (arith, matched_bound cs)

matched_all :
    (cs : List TargetCheck)
    → eqb (count (λ c. is_matched c.status) cs) (count is_graded cs)
      ≡ all (λ c. is_matched c.status) (select is_graded cs)
unfolding count all select
matched_all [] = refl
matched_all (c ∷ cs) = ground (arith, matched_all cs, matched_bound cs)

none_graded : (cs : List TargetCheck) → eqb (count is_graded cs) 0 ≡ is_nil (select is_graded cs)
unfolding count select
none_graded [] = refl
none_graded (c ∷ cs) = ground (arith, none_graded cs)

some_unreliable :
    (cs : List TargetCheck)
    → is_nil cs ≡ false
    → eqb (count is_graded cs) 0 ≡ true
    → ltb 0 (count (λ c. is_unreliable c.status) cs) ≡ true
unfolding count
some_unreliable [] h g = cc
some_unreliable (c ∷ cs) h g = ground arith

place-entry_of :
    (t : String) (cs : List TargetCheck) → is_nil cs ≡ false → place (entry_of t cs) ≡ place_of cs
unfolding place
place-entry_of t cs h = ground (
  arith,
  none_graded cs,
  some_unreliable cs h,
  is_only-map is_by_design (select is_graded cs),
  is_only-map is_not_applicable (select is_graded cs),
  matched_all cs,
)

count-last :
    (t name : String) (names : List String)
    → count (is_it t) (names ++ name ∷ []) ≡ count (is_it t) names + one (name == t)
unfolding count
count-last t name names = omega (arith, count-append (is_it t) names (name ∷ []))

-- A list holds a target as often as there are entries of it that belong there.
count-put_in :
    (t name : String) (p q : Place) (s : Summary)
    → count (is_it t) (list_at p (put_in q name s))
      ≡ count (is_it t) (list_at p s) + one (same_place q p && name == t)
count-put_in t name Place.needs_attention Place.needs_attention s =
    count-last t name s.needs_attention
count-put_in t name Place.healthy Place.healthy s = count-last t name s.healthy
count-put_in t name Place.not_applicable Place.not_applicable s = count-last t name s.not_applicable
count-put_in t name Place.ungraded Place.ungraded s = count-last t name s.ungraded
count-put_in t name Place.by_design Place.by_design s = count-last t name s.by_design
count-put_in t name _ _ s = omega arith

abbrev stands : String → Place → Entry → Bool
stands t p e = has_target t e && same_place (place e) p

count-place_entries :
    (t : String) (p : Place) (es : List Entry) (s : Summary)
    → count (is_it t) (list_at p (place_entries es s))
      ≡ count (is_it t) (list_at p s) + count (stands t p) es
unfolding place_entries count
count-place_entries t p [] s = omega arith
count-place_entries t p (e ∷ es) s = ground (
  arith,
  count-place_entries t p es (put_in (place e) e.target s),
  count-put_in t e.target p (place e) s,
)

count-insert_entry :
    (q : Entry → Bool) (e : Entry) (es : List Entry)
    → count q (insert_entry e es) ≡ one (q e) + count q es
unfolding insert_entry count
count-insert_entry q e [] = refl
count-insert_entry q e (f ∷ fs) = ground (arith, count-insert_entry q e fs)

count-sort_entries : (q : Entry → Bool) (es : List Entry) → count q (sort_entries es) ≡ count q es
unfolding sort_entries count
count-sort_entries q [] = refl
count-sort_entries q (e ∷ es) =
    omega (arith, count-insert_entry q e (sort_entries es), count-sort_entries q es)

-- Of entries that hold a target once at most, the first of it decides.
count-once :
    (q p : Entry → Bool) (es : List Entry)
    → count q es ≤ 1
    → count (λ e. q e && p e) es ≡ elim (first q es) [ none ↦ 0 | some e ↦ one (p e) ]
unfolding count first
count-once q p [] h = refl
count-once q p (e ∷ es) h = elim (Bool-cases (q e)) [
  | inl it ↦ ground (arith, count-and-le q p es)
  | inr other ↦ ground (arith, count-once q p es)
]

is_nil-select :
    (t : String) (cs : List TargetCheck)
    → any (is_of t) cs ≡ true
    → is_nil (select (is_of t) cs) ≡ false
unfolding any select
is_nil-select t [] h = cc
is_nil-select t (c ∷ cs) h = ground (arith, is_nil-select t cs)

-- Whether a target was checked, and belongs in a list.
abbrev pub belongs : List TargetCheck → Place → String → Bool
belongs cs p t = any (is_of t) cs && same_place (place_of (select (is_of t) cs)) p

entries-belong :
    (cs : List TargetCheck) (p : Place) (t : String)
    → count (stands t p) (add_checks cs []) ≡ one (belongs cs p t)
unfolding count first
entries-belong cs p t =
    count-once (has_target t) (λ e. same_place (place e) p) (add_checks cs [])
      (add_checks-once t cs [] (no_entry t).0)
    ∙ (elim (Bool-cases (any (is_of t) cs)) [
      | inl there ↦ rw (first-add_checks t cs [] (no_entry t).1) (
          rw there (
            ap (λ q. one (same_place q p))
              (place-entry_of t (select (is_of t) cs) (is_nil-select t cs there))))
      | inr absent ↦ rw (first-add_checks t cs [] (no_entry t).1) (rw absent refl)
    ])
  where
    no_entry : (t : String) → (count (has_target t) [] ≤ 1) × (first (has_target t) [] ≡ none)
    no_entry t = (omega arith, refl)

nothing_yet : (t : String) (p : Place) → count (is_it t) (list_at p no_targets) ≡ 0
unfolding count
nothing_yet t Place.needs_attention = refl
nothing_yet t _ = refl

-- The summary of any reports: a target stands in a list exactly once if it was checked and belongs in
-- that list by the checks of it that were graded, and else it does not stand there.
pub summarise_exact :
    (reports : List ScenarioReport) (p : Place) (t : String)
    → count (is_it t) (list_at p (summarise reports)) ≡ one (belongs (checks_of reports) p t)
unfolding summarise
summarise_exact reports p t = omega (
  arith,
  count-place_entries t p (sort_entries (add_reports reports [])) no_targets,
  nothing_yet t p,
  count-sort_entries (stands t p) (add_reports reports []),
  ap (count (stands t p)) (add_reports-checks reports []),
  entries-belong (checks_of reports) p t,
)
