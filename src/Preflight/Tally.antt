-- ===== src/Preflight/Tally.antt =====
-- src/autoperf/preflight.py, `summarise`: the entry of a target holds the numbers of its own checks.
use mathlib.Core.List.{append_assoc, append-nil}
use auto_perf.Prelude.{
  ℕ, ◌+◌, ◌≤◌, String, ◌≡◌, refl, sym, ap, ◌∙◌, inl, inr, Bool, not, ◌&&◌, Option, none, some, List,
  [], ◌∷◌, ◌++◌, map, arith, ◌==◌, eqb, if◌then◌else◌, Bool-cases, eq_iff,
}
use auto_perf.Prelude.Count.{one, count, any, select, first, count-append}
use auto_perf.Preflight.Grade.{Grade, TargetCheck, ScenarioReport}
use auto_perf.Preflight.Summary.{
  is_matched, is_unreliable, Entry, fresh, count_check, add_check, add_checks, add_reports,
}

abbrev pub has_target : String → Entry → Bool
has_target t e = e.target == t

abbrev pub is_of : String → TargetCheck → Bool
is_of t c = c.target == t

abbrev pub is_graded : TargetCheck → Bool
is_graded c = not (is_unreliable c.status)

abbrev pub grade_of : TargetCheck → Grade
grade_of c = c.status

-- the checks of all reports, in their order
unfoldable pub checks_of : List ScenarioReport → List TargetCheck
checks_of [] = []
checks_of (r ∷ rs) = r.targets ++ checks_of rs

-- The entry that a target's checks make.
abbrev pub entry_of : String → List TargetCheck → Entry
entry_of t cs = record {
  target = t;
  checked = count is_graded cs;
  matched = count (λ c. is_matched c.status) cs;
  unreliable = count (λ c. is_unreliable c.status) cs;
  statuses = map grade_of (select is_graded cs);
}

select-append {ℓ} :
    {A : Type ℓ} (q : A → Bool) (xs ys : List A) → select q (xs ++ ys) ≡ select q xs ++ select q ys
unfolding select
select-append q [] ys = refl
select-append q (x ∷ xs) ys = ground (arith, select-append q xs ys)

grades-append :
    (xs ys : List TargetCheck) → map grade_of (xs ++ ys) ≡ map grade_of xs ++ map grade_of ys
grades-append [] ys = refl
grades-append (x ∷ xs) ys = ap (λ l. x.status ∷ l) (grades-append xs ys)

entry_path :
    (t : String) {a b c a' b' c' : ℕ} {s s' : List Grade}
    → a ≡ a'
    → b ≡ b'
    → c ≡ c'
    → s ≡ s'
    → ◌≡◌ {A = Entry}
        (record { target = t; checked = a; matched = b; unreliable = c; statuses = s })
        (record { target = t; checked = a'; matched = b'; unreliable = c'; statuses = s' })
entry_path t p q r s = ground (arith, p, q, r, s)

count_check-entry_of :
    (t : String) (c : TargetCheck) (seen : List TargetCheck)
    → count_check c (entry_of t seen) ≡ entry_of t (seen ++ c ∷ [])
unfolding count_check count select
count_check-entry_of t c seen =
    let checked = count-append is_graded seen (c ∷ []) in
    let matched = count-append (λ c. is_matched c.status) seen (c ∷ []) in
    let unreliable = count-append (λ c. is_unreliable c.status) seen (c ∷ []) in
    let grades : map grade_of (select is_graded (seen ++ c ∷ []))
        ≡ map grade_of (select is_graded seen) ++ map grade_of (select is_graded (c ∷ [])) =
      ap (map grade_of) (select-append is_graded seen (c ∷ []))
      ∙ grades-append (select is_graded seen) (select is_graded (c ∷ [])) in
    elim (Bool-cases (is_unreliable c.status)) [
      | inl u ↦ rw u (
          entry_path t (ground (arith, checked)) (ground (arith, matched))
            (ground (arith, unreliable))
            (ground (arith, grades, append-nil (map grade_of (select is_graded seen)))))
      | inr u ↦ rw u (
          entry_path t (ground (arith, checked)) (ground (arith, matched))
            (ground (arith, unreliable)) (ground (arith, grades)))
    ]

count_check-target : (c : TargetCheck) (e : Entry) → (count_check c e).target ≡ e.target
unfolding count_check
count_check-target c e = elim (Bool-cases (is_unreliable c.status)) [
  | inl u ↦ rw u refl
  | inr u ↦ rw u refl
]

-- What the checks of a list make of a target's entry.
abbrev or_fresh : String → Option Entry → Entry
or_fresh t none = fresh t
or_fresh t (some e) = e

first-add_check :
    (t : String) (c : TargetCheck) (es : List Entry)
    → first (has_target t) (add_check c es) ≡ (
        if is_of t c
        then some (count_check c (or_fresh t (first (has_target t) es)))
        else first (has_target t) es)
unfolding add_check first
first-add_check t c [] = ground (arith, count_check-target c (fresh c.target), eq_iff c.target t)
first-add_check t c (e ∷ es) = ground (
  arith,
  count_check-target c e,
  eq_iff c.target t,
  eq_iff e.target t,
  eq_iff e.target c.target,
  first-add_check t c es,
)

-- The entry that is there, and then the checks of a list.
gathered :
    (t : String) (cs seen : List TargetCheck) (es : List Entry)
    → first (has_target t) es ≡ some (entry_of t seen)
    → first (has_target t) (add_checks cs es) ≡ some (entry_of t (seen ++ select (is_of t) cs))
unfolding add_checks select
gathered t [] seen es h = h ∙ ap (λ l. some (entry_of t l)) (sym (append-nil seen))
gathered t (c ∷ cs) seen es h = elim (Bool-cases (is_of t c)) [
  | inl it ↦
      let step : first (has_target t) (add_check c es) ≡ some (entry_of t (seen ++ c ∷ [])) =
        first-add_check t c es ∙ rw it (rw h (ap some (count_check-entry_of t c seen))) in
      rw it (
        gathered t cs (seen ++ c ∷ []) (add_check c es) step
        ∙ ap (λ l. some (entry_of t l)) (append_assoc seen (c ∷ []) (select (is_of t) cs)))
  | inr other ↦ rw other (gathered t cs seen (add_check c es) (first-add_check t c es ∙ rw other h))
]

-- From the start: an entry for each target that is checked, made of its checks.
pub first-add_checks :
    (t : String) (cs : List TargetCheck) (es : List Entry)
    → first (has_target t) es ≡ none
    → first (has_target t) (add_checks cs es)
      ≡ (if any (is_of t) cs then some (entry_of t (select (is_of t) cs)) else none)
unfolding add_checks select any count
first-add_checks t [] es h = h
first-add_checks t (c ∷ cs) es h = elim (Bool-cases (is_of t c)) [
  | inl it ↦
      let step : first (has_target t) (add_check c es) ≡ some (entry_of t (c ∷ [])) =
        first-add_check t c es ∙ rw it (rw h (ap some (count_check-entry_of t c []))) in
      rw it (gathered t cs (c ∷ []) (add_check c es) step)
  | inr other ↦
      rw other (first-add_checks t cs (add_check c es) (first-add_check t c es ∙ rw other h))
]

-- No target has two entries.
count-add_check :
    (t : String) (c : TargetCheck) (es : List Entry)
    → count (has_target t) (add_check c es)
      ≡ count (has_target t) es + one (is_of t c && eqb (count (has_target t) es) 0)
unfolding add_check count
count-add_check t c [] = ground (arith, count_check-target c (fresh c.target))
count-add_check t c (e ∷ es) = ground (
  arith,
  count_check-target c e,
  eq_iff c.target t,
  eq_iff e.target t,
  eq_iff e.target c.target,
  count-add_check t c es,
)

add_check-once :
    (t : String) (c : TargetCheck) (es : List Entry)
    → count (has_target t) es ≤ 1
    → count (has_target t) (add_check c es) ≤ 1
add_check-once t c es h = ground (arith, count-add_check t c es)

pub add_checks-once :
    (t : String) (cs : List TargetCheck) (es : List Entry)
    → count (has_target t) es ≤ 1
    → count (has_target t) (add_checks cs es) ≤ 1
unfolding add_checks
add_checks-once t [] es h = h
add_checks-once t (c ∷ cs) es h = add_checks-once t cs (add_check c es) (add_check-once t c es h)

add_checks-append :
    (xs ys : List TargetCheck) (es : List Entry)
    → add_checks (xs ++ ys) es ≡ add_checks ys (add_checks xs es)
unfolding add_checks
add_checks-append [] ys es = refl
add_checks-append (x ∷ xs) ys es = add_checks-append xs ys (add_check x es)

-- The reports one after the other are the checks of all of them.
pub add_reports-checks :
    (rs : List ScenarioReport) (es : List Entry) → add_reports rs es ≡ add_checks (checks_of rs) es
unfolding add_reports add_checks checks_of
add_reports-checks [] es = refl
add_reports-checks (r ∷ rs) es =
    add_reports-checks rs (add_checks r.targets es)
    ∙ sym (add_checks-append r.targets (checks_of rs) es)
