-- ===== src/Preflight/Verdict.antt =====
-- src/autoperf/preflight.py, `summarise`: what the verdict of a summary says of the reports.
use auto_perf.Prelude.{
  String, ◌≡◌, refl, ap, ◌∙◌, inl, inr, Bool, true, false, not, ◌&&◌, ◌||◌, List, [], ◌∷◌, ◌++◌,
  arith, Bool-cases, eq_iff, ==_refl,
}
use auto_perf.Prelude.Count.{one, count, all, any, select}
use auto_perf.Preflight.Grade.{Grade, TargetCheck, ScenarioReport, is_degraded, is_failed, ok}
use auto_perf.Preflight.Summary.{
  is_matched, is_unreliable, is_by_design, is_not_applicable, Place, summarise, is_nil,
  failed_verifications, is_ok,
}
use auto_perf.Preflight.Tally.{is_of, is_graded, checks_of}
use auto_perf.Preflight.Placed.{is_it, place_of, same_place, belongs, summarise_exact}

-- Nothing that the reports say of a target calls for attention.
abbrev pub is_quiet : List TargetCheck → String → Bool
is_quiet cs t = not (same_place (place_of (select (is_of t) cs)) Place.needs_attention)

module _ (g : String → Bool) where
  quiet_target :
      (t : String) (cs : List TargetCheck)
      → all (λ c. g c.target) cs ≡ true
      → any (is_of t) cs ≡ true
      → g t ≡ true
  unfolding all any
  quiet_target t [] h k = cc
  quiet_target t (c ∷ cs) h k = elim (Bool-cases (is_of t c)) [
    | inl it ↦ let same : g c.target ≡ g t = ap g ((eq_iff c.target t).0 it) in ground (arith, same)
    | inr other ↦ ground (arith, quiet_target t cs)
  ]

  loud_target :
      (cs : List TargetCheck)
      → all (λ c. g c.target) cs ≡ false
      → (t : String) × (any (is_of t) cs ≡ true) × (g t ≡ false)
  unfolding all any
  loud_target [] h = cc
  loud_target (c ∷ cs) h = elim (Bool-cases (g c.target)) [
    | inr loud ↦ (c.target, rw (==_refl c.target), loud)
    | inl quiet ↦
        let (t, there, loud) = loud_target cs (ground (arith, quiet)) in
        (t, ground (arith, there), loud)
  ]

nil_of_counts :
    (names : List String) → ((t : String) → count (is_it t) names ≡ 0) → is_nil names ≡ true
unfolding count
nil_of_counts [] h = refl
nil_of_counts (name ∷ names) h = absurd (ground (arith, h name, ==_refl name))

not_nil : (t : String) (names : List String) → count (is_it t) names ≡ 1 → is_nil names ≡ false
unfolding count
not_nil t [] h = absurd (omega arith)
not_nil t (name ∷ names) h = refl

attention_nil :
    (reports : List ScenarioReport)
    → let cs = checks_of reports in
      is_nil (summarise reports).needs_attention ≡ all (λ c. is_quiet cs c.target) cs
attention_nil reports =
    let cs = checks_of reports in
    elim (Bool-cases (all (λ c. is_quiet cs c.target) cs)) [
      | inl quiet ↦ rw quiet (
          nil_of_counts (summarise reports).needs_attention
            (λ t. summarise_exact reports Place.needs_attention t ∙ absent reports t quiet))
      | inr loud ↦
          let (t, there, calls) = loud_target (is_quiet cs) cs loud in
          rw loud (
            not_nil t (summarise reports).needs_attention
              (summarise_exact reports Place.needs_attention t ∙ ground (arith, there, calls)))
    ]
  where
    absent :
        (reports : List ScenarioReport) (t : String)
        → all (λ c. is_quiet (checks_of reports) c.target) (checks_of reports) ≡ true
        → one (belongs (checks_of reports) Place.needs_attention t) ≡ 0
    absent reports t quiet = elim (Bool-cases (any (is_of t) (checks_of reports))) [
      | inl there ↦
          ground
            (arith, quiet_target (is_quiet (checks_of reports)) t (checks_of reports) quiet there)
      | inr not_there ↦ rw not_there refl
    ]

none_selected {ℓ} :
    {A : Type ℓ} (q : A → Bool) (xs : List A) → is_nil (select q xs) ≡ not (any q xs)
unfolding any select
none_selected q [] = refl
none_selected q (x ∷ xs) = ground (arith, none_selected q xs)

is_nil-append {ℓ} : {A : Type ℓ} (xs ys : List A) → is_nil (xs ++ ys) ≡ (is_nil xs && is_nil ys)
is_nil-append [] ys = refl
is_nil-append (x ∷ xs) ys = refl

abbrev pub has_failed : ScenarioReport → Bool
has_failed r = any (λ v. is_failed v.result) r.verifications

failures_nil :
    (reports : List ScenarioReport)
    → is_nil (failed_verifications reports) ≡ not (any has_failed reports)
unfolding failed_verifications any
failures_nil [] = refl
failures_nil (r ∷ rs) = ground (
  arith,
  is_nil-append (select (λ v. is_failed v.result) r.verifications) (failed_verifications rs),
  none_selected (λ v. is_failed v.result) r.verifications,
  failures_nil rs,
)

-- A summary is ok exactly if no target that was checked belongs among those that need attention, and no
-- verification of any report failed.
pub is_ok_exact :
    (reports : List ScenarioReport)
    → let cs = checks_of reports in
      is_ok reports ≡ (all (λ c. is_quiet cs c.target) cs && not (any has_failed reports))
unfolding is_ok
is_ok_exact reports = rw (attention_nil reports, failures_nil reports) refl

abbrev is_bad : TargetCheck → Bool
is_bad c = is_degraded c.status

-- A degraded check is graded, and is none of the grades that keep a target off the list.
degraded_breaks :
    (q : Grade → Bool)
    → ((g : Grade) → is_degraded g ≡ true → q g ≡ false)
    → (cs : List TargetCheck) → any is_bad cs ≡ true
    → all (λ c. q c.status) (select is_graded cs) ≡ false
unfolding all any select
degraded_breaks q never [] h = cc
degraded_breaks q never (c ∷ cs) h = elim (Bool-cases (is_bad c)) [
  | inl bad ↦ ground (arith, never c.status bad, graded_bad c.status bad)
  | inr good ↦ ground (arith, degraded_breaks q never cs)
]
  where
    graded_bad : (g : Grade) → is_degraded g ≡ true → not (is_unreliable g) ≡ true
    graded_bad g h = ground arith

needs_attention_of :
    (cs : List TargetCheck) → any is_bad cs ≡ true → place_of cs ≡ Place.needs_attention
unfolding all
needs_attention_of cs h = ground (
  arith,
  degraded_breaks (λ g. false) (λ g d. refl) cs h,
  nil_all (select is_graded cs),
  degraded_breaks is_by_design (λ g d. ground arith) cs h,
  degraded_breaks is_not_applicable (λ g d. ground arith) cs h,
  degraded_breaks is_matched (λ g d. ground arith) cs h,
)
  where
    nil_all : (gs : List TargetCheck) → all (λ c. false) gs ≡ is_nil gs
    nil_all [] = refl
    nil_all (g ∷ gs) = refl

bad_target :
    (cs : List TargetCheck)
    → any is_bad cs ≡ true
    → (t : String) × (any (is_of t) cs ≡ true) × (any is_bad (select (is_of t) cs) ≡ true)
unfolding any select
bad_target [] h = cc
bad_target (c ∷ cs) h = elim (Bool-cases (is_bad c)) [
  | inl bad ↦ (c.target, rw (==_refl c.target), rw (==_refl c.target) (rw bad refl))
  | inr good ↦
      let (t, there, bad) = bad_target cs (ground (arith, good)) in
      (t, ground (arith, there), ground (arith, bad))
]

none_bad :
    (cs : List TargetCheck) → all (λ c. is_quiet cs c.target) cs ≡ true → any is_bad cs ≡ false
none_bad cs quiet = elim (Bool-cases (any is_bad cs)) [
  | inr none_there ↦ none_there
  | inl bad ↦
      let (t, there, worse) = bad_target cs bad in
      ground (
        arith,
        quiet_target (is_quiet cs) t cs quiet there,
        needs_attention_of (select (is_of t) cs) worse,
      )
]

any-append : (xs ys : List TargetCheck) → any is_bad (xs ++ ys) ≡ (any is_bad xs || any is_bad ys)
unfolding any
any-append [] ys = refl
any-append (x ∷ xs) ys = ground (arith, any-append xs ys)

all_reports_ok :
    (reports : List ScenarioReport)
    → any is_bad (checks_of reports) ≡ false
    → any has_failed reports ≡ false
    → all ok reports ≡ true
unfolding all any ok checks_of
all_reports_ok [] h k = refl
all_reports_ok (r ∷ rs) h k = ground (arith, any-append r.targets (checks_of rs), all_reports_ok rs)

-- Where the summary is ok, every report is.
pub is_ok-reports : (reports : List ScenarioReport) → is_ok reports ≡ true → all ok reports ≡ true
is_ok-reports reports h =
    let exact = is_ok_exact reports in
    all_reports_ok reports (none_bad (checks_of reports) (ground (arith, exact)))
      (ground (arith, exact))
