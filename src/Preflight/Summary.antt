-- ===== src/Preflight/Summary.antt =====
-- src/autoperf/preflight.py, `summarise`: a scenario's checks, gathered by target. Of an entry the
-- details, the strategies and the scenarios are left out: they are for display.
use Prim.Native.String.{compare}
use Prim.Native.Nat.{Ordering}
use auto_perf.Prelude.{
  ℕ, ◌+◌, String, Bool, true, false, ◌&&◌, List, [], ◌∷◌, ◌++◌, ◌==◌, eqb, ltb, if◌then◌else◌,
}
use auto_perf.Prelude.Count.{one, all, select}
use auto_perf.Preflight.Grade.{Grade, TargetCheck, VerificationCheck, ScenarioReport, is_failed}

abbrev pub is_matched : Grade → Bool
is_matched Grade.matched = true
is_matched _ = false

abbrev pub is_unreliable : Grade → Bool
is_unreliable Grade.unreliable = true
is_unreliable _ = false

abbrev pub is_by_design : Grade → Bool
is_by_design Grade.by_design = true
is_by_design _ = false

abbrev pub is_not_applicable : Grade → Bool
is_not_applicable Grade.not_applicable = true
is_not_applicable _ = false

-- an entry of `by_target`; `statuses` is a set, which is read only for its members
pub record Entry : Type 0 where
  pub target : String
  pub checked : ℕ
  pub matched : ℕ
  pub unreliable : ℕ
  pub statuses : List Grade

abbrev pub fresh : String → Entry
fresh target = record { target = target; checked = 0; matched = 0; unreliable = 0; statuses = [] }

-- what one check does to the entry of its target
unfoldable pub count_check : TargetCheck → Entry → Entry
count_check c e =
    if is_unreliable c.status then record e { unreliable = e.unreliable + 1 } else record e {
      checked = e.checked + 1;
      matched = e.matched + one (is_matched c.status);
      statuses = e.statuses ++ c.status ∷ [];
    }

-- `by_target.setdefault(check.target, ...)`, and the update
unfoldable pub add_check : TargetCheck → List Entry → List Entry
add_check c [] = count_check c (fresh c.target) ∷ []
add_check c (e ∷ es) = if e.target == c.target then count_check c e ∷ es else e ∷ add_check c es

unfoldable pub add_checks : List TargetCheck → List Entry → List Entry
add_checks [] es = es
add_checks (c ∷ cs) es = add_checks cs (add_check c es)

unfoldable pub add_reports : List ScenarioReport → List Entry → List Entry
add_reports [] es = es
add_reports (r ∷ rs) es = add_reports rs (add_checks r.targets es)

-- `sorted(by_target.values(), key=lambda e: e["target"])`
unfoldable pub insert_entry : Entry → List Entry → List Entry
insert_entry e [] = e ∷ []
insert_entry e (f ∷ fs) =
    let later = f ∷ insert_entry e fs in
    elim (compare e.target f.target) [ Ordering.gt ↦ later | _ ↦ e ∷ (f ∷ fs) ]

unfoldable pub sort_entries : List Entry → List Entry
sort_entries [] = []
sort_entries (e ∷ es) = insert_entry e (sort_entries es)

pub record Summary : Type 0 where
  pub needs_attention : List String
  pub healthy : List String
  pub not_applicable : List String
  pub ungraded : List String
  pub by_design : List String

-- `entry["statuses"] == {grade}`
abbrev pub is_only : (Grade → Bool) → List Grade → Bool
is_only is_it [] = false
is_only is_it (g ∷ gs) = all is_it (g ∷ gs)

-- the list that an entry is put in
pub data Place : Type 0 where
  needs_attention healthy not_applicable ungraded by_design : Place

unfoldable pub place : Entry → Place
place e =
    if ltb 0 e.unreliable && eqb e.checked 0
    then ungraded
    else if is_only is_by_design e.statuses
    then by_design
    else if is_only is_not_applicable e.statuses
    then not_applicable
    else if eqb e.matched e.checked
    then healthy
    else needs_attention

abbrev pub put_in : Place → String → Summary → Summary
put_in needs_attention t s = record s { needs_attention = s.needs_attention ++ t ∷ [] }
put_in healthy t s = record s { healthy = s.healthy ++ t ∷ [] }
put_in not_applicable t s = record s { not_applicable = s.not_applicable ++ t ∷ [] }
put_in ungraded t s = record s { ungraded = s.ungraded ++ t ∷ [] }
put_in by_design t s = record s { by_design = s.by_design ++ t ∷ [] }

-- the loop over the sorted entries
unfoldable pub place_entries : List Entry → Summary → Summary
place_entries [] s = s
place_entries (e ∷ es) s = place_entries es (put_in (place e) e.target s)

abbrev pub no_targets : Summary
no_targets = record {
  needs_attention = [];
  healthy = [];
  not_applicable = [];
  ungraded = [];
  by_design = [];
}

-- `failed_verifications`, the report at a time
unfoldable pub failed_verifications : List ScenarioReport → List VerificationCheck
failed_verifications [] = []
failed_verifications (r ∷ rs) =
    select (λ v. is_failed v.result) r.verifications ++ failed_verifications rs

unfoldable pub summarise : List ScenarioReport → Summary
unfolding sort_entries insert_entry
summarise reports = place_entries (sort_entries (add_reports reports [])) no_targets

abbrev pub is_nil {ℓ} : {A : Type ℓ} → List A → Bool
is_nil [] = true
is_nil (x ∷ xs) = false

-- `"ok": not needs_attention and not failed_verifications`
unfoldable pub is_ok : List ScenarioReport → Bool
is_ok reports = is_nil (summarise reports).needs_attention && is_nil (failed_verifications reports)
