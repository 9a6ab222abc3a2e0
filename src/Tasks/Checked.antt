-- ===== src/Tasks/Checked.antt =====
-- webapp/dashboard/tasks.py: what run_preflight_task leaves in the preflight's row.
use mathlib.Core.Path.{subst}
use mathlib.Core.Bool.{true≢false}
use mathlib.Core.List.{append-nil}
use auto_perf.Prelude.{
  if◌then◌else◌, sym, ◌∙◌, ℕ, String, ◌≡◌, refl, ap, ◌⊎◌, inl, inr, Bool, true, false, Option, none,
  some, List, [], ◌∷◌, ◌++◌, map, ◌==◌, Bool-cases, Option-cases,
}
use auto_perf.Prelude.Count.{first, update_where, first-any}
use auto_perf.Models.{RunStatus}
use auto_perf.Storage.Rows.{Preflight, Storage}
use auto_perf.Storage.Claims.{
  has_preflight_id, new_preflight, create_preflight, try_start_preflight, finish_preflight,
}
use auto_perf.Preflight.Summary.{is_ok}
use auto_perf.Preflight.Session.{Walked, walked, broke, walk_scenarios}
use auto_perf.Tasks.Checking.{
  get_preflight, ensure_preflight, TaskEnd, integrity_error, retried, graded, raised, VersionRead,
  failed_preflight, finished, names_of, Visit, graded_all, claimed, run_preflight_task,
}
use auto_perf.Tasks.Covered.{scenario_of, IsFlagged, WalkCovers, walk_scenarios-Covers}

-- A preflight's row, unless it is gone.
abbrev pub HasVerdict : RunStatus → Option Bool → Option Preflight → Type 0
HasVerdict status ok none = Unit
HasVerdict status ok (some p) = (p.status ≡ status) × (p.summary_ok ≡ ok)

first_finished :
    (preflight_id : String) (status : RunStatus) (ok : Option Bool) (f : Preflight → Preflight)
    (ps : List Preflight)
    → ((p : Preflight) → (f p).status ≡ status)
    → ((p : Preflight) → (f p).summary_ok ≡ ok)
    → ((p : Preflight) → (f p).id ≡ p.id)
    → HasVerdict status ok
        (first (has_preflight_id preflight_id) (update_where (has_preflight_id preflight_id) f ps))
unfolding first update_where
first_finished preflight_id status ok f [] h k same = tt
first_finished preflight_id status ok f (p ∷ ps) h k same =
    elim (Bool-cases (p.id == preflight_id)) [
      | inl it ↦ rw it (rw (same p) (rw it (h p, k p)))
      | inr other ↦ rw other (rw other (first_finished preflight_id status ok f ps h k same))
    ]

finish_preflight-verdict :
    (now : ℕ) (preflight_id : String) (status : RunStatus) (ok : Option Bool)
    (error : Option String) (version : Option String × Option String × Option ℕ) (db : Storage)
    → HasVerdict status ok
        (get_preflight (finish_preflight now preflight_id status ok error version db) preflight_id)
unfolding get_preflight finish_preflight
finish_preflight-verdict now preflight_id status ok error (app, name, code) db =
    first_finished preflight_id status ok _ db.preflight_reports (λ p. refl) (λ p. refl) (λ p. refl)

first_keeps_flag :
    (preflight_id : String) (f : Preflight → Preflight) (ps : List Preflight)
    → ((p : Preflight) → (f p).id ≡ p.id)
    → ((p : Preflight) → (f p).cancel_requested ≡ p.cancel_requested)
    → IsFlagged (first (has_preflight_id preflight_id) ps)
    → IsFlagged
        (first (has_preflight_id preflight_id) (update_where (has_preflight_id preflight_id) f ps))
unfolding first update_where
first_keeps_flag preflight_id f [] same keeps flag = flag
first_keeps_flag preflight_id f (p ∷ ps) same keeps flag =
    elim (Bool-cases (p.id == preflight_id)) [
      | inl it ↦ rw it (rw (same p) (rw it (keeps p ∙ (rw it at flag))))
      | inr other ↦
          rw other (rw other (first_keeps_flag preflight_id f ps same keeps (rw other at flag)))
    ]

finish_preflight-flag :
    (now : ℕ) (preflight_id : String) (status : RunStatus) (ok : Option Bool)
    (error : Option String) (version : Option String × Option String × Option ℕ) (db : Storage)
    → IsFlagged (get_preflight db preflight_id)
    → IsFlagged
        (get_preflight (finish_preflight now preflight_id status ok error version db) preflight_id)
unfolding get_preflight finish_preflight
finish_preflight-flag now preflight_id status ok error (app, name, code) db flag =
    first_keeps_flag preflight_id _ db.preflight_reports (λ p. refl) (λ p. refl) flag

-- Something that the task calls raises: the profile, a scenario, or the reading of the app's version.
abbrev pub Raises : Visit → Type 0
Raises v = (v.profile_raises ≡ true) ⊎ ((i : ℕ) × ((v.stages i).raises ≡ true)) ⊎ (v.version ≡ none)

-- What a task's end says of the preflight's row, by whether the preflight was granted its device.
abbrev pub Checked : Visit → Bool → String → List String → Storage × TaskEnd → Type 0
Checked v granted preflight_id names (db, integrity_error) = ⊥
Checked v granted preflight_id names (db, retried) = granted ≡ false
Checked v granted preflight_id names (db, graded reports) =
    (granted ≡ true)
    × (((rest : List String) × (map scenario_of reports ++ rest ≡ names)
          × IsFlagged (get_preflight db preflight_id)
          × HasVerdict RunStatus.interrupted (some (is_ok reports)) (get_preflight db preflight_id))
        ⊎ ((map scenario_of reports ≡ names)
            × HasVerdict RunStatus.completed (some (is_ok reports))
                (get_preflight db preflight_id)))
Checked v granted preflight_id names (db, raised) =
    (granted ≡ true) × Raises v × HasVerdict RunStatus.failed none (get_preflight db preflight_id)

failed-Checked :
    (v : Visit) (preflight_id : String) (names : List String) (db : Storage)
    → Raises v
    → Checked v true preflight_id names (failed_preflight v.finished_at preflight_id db)
failed-Checked v preflight_id names db why = (
  refl,
  why,
  finish_preflight-verdict v.finished_at preflight_id RunStatus.failed none (some "error")
      (none, none, none) db,
)

finished-Checked :
    (v : Visit) (preflight_id : String) (names : List String) (version : VersionRead)
    (w : Storage × Walked)
    → v.version ≡ version
    → WalkCovers preflight_id v.stages names w
    → Checked v true preflight_id names (finished v.finished_at preflight_id version w)
finished-Checked v preflight_id names version (db, broke) e (i, raises) =
    failed-Checked v preflight_id names db (inr (inl (i, raises)))
finished-Checked v preflight_id names none (db, walked reports stopped) e h =
    failed-Checked v preflight_id names db (inr (inr e))
finished-Checked v preflight_id names (some version) (db, walked reports true) e
      (rest, split, why) =
    (
      refl,
      inl (
        rest,
        split,
        finish_preflight-flag v.finished_at preflight_id RunStatus.interrupted
            (some (is_ok reports)) none version db
            (elim why [ inl (on, flag) ↦ flag | inr (off, nothing) ↦ absurd (true≢false off) ]),
        finish_preflight-verdict v.finished_at preflight_id RunStatus.interrupted
            (some (is_ok reports)) none version db,
      ),
    )
finished-Checked v preflight_id names (some version) (db, walked reports false) e
      (rest, split, why) =
    (
      refl,
      inr (
        sym (append-nil (map scenario_of reports))
            ∙ ap (λ l. map scenario_of reports ++ l)
                (sym (elim why [
                  | inl (on, flag) ↦ absurd (true≢false (sym on))
                  | inr (off, nothing) ↦ nothing
                ]))
            ∙ split,
        finish_preflight-verdict v.finished_at preflight_id RunStatus.completed
            (some (is_ok reports)) none version db,
      ),
    )

created_there :
    (now : ℕ) (preflight_id serial : String) (scenario : Option String) (db : Storage)
    → (there : Storage) × (ensure_preflight now preflight_id serial scenario db ≡ some there)
unfolding ensure_preflight get_preflight create_preflight
created_there now preflight_id serial scenario db =
    elim (Option-cases (first (has_preflight_id preflight_id) db.preflight_reports)) [
      | inl absent ↦
          let new = first-any (has_preflight_id preflight_id) db.preflight_reports absent in
          (
            record db {
              preflight_reports =
                  db.preflight_reports ++ new_preflight now preflight_id serial scenario ∷ [];
            },
            rw (ensure_preflight, absent) (rw new refl),
          )
      | inr (p, there) ↦ (db, rw (ensure_preflight, there) refl)
    ]

module _ (lower : String → String) (targets : String → List String) where
  graded_all-Checked :
      (v : Visit) (preflight_id : String) (scenario : Option String) (db : Storage)
      → Checked v true preflight_id
          (names_of targets scenario)
          (graded_all lower targets v preflight_id scenario db)
  graded_all-Checked v preflight_id scenario db =
      let names = names_of targets scenario in
      let w = walk_scenarios lower v.screen v.introspectable preflight_id v.stages 0 names db in
      let ends : Bool → Type 0 = λ fails. Checked v true preflight_id names (
        if fails
        then failed_preflight v.finished_at preflight_id db
        else finished v.finished_at preflight_id v.version w) in
      elim (Bool-cases v.profile_raises) [
        | inl fails ↦ subst ends (sym fails) (failed-Checked v preflight_id names db (inl fails))
        | inr works ↦ subst ends (sym works) (
            finished-Checked v preflight_id names v.version w refl (
              walk_scenarios-Covers lower v.screen v.introspectable preflight_id v.stages 0 names
                db))
      ]

  claimed-Checked :
      (v : Visit) (preflight_id : String) (scenario : Option String) (t : Storage × Bool)
      → Checked v t.1 preflight_id
          (names_of targets scenario)
          (claimed lower targets v preflight_id scenario t)
  claimed-Checked v preflight_id scenario (db, false) = refl
  claimed-Checked v preflight_id scenario (db, true) = graded_all-Checked v preflight_id scenario db

-- A preflight's task is put off exactly if the claim of the device, on the database with the preflight's
-- row in it, is not granted. Otherwise it ends the preflight in one of three ways. It graded all the scenarios in
-- their order, each once, and its row says completed with the summary's verdict. It graded the first of
-- them, its row is flagged as cancelled, and says interrupted with the verdict on those. Or the profile,
-- a scenario or the reading of the app's version raised, and its row says failed. A row that
-- another process deleted has no status.
pub run_preflight_task-Checked :
    (lower : String → String) (targets : String → List String) (v : Visit)
    (serial preflight_id : String) (scenario : Option String) (db : Storage)
    → (there : Storage) × (ensure_preflight v.claimed_at preflight_id serial scenario db
        ≡ some there)
      × Checked v
          (try_start_preflight v.claimed_at preflight_id there).1
          preflight_id
          (names_of targets scenario)
          (run_preflight_task lower targets v serial preflight_id scenario db)
unfolding run_preflight_task
run_preflight_task-Checked lower targets v serial preflight_id scenario db =
    let (there, e) = created_there v.claimed_at preflight_id serial scenario db in
    (
      there,
      e,
      rw e (
          claimed-Checked lower targets v preflight_id scenario
            (try_start_preflight v.claimed_at preflight_id there)),
    )
