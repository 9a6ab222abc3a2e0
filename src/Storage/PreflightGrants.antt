-- ===== src/Storage/PreflightGrants.antt =====
-- src/autoperf/storage.py, `try_start_preflight`: when a preflight is granted its device.
use auto_perf.Prelude.{
  ℕ, ◌+◌, String, ◌≡◌, refl, ap, ◌∙◌, inl, inr, Bool, not, ◌&&◌, some, List, [], ◌∷◌, arith, eqb,
  Bool-cases, if◌then◌else◌,
}
use auto_perf.Prelude.Count.{
  count, first, update_where, count-first, first-count, first-update, first-passes,
}
use auto_perf.Models.{is_pending}
use auto_perf.Storage.Rows.{Preflight, Storage}
use auto_perf.Storage.Claims.{
  has_preflight_id, is_waiting, claim_preflight, claim_preflight_row, preflight_is_free,
  release_abandoned, try_start_preflight,
}
use auto_perf.Storage.Exclusive.{IsValid, NoMore-IsValid, NoMore-release}

count-split :
    (q p : Preflight → Bool) (xs : List Preflight)
    → count q xs ≡ count (λ x. q x && p x) xs + count (λ x. q x && not (p x)) xs
unfolding count
count-split q p [] = refl
count-split q p (x ∷ xs) = ground (arith, count-split q p xs)

-- The number of rows that the UPDATE of a free device changes.
waiting-count :
    (preflight_id : String) (db : Storage) (row : Preflight)
    → IsValid db
    → first (has_preflight_id preflight_id) db.preflight_reports ≡ some row
    → eqb (count (is_waiting preflight_id) db.preflight_reports) 1 ≡ is_pending row.status
waiting-count preflight_id db row v found = elim (Bool-cases (is_pending row.status)) [
  | inl waits ↦
      let others =
        count-first (has_preflight_id preflight_id) (λ p. not (is_pending p.status))
          db.preflight_reports found (v.unique_preflights preflight_id) (rw waits refl) in
      ground (
        arith,
        waits,
        others,
        count-split (has_preflight_id preflight_id) (λ p. is_pending p.status) db.preflight_reports,
        first-count (has_preflight_id preflight_id) db.preflight_reports found,
        v.unique_preflights preflight_id,
      )
  | inr ended ↦
      let none_waits =
        count-first (has_preflight_id preflight_id) (λ p. is_pending p.status) db.preflight_reports
          found (v.unique_preflights preflight_id) ended in
      ground (arith, ended, none_waits)
]

-- The row is claimed with the answer true, or it is as it was with the answer false.
abbrev pub PreflightOutcome : Bool → ℕ → String → Preflight → Storage × Bool → Type 0
PreflightOutcome grants now preflight_id row (db, answer) =
    (answer ≡ grants)
    × (first (has_preflight_id preflight_id) db.preflight_reports
        ≡ some (if grants then claim_preflight now row else row))

claimed_row :
    (now : ℕ) (preflight_id : String) (row : Preflight) (db : Storage)
    → first (has_preflight_id preflight_id) db.preflight_reports ≡ some row
    → first
        (has_preflight_id preflight_id)
        (update_where (is_waiting preflight_id) (claim_preflight now) db.preflight_reports)
      ≡ some (if is_pending row.status then claim_preflight now row else row)
claimed_row now preflight_id row db found =
    first-update (has_preflight_id preflight_id) (is_waiting preflight_id) (claim_preflight now)
      (λ p. refl) db.preflight_reports found
    ∙ ap (λ b. some (if b && is_pending row.status then claim_preflight now row else row))
        (first-passes (has_preflight_id preflight_id) db.preflight_reports found)

claim_preflight_row_exact :
    (now : ℕ) (preflight_id : String) (row : Preflight) (db : Storage)
    → IsValid db
    → first (has_preflight_id preflight_id) db.preflight_reports ≡ some row
    → PreflightOutcome
        (preflight_is_free preflight_id row.device_serial db && is_pending row.status)
        now
        preflight_id
        row
        (claim_preflight_row now preflight_id (some row) db)
unfolding claim_preflight_row
claim_preflight_row_exact now preflight_id row db v found =
    elim (Bool-cases (preflight_is_free preflight_id row.device_serial db)) [
      | inl free ↦
          rw free
            (waiting-count preflight_id db row v found, claimed_row now preflight_id row db found)
      | inr taken ↦ rw taken (refl, found)
    ]

-- A preflight is granted its device exactly when it still waits and no run and no other preflight
-- holds the device once abandoned rows are released. Its row then says `running`, and in every other
-- case it stays as the release left it.
pub try_start_preflight_exact :
    (now : ℕ) (preflight_id : String) (db : Storage) {row : Preflight}
    → IsValid db
    → first (has_preflight_id preflight_id) (release_abandoned now db).preflight_reports ≡ some row
    → PreflightOutcome
        (preflight_is_free preflight_id row.device_serial (release_abandoned now db)
          && is_pending row.status)
        now
        preflight_id
        row
        (try_start_preflight now preflight_id db)
unfolding try_start_preflight
try_start_preflight_exact now preflight_id db {row} v found = rw found (
    claim_preflight_row_exact now preflight_id row (release_abandoned now db)
      (NoMore-IsValid (NoMore-release now db) v) found)
