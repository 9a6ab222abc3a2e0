-- ===== src/Storage/Release.antt =====
-- src/autoperf/storage.py, `_release_abandoned_runs`: which rows the release takes, and what a claim
-- and a heartbeat have to do with it.
use auto_perf.Prelude.{
  ℕ, ◌+◌, ◌≤◌, ◌<◌, String, ◌≡◌, refl, ◌⊎◌, inl, inr, true, false, Option, none, some, arith,
  if◌then◌else◌, coalesce, ==_refl,
}
use auto_perf.Prelude.Count.{first-update, count-update-one}
use auto_perf.Models.{RunStatus, is_running}
use auto_perf.Storage.Rows.{Run, Storage}
use auto_perf.Storage.Runs.{has_id, get_run, update_run, stamp}
use auto_perf.Storage.Claims.{
  run_holds, is_abandoned_run, abandoned_run, claim_run, release_run, release_abandoned,
  release_abandoned_runs, try_start_run,
}
use auto_perf.Storage.Exclusive.{IsValid, load}
use auto_perf.Storage.RunClaims.{try_start_run_exact}

pub get_run-release :
    (now : ℕ) (run_id : String) (db : Storage) {row : Run}
    → get_run db run_id ≡ some row
    → get_run (release_abandoned_runs now db) run_id
      ≡ some (if is_abandoned_run now row then release_run now row else row)
unfolding get_run release_abandoned_runs
get_run-release now run_id db found =
    first-update (has_id run_id) (is_abandoned_run now) (release_run now) (λ r. refl) db.test_runs
      found

get_run-release_abandoned :
    (now : ℕ) (run_id : String) (db : Storage)
    → get_run (release_abandoned now db) run_id ≡ get_run (release_abandoned_runs now db) run_id
unfolding get_run release_abandoned
get_run-release_abandoned now run_id db = refl

-- A row is taken by the release exactly when it says `running` and its last sign of life is more
-- than 120 seconds old: it is then interrupted and finished now, and otherwise left as it was.
pub release_exact :
    (now : ℕ) (run_id : String) (db : Storage) {row : Run} (last : ℕ)
    → get_run db run_id ≡ some row
    → row.status ≡ RunStatus.running
    → coalesce row.heartbeat_at row.started_at ≡ some last
    → ((last + abandoned_run < now)
        × (get_run (release_abandoned now db) run_id ≡ some (release_run now row)))
      ⊎ ((now ≤ last + abandoned_run) × (get_run (release_abandoned now db) run_id ≡ some row))
release_exact now run_id db {row} last found runs seen =
    rw (get_run-release_abandoned now run_id db, get_run-release now run_id db {row = row} found)
      (ground arith)

-- A claim does not stamp the heartbeat. So a run that is resumed more than 120 seconds after its
-- last heartbeat is granted its device, and the next release, at any later time, takes it away.
pub resumed_claim_is_lost :
    (now later : ℕ) (run_id : String) (db : Storage) {row : Run} (last : ℕ)
    → IsValid db
    → get_run (release_abandoned now db) run_id ≡ some row
    → row.heartbeat_at ≡ some last
    → last + abandoned_run < now
    → now ≤ later
    → (try_start_run now run_id db).1 ≡ true
    → get_run (release_abandoned later (try_start_run now run_id db).0) run_id
      ≡ some (release_run later (claim_run now row))
resumed_claim_is_lost now later run_id db {row} last v found beat old order answer =
    elim (try_start_run_exact now run_id db v found) [
      | inl (alone, yes_answer, after) ↦
          elim (release_exact later run_id (try_start_run now run_id db).0 last after refl
            (rw beat)) [ inl (_, lost) ↦ lost | inr (kept, _) ↦ absurd (omega arith) ]
      | inr (_, refused, _) ↦ cc
    ]

-- A first claim is safe: a run that has never reported keeps its device for 120 seconds.
pub first_claim_is_kept :
    (now later : ℕ) (run_id : String) (db : Storage) {row : Run}
    → IsValid db
    → get_run (release_abandoned now db) run_id ≡ some row
    → row.heartbeat_at ≡ none
    → row.started_at ≡ none
    → later ≤ now + abandoned_run
    → (try_start_run now run_id db).1 ≡ true
    → get_run (release_abandoned later (try_start_run now run_id db).0) run_id
      ≡ some (claim_run now row)
first_claim_is_kept now later run_id db {row} v found beat start soon answer =
    elim (try_start_run_exact now run_id db v found) [
      | inl (alone, yes_answer, after) ↦
          elim (release_exact later run_id (try_start_run now run_id db).0 now after refl
            (rw (beat, start))) [ inl (late, _) ↦ absurd (omega arith) | inr (_, kept) ↦ kept ]
      | inr (_, refused, _) ↦ cc
    ]

-- `update_run` looks at no earlier status. So the heartbeat of a run that has lost its device, where
-- something else holds it now, puts a second holder on that device.
pub late_heartbeat_doubles :
    (now : ℕ) (run_id : String) (checkpoint : Option String) (db : Storage) {row : Run}
    → IsValid db
    → get_run db run_id ≡ some row
    → is_running row.status ≡ false
    → load db row.device_serial ≡ 1
    → load (update_run now run_id RunStatus.running checkpoint none db) row.device_serial ≡ 2
unfolding get_run update_run
late_heartbeat_doubles now run_id checkpoint db {row} v found idle held = omega (
  arith,
  count-update-one (run_holds row.device_serial) (has_id run_id)
      (stamp now RunStatus.running checkpoint none) db.test_runs found (v.unique_runs run_id)
      (rw idle (ground (arith, ==_refl row.device_serial))) (rw ==_refl),
)
