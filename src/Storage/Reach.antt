-- ===== src/Storage/Reach.antt =====
-- src/autoperf/storage.py: every sequence of transactions that the program makes on the runs and the
-- preflights, by any of its processes, and what it keeps.
use auto_perf.Prelude.{
  ℕ, ◌≤◌, String, ◌≡◌, refl, Bool, true, Option, none, some, List, arith, if◌then◌else◌, not, ◌&&◌,
}
use auto_perf.Prelude.Count.{
  first, count-delete-le, count-update-le, count-first, count-update, count-le-add,
}
use auto_perf.Prelude.Int.{ℤ}
use auto_perf.Models.{MetricSample, RunStatus, RunOrigin, is_running, is_terminal}
use auto_perf.Storage.Rows.{Run, Campaign, Baseline, Event, Storage}
use auto_perf.Storage.Runs.{
  has_id, get_run, new_run, create_run, update_run, stamp, set_run_app_version, request_cancel,
  delete_run,
}
use auto_perf.Storage.Claims.{
  run_holds, create_preflight, request_preflight_cancel, finish_preflight, claim_run_row,
  claim_preflight_row, release_abandoned_runs, release_abandoned_preflights, has_preflight_id,
}
use auto_perf.Storage.Queue.{mark_run_queued}
use auto_perf.Storage.Campaigns.{flag_running_children}
use auto_perf.Storage.Baselines.{set_baseline}
use auto_perf.Storage.Exclusive.{
  IsValid, NoMore, load, NoMore-IsValid, NoMore-update_runs, NoMore-update_preflights,
}
use auto_perf.Storage.RunClaims.{claim_run_row-IsValid}
use auto_perf.Storage.PreflightClaims.{claim_preflight_row-IsValid}
use auto_perf.Storage.Inserted.{create_run-IsValid, create_preflight-IsValid}

-- One transaction. A method that makes several (a claim after the two releases, the deletion of one
-- child after the other) is a sequence of steps, between which others may come. A heartbeat is that
-- of a run whose row still says `running`, and `settle` is the write of a final status, which is
-- every other use of `update_run`. The writes to the campaigns, the samples and the events are any.
pub data Step : Storage → Storage → Type 0 where
  create :
      (run_id serial : String) (scenario campaign : Option String) (origin : RunOrigin)
      (duration : Option ℤ) (blind : Option (List String)) {a b : Storage}
      → create_run (new_run run_id serial scenario campaign origin duration blind) a ≡ some b
      → Step a b
  heartbeat :
      (now : ℕ) (run_id : String) (checkpoint : Option String) (a : Storage) {row : Run}
      → get_run a run_id ≡ some row
      → is_running row.status ≡ true
      → Step a (update_run now run_id RunStatus.running checkpoint none a)
  settle :
      (now : ℕ) (run_id : String) (status : RunStatus) (checkpoint error : Option String)
      (a : Storage)
      → is_terminal status ≡ true
      → Step a (update_run now run_id status checkpoint error a)
  release_runs : (now : ℕ) (a : Storage) → Step a (release_abandoned_runs now a)
  release_preflights : (now : ℕ) (a : Storage) → Step a (release_abandoned_preflights now a)
  claim :
      (now : ℕ) (run_id : String) (a : Storage)
      → Step a (claim_run_row now run_id (first (has_id run_id) a.test_runs) a).0
  set_version :
      (run_id : String) (v : Option (Option String × Option String × Option ℕ)) (a : Storage)
      → Step a (set_run_app_version run_id v a)
  cancel : (run_id : String) (a : Storage) → Step a (request_cancel run_id a)
  delete : (run_id : String) (a : Storage) → Step a (delete_run run_id a)
  queue : (now : ℕ) (run_id : String) (a : Storage) → Step a (mark_run_queued now run_id a)
  flag_children : (campaign : String) (a : Storage) → Step a (flag_running_children campaign a)
  baseline :
      (now : ℕ) (serial run_id : String) (a : Storage) → Step a (set_baseline now serial run_id a)
  preflight :
      (now : ℕ) (preflight_id serial : String) (scenario : Option String) {a b : Storage}
      → create_preflight now preflight_id serial scenario a ≡ some b
      → Step a b
  claim_check :
      (now : ℕ) (preflight_id : String) (a : Storage)
      → Step a
          (claim_preflight_row now preflight_id
            (first (has_preflight_id preflight_id) a.preflight_reports)
            a).0
  cancel_preflight :
      (preflight_id : String) (a : Storage) → Step a (request_preflight_cancel preflight_id a).0
  finish :
      (now : ℕ) (preflight_id : String) (status : RunStatus) (ok : Option Bool)
      (error : Option String) (v : Option String × Option String × Option ℕ) (a : Storage)
      → is_terminal status ≡ true
      → Step a (finish_preflight now preflight_id status ok error v a)
  write_campaigns : (rows : List Campaign) (a : Storage) → Step a (record a { campaigns = rows })
  write_batch :
      (samples : List MetricSample) (events : List Event) (a : Storage)
      → Step a (record a { metric_samples = samples; test_events = events })

pub data Reach (a : Storage) : Storage → Type 0 where
  here : Reach a a
  next : {b c : Storage} → Reach a b → Step b c → Reach a c

pub NoMore-delete : (run_id : String) (db : Storage) → NoMore db (delete_run run_id db)
unfolding delete_run
NoMore-delete run_id db = record {
  runs = λ i. count-delete-le (has_id i) (has_id run_id) db.test_runs;
  preflights = λ i. omega arith;
  run_claims = λ s. count-delete-le (run_holds s) (has_id run_id) db.test_runs;
  preflight_claims = λ s. omega arith;
}

-- A heartbeat of a run that says `running` leaves its device as it was.
heartbeat-IsValid :
    (now : ℕ) (run_id : String) (checkpoint : Option String) (a : Storage) {row : Run}
    → get_run a run_id ≡ some row
    → is_running row.status ≡ true
    → IsValid a
    → IsValid (update_run now run_id RunStatus.running checkpoint none a)
unfolding update_run get_run
heartbeat-IsValid now run_id checkpoint a {row} found runs v =
    NoMore-IsValid
      (record {
        runs = λ i.
            count-update-le (has_id i) (has_id run_id) (stamp now RunStatus.running checkpoint none)
              (λ r. ground arith) a.test_runs;
        preflights = λ i. omega arith;
        run_claims = λ s. omega (
          arith,
          count-update (run_holds s) (has_id run_id) (stamp now RunStatus.running checkpoint none)
              a.test_runs,
          count-le-add
              (λ r.
                run_holds s
                  (if has_id run_id r then stamp now RunStatus.running checkpoint none r else r))
              (run_holds s) (λ r. has_id run_id r && not (is_running r.status)) (λ r. ground arith)
              a.test_runs,
          count-first (has_id run_id) (λ r. not (is_running r.status)) a.test_runs found
              (v.unique_runs run_id) (rw runs),
        );
        preflight_claims = λ s. omega arith;
      })
      v

-- A write to the other tables.
same_rows :
    {db : Storage} {campaigns : List Campaign} {baselines : List Baseline}
    {samples : List MetricSample} {events : List Event}
    → IsValid db
    → IsValid (record db {
      campaigns = campaigns;
      baselines = baselines;
      metric_samples = samples;
      test_events = events;
    })
same_rows v = record {
  unique_runs = v.unique_runs;
  unique_preflights = v.unique_preflights;
  exclusive = v.exclusive;
}

-- Each transaction keeps the keys and the exclusion.
Step-IsValid : {a b : Storage} → Step a b → IsValid a → IsValid b
unfolding update_run set_run_app_version request_cancel mark_run_queued flag_running_children
    release_abandoned_runs release_abandoned_preflights set_baseline request_preflight_cancel
    finish_preflight
Step-IsValid (create i s sc c o d bl made) v = create_run-IsValid _ made refl v
Step-IsValid (heartbeat now i ck a found runs) v = heartbeat-IsValid now i ck a found runs v
Step-IsValid (settle now i status ck e a final) v =
    NoMore-IsValid (NoMore-update_runs _ _ a (λ r. refl) (λ r s h. ground arith)) v
Step-IsValid (release_runs now a) v =
    NoMore-IsValid (NoMore-update_runs _ _ a (λ r. refl) (λ r s h. ground arith)) v
Step-IsValid (release_preflights now a) v =
    NoMore-IsValid (NoMore-update_preflights _ _ a (λ r. refl) (λ r s h. ground arith)) v
Step-IsValid (claim now i a) v = claim_run_row-IsValid now i (first (has_id i) a.test_runs) a v refl
Step-IsValid (set_version i none a) v = v
Step-IsValid (set_version i (some (p, n, c)) a) v =
    NoMore-IsValid (NoMore-update_runs _ _ a (λ r. refl) (λ r s h. omega arith)) v
Step-IsValid (cancel i a) v =
    NoMore-IsValid (NoMore-update_runs _ _ a (λ r. refl) (λ r s h. omega arith)) v
Step-IsValid (delete i a) v = NoMore-IsValid (NoMore-delete i a) v
Step-IsValid (queue now i a) v =
    NoMore-IsValid (NoMore-update_runs _ _ a (λ r. refl) (λ r s h. omega arith)) v
Step-IsValid (flag_children c a) v =
    NoMore-IsValid (NoMore-update_runs _ _ a (λ r. refl) (λ r s h. omega arith)) v
Step-IsValid (baseline now s i a) v = same_rows v
Step-IsValid (preflight now i s sc made) v = create_preflight-IsValid now i s sc made v
Step-IsValid (claim_check now i a) v =
    claim_preflight_row-IsValid now i (first (has_preflight_id i) a.preflight_reports) a v refl
Step-IsValid (cancel_preflight i a) v =
    NoMore-IsValid (NoMore-update_preflights _ _ a (λ r. refl) (λ r s h. omega arith)) v
Step-IsValid (finish now i status ok e (p, n, c) a final) v =
    NoMore-IsValid (NoMore-update_preflights _ _ a (λ r. refl) (λ r s h. ground arith)) v
Step-IsValid (write_campaigns rows a) v = same_rows v
Step-IsValid (write_batch samples events a) v = same_rows v

-- From a valid database, whatever transactions its processes make and in whatever order, with each
-- heartbeat that of a row that says `running`, at most one run or preflight holds each device.
pub Reach-exclusive :
    {a b : Storage} → IsValid a → Reach a b → (serial : String) → load b serial ≤ 1
Reach-exclusive {a} {b} v r = (reached r).exclusive
  where
    reached : {c : Storage} → Reach a c → IsValid c
    reached here = v
    reached (next r s) = Step-IsValid s (reached r)
