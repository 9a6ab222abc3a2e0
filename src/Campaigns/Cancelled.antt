-- ===== src/Campaigns/Cancelled.antt =====
-- src/autoperf/campaigns.py and storage.py: what a cancelled campaign keeps, run by run.
use auto_perf.Prelude.{
  ℕ, ◌+◌, ◌≤◌, String, ◌≡◌, refl, ap, ◌∙◌, true, Option, none, some, List, [], ◌∷◌, ◌==◌,
  if◌then◌else◌,
}
use auto_perf.Prelude.Count.{count, first, select, update_where, first-update, first-passes}
use auto_perf.Models.{RunStatus}
use auto_perf.Storage.Rows.{Run, Campaign, Storage}
use auto_perf.Storage.Runs.{has_id, get_run, delete_run}
use auto_perf.Storage.Campaigns.{
  has_campaign_id, is_queued_child, is_running_child, run_ids, delete_runs, flag_running_children,
  cancel_campaign_runs, get_campaign, update_campaign, request_campaign_cancel,
}
use auto_perf.Storage.Exclusive.{IsValid}
use auto_perf.Campaigns.Cancel.{cancel_campaign}
use auto_perf.Campaigns.Deleted.{samples, get_run-delete_runs, samples-delete_runs, selected}

-- What a cancelled campaign makes of one run.
abbrev pub stopped : String → Run → Option Run
stopped campaign_id row =
    if is_queued_child campaign_id row
    then none
    else some
        (if is_running_child campaign_id row then record row { cancel_requested = true } else row)

get_run-flag :
    (campaign_id i : String) (db : Storage) {row : Run}
    → get_run db i ≡ some row
    → get_run (flag_running_children campaign_id db) i
      ≡ some
          (if is_running_child campaign_id row then record row { cancel_requested = true } else row)
unfolding get_run flag_running_children
get_run-flag campaign_id i db found =
    first-update (has_id i) (is_running_child campaign_id)
      (λ r. record r { cancel_requested = true }) (λ r. refl) db.test_runs found

runs_stopped :
    (campaign_id i : String) (db : Storage) {row : Run}
    → count (has_id i) db.test_runs ≤ 1
    → get_run db i ≡ some row
    → let after = (cancel_campaign_runs campaign_id db).0 in
      (get_run after i ≡ stopped campaign_id row)
      × (samples after i ≡ (if is_queued_child campaign_id row then 0 else samples db i))
unfolding cancel_campaign_runs
runs_stopped campaign_id i db {row} unique found =
    let queued = run_ids (select (is_queued_child campaign_id) db.test_runs) in
    let hit =
      selected i (is_queued_child campaign_id) db.test_runs {row = row} (unfold get_run in found)
        unique in
    (
      get_run-delete_runs i queued (flag_running_children campaign_id db)
          ∙ rw (hit, get_run-flag campaign_id i db {row = row} found),
      samples-delete_runs i queued (flag_running_children campaign_id db) ∙ rw hit,
    )

-- The parts of `cancel_campaign` that do not touch the runs, and those that do not touch the campaign.
module _ (now : ℕ) (campaign_id i : String) (db : Storage) where
  get_run-updated :
      get_run (update_campaign now campaign_id RunStatus.interrupted none db) i ≡ get_run db i
  unfolding get_run update_campaign
  get_run-updated = refl

  samples-updated :
      samples (update_campaign now campaign_id RunStatus.interrupted none db) i ≡ samples db i
  unfolding update_campaign
  samples-updated = refl

module _ (campaign_id i : String) (db : Storage) where
  get_run-requested : get_run (request_campaign_cancel campaign_id db) i ≡ get_run db i
  unfolding get_run request_campaign_cancel
  get_run-requested = refl

  keys_requested :
      count (has_id i) db.test_runs ≤ 1
      → count (has_id i) (request_campaign_cancel campaign_id db).test_runs ≤ 1
  unfolding request_campaign_cancel
  keys_requested h = h

  samples_requested :
      (row : Run)
      → (if is_queued_child campaign_id row
          then 0
          else samples (request_campaign_cancel campaign_id db) i)
        ≡ (if is_queued_child campaign_id row then 0 else samples db i)
  unfolding request_campaign_cancel
  samples_requested row = refl

answered :
    (campaign_id : String) (db : Storage)
    → (cancel_campaign_runs campaign_id (request_campaign_cancel campaign_id db)).1
      ≡ count (is_running_child campaign_id) db.test_runs
        + count (is_queued_child campaign_id) db.test_runs
unfolding cancel_campaign_runs request_campaign_cancel
answered campaign_id db = refl

campaigns-delete_runs :
    (is' : List String) (db : Storage) → (delete_runs is' db).campaigns ≡ db.campaigns
unfolding delete_runs delete_run
campaigns-delete_runs [] db = refl
campaigns-delete_runs (j ∷ is') db = campaigns-delete_runs is' (delete_run j db)

campaigns-cancel :
    (campaign_id : String) (db : Storage)
    → (cancel_campaign_runs campaign_id db).0.campaigns ≡ db.campaigns
unfolding cancel_campaign_runs
campaigns-cancel campaign_id db =
    campaigns-delete_runs (run_ids (select (is_queued_child campaign_id) db.test_runs))
      (flag_running_children campaign_id db)

-- The UPDATE of the campaign's own row.
first-campaign :
    (campaign_id : String) (f : Campaign → Campaign) (cs : List Campaign) {c : Campaign}
    → ((d : Campaign) → (f d).id ≡ d.id)
    → first (has_campaign_id campaign_id) cs ≡ some c
    → first (has_campaign_id campaign_id) (update_where (has_campaign_id campaign_id) f cs)
      ≡ some (f c)
first-campaign campaign_id f cs same e =
    rw
      (first-update (has_campaign_id campaign_id) (has_campaign_id campaign_id) f
        (λ d. ap (λ j. j == campaign_id) (same d)) cs e)
      (rw (first-passes (has_campaign_id campaign_id) cs e))

campaign_after :
    (now : ℕ) (campaign_id : String) (db : Storage) {c : Campaign}
    → get_campaign db campaign_id ≡ some c
    → let asked = request_campaign_cancel campaign_id db in
      let after =
        update_campaign now campaign_id RunStatus.interrupted none
          (cancel_campaign_runs campaign_id asked).0 in
      (d : Campaign) × (get_campaign after campaign_id ≡ some d)
      × (d.cancel_requested ≡ true)
      × (d.status ≡ RunStatus.interrupted)
unfolding get_campaign update_campaign request_campaign_cancel
campaign_after now campaign_id db {c} there = (
  record c {
    status = RunStatus.interrupted;
    cancel_requested = true;
    finished_at = some now;
    error = c.error;
  },
  rw (campaigns-cancel campaign_id (request_campaign_cancel campaign_id db)) (
      first-campaign campaign_id _ _ (λ d. refl)
        (first-campaign campaign_id (λ d. record d { cancel_requested = true }) db.campaigns
          (λ d. refl) there)),
  refl,
  refl,
)

-- Cancelling a campaign that is there, in a database whose run ids are keys. It answers with the number
-- of queued and running children, and of any run: a queued child is deleted with its samples, a
-- running child is flagged, and every other run, each finished one among them, is as it was, each of
-- those with all its samples. The campaign is flagged and interrupted.
pub cancel_campaign_exact :
    (now : ℕ) (campaign_id i : String) (db : Storage) {row : Run} {c : Campaign}
    → IsValid db
    → get_campaign db campaign_id ≡ some c
    → get_run db i ≡ some row
    → let (after, answer) = cancel_campaign now campaign_id db in
      (answer
        ≡ some (
            count (is_running_child campaign_id) db.test_runs
            + count (is_queued_child campaign_id) db.test_runs))
      × (get_run after i ≡ stopped campaign_id row)
      × (samples after i ≡ (if is_queued_child campaign_id row then 0 else samples db i))
      × ((d : Campaign) × (get_campaign after campaign_id ≡ some d)
          × (d.cancel_requested ≡ true)
          × (d.status ≡ RunStatus.interrupted))
unfolding cancel_campaign
cancel_campaign_exact now campaign_id i db {row} {c} v there found =
    let asked = request_campaign_cancel campaign_id db in
    let after = (cancel_campaign_runs campaign_id asked).0 in
    let (kept, data_kept) =
      runs_stopped campaign_id i asked {row = row}
        (keys_requested campaign_id i db (v.unique_runs i))
        (get_run-requested campaign_id i db ∙ found) in
    rw (there, cancel_campaign)
      (
        ap some (answered campaign_id db),
        get_run-updated now campaign_id i after ∙ kept,
        samples-updated now campaign_id i after
            ∙ (data_kept ∙ samples_requested campaign_id i db row),
        campaign_after now campaign_id db there,
      )
