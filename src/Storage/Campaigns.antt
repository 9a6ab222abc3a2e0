-- ===== src/Storage/Campaigns.antt =====
-- src/autoperf/storage.py: campaigns, and the runs that belong to them.
use mathlib.Core.List.{reverse}
use auto_perf.Prelude.{
  ℕ, ◌+◌, String, Bool, true, false, ◌&&◌, ◌||◌, Option, none, some, List, [], ◌∷◌, ◌++◌, map, ◌==◌,
  if◌then◌else◌, coalesce, is_text, take,
}
use auto_perf.Prelude.Count.{count, any, first, select, update_where, delete_where}
use auto_perf.Prelude.Int.{ℤ}
use auto_perf.Models.{RunStatus, is_pending, is_running, is_completed, is_errored, is_terminal}
use auto_perf.Storage.Rows.{Run, Campaign, Storage}
use auto_perf.Storage.Runs.{delete_run}

abbrev pub has_campaign_id : String → Campaign → Bool
has_campaign_id campaign_id c = c.id == campaign_id

-- WHERE campaign_id=?
abbrev pub is_child : String → Run → Bool
is_child campaign_id r = is_text r.campaign_id campaign_id

abbrev pub new_campaign :
    ℕ → String → String → String → ℤ → Option String → Option String → ℤ → Campaign
new_campaign now campaign_id kind serial duration scenario tier iterations = record {
  id = campaign_id;
  kind = kind;
  device_serial = serial;
  scenario = scenario;
  tier = tier;
  duration = duration;
  iterations = iterations;
  status = RunStatus.pending;
  cancel_requested = false;
  created_at = now;
  started_at = none;
  finished_at = none;
  error = none;
}

-- `create_campaign`; `none` is the IntegrityError of a primary key that is taken
unfoldable pub insert_campaign : Campaign → Storage → Option Storage
insert_campaign c db =
    if any (has_campaign_id c.id) db.campaigns
    then none
    else some (record db { campaigns = db.campaigns ++ c ∷ [] })

unfoldable pub update_campaign : ℕ → String → RunStatus → Option String → Storage → Storage
update_campaign now campaign_id status error db = record db {
  campaigns =
      update_where (has_campaign_id campaign_id)
        (λ c. record c {
          status = status;
          started_at = if is_running status then coalesce c.started_at (some now) else c.started_at;
          finished_at = if is_terminal status then some now else c.finished_at;
          error = coalesce error c.error;
        })
        db.campaigns;
}

unfoldable pub request_campaign_cancel : String → Storage → Storage
request_campaign_cancel campaign_id db = record db {
  campaigns =
      update_where (has_campaign_id campaign_id) (λ c. record c { cancel_requested = true })
        db.campaigns;
}

-- `for run_id in queued: self.delete_run(run_id)`
unfoldable pub delete_runs : List String → Storage → Storage
delete_runs [] db = db
delete_runs (run_id ∷ run_ids) db = delete_runs run_ids (delete_run run_id db)

abbrev pub run_ids : List Run → List String
run_ids = map (λ r. r.id)

abbrev pub is_queued_child : String → Run → Bool
is_queued_child campaign_id r = is_child campaign_id r && is_pending r.status

abbrev pub is_running_child : String → Run → Bool
is_running_child campaign_id r = is_child campaign_id r && is_running r.status

unfoldable pub flag_running_children : String → Storage → Storage
flag_running_children campaign_id db = record db {
  test_runs =
      update_where (is_running_child campaign_id) (λ r. record r { cancel_requested = true })
        db.test_runs;
}

-- the queued children, the flags on the running ones, and then the deletions
unfoldable pub cancel_campaign_runs : String → Storage → Storage × ℕ
unfolding flag_running_children
cancel_campaign_runs campaign_id db =
    let queued = run_ids (select (is_queued_child campaign_id) db.test_runs) in
    (
      delete_runs queued (flag_running_children campaign_id db),
      count (is_running_child campaign_id) db.test_runs
          + count (is_queued_child campaign_id) db.test_runs,
    )

unfoldable pub get_campaign : Storage → String → Option Campaign
get_campaign db campaign_id = first (has_campaign_id campaign_id) db.campaigns

unfoldable pub list_campaign_runs : Storage → String → List Run
list_campaign_runs db campaign_id = select (is_child campaign_id) db.test_runs

unfoldable pub delete_campaign : String → Storage → Storage × List String
delete_campaign campaign_id db =
    let ids = run_ids (list_campaign_runs db campaign_id) in
    let emptied = delete_runs ids db in
    (
      record emptied { campaigns = delete_where (has_campaign_id campaign_id) emptied.campaigns },
      ids,
    )

-- a row of `list_campaigns`: the campaign and the counts of the grouped join
pub record CampaignCounts : Type 0 where
  pub campaign : Campaign
  pub run_count : ℕ
  pub completed_count : ℕ
  pub failed_count : ℕ

unfoldable pub campaign_counts : Storage → Campaign → CampaignCounts
campaign_counts db c = record {
  campaign = c;
  run_count = count (is_child c.id) db.test_runs;
  completed_count = count (λ r. is_child c.id r && is_completed r.status) db.test_runs;
  failed_count = count (λ r. is_child c.id r && is_errored r.status) db.test_runs;
}

abbrev pub campaign_on : Option String → Campaign → Bool
campaign_on none c = true
campaign_on (some serial) c = serial == "" || c.device_serial == serial

unfoldable pub list_campaigns : ℕ → Option String → Storage → List CampaignCounts
unfolding campaign_counts
list_campaigns limit device_serial db =
    take limit
      (reverse (map (campaign_counts db) (select (campaign_on device_serial) db.campaigns)))
