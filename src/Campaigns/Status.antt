-- ===== src/Campaigns/Status.antt =====
-- src/autoperf/campaigns.py: a campaign's status and progress, which the detail page reads off the
-- runs and the list off counts that the database made.
use auto_perf.Prelude.{
  ℕ, ◌+◌, ◌≡◌, refl, Bool, true, false, ◌&&◌, List, [], ◌∷◌, arith, eqb, ltb, if◌then◌else◌, length,
}
use auto_perf.Prelude.Count.{count, all, select, count-select, length-select, all-count}
use auto_perf.Models.{RunStatus, is_terminal, is_completed, is_errored}
use auto_perf.Storage.Rows.{Run, Campaign, Storage}
use auto_perf.Storage.Campaigns.{is_child, list_campaign_runs, CampaignCounts, campaign_counts}

abbrev ended : Run → Bool
ended r = is_terminal r.status

abbrev is_empty : List Run → Bool
is_empty [] = true
is_empty (r ∷ rs) = false

-- `_status_from_runs`
unfoldable pub status_from_runs : List Run → RunStatus
status_from_runs [] = RunStatus.running
status_from_runs (r ∷ rs) = if all ended (r ∷ rs) then RunStatus.completed else RunStatus.running

unfoldable pub derived_status : Campaign → List Run → RunStatus
derived_status c runs =
    if c.cancel_requested
    then RunStatus.interrupted
    else if is_empty runs
    then c.status
    else if all ended runs
    then RunStatus.completed
    else RunStatus.running

-- `campaign_detail`'s finished_count
unfoldable pub finished_count : List Run → ℕ
finished_count runs = count ended runs

-- one row of `campaign_summaries`: the status that it shows, and the finished count
unfoldable pub summary_status : CampaignCounts → RunStatus
summary_status c =
    let total = c.run_count in
    if c.campaign.cancel_requested
    then RunStatus.interrupted
    else if ltb 0 total && eqb (c.completed_count + c.failed_count) total
    then RunStatus.completed
    else if ltb 0 total
    then RunStatus.running
    else c.campaign.status

unfoldable pub summary_finished : CampaignCounts → ℕ
summary_finished c = c.completed_count + c.failed_count

terminal_counts :
    (campaign_id : _) (runs : List Run)
    → count (λ r. is_child campaign_id r && is_completed r.status) runs
        + count (λ r. is_child campaign_id r && is_errored r.status) runs
      ≡ count (λ r. is_child campaign_id r && ended r) runs
unfolding count
terminal_counts campaign_id [] = refl
terminal_counts campaign_id (r ∷ rs) = ground (arith, terminal_counts campaign_id rs)

is_empty-length : (runs : List Run) → is_empty runs ≡ eqb (length runs) 0
is_empty-length [] = refl
is_empty-length (r ∷ rs) = ground arith

-- The list and the detail page agree: for every campaign of every database, the summary's status is
-- the status derived from the runs, and both count the same runs as finished.
pub summary-derived :
    (db : Storage) (c : Campaign)
    → (summary_status (campaign_counts db c) ≡ derived_status c (list_campaign_runs db c.id))
      × (summary_finished (campaign_counts db c) ≡ finished_count (list_campaign_runs db c.id))
unfolding summary_status summary_finished derived_status finished_count campaign_counts
    list_campaign_runs
summary-derived db c =
    let children = select (is_child c.id) db.test_runs in
    (
      ground (
        arith,
        terminal_counts c.id db.test_runs,
        count-select ended (is_child c.id) db.test_runs,
        length-select (is_child c.id) db.test_runs,
        is_empty-length children,
        all-count ended children,
      ),
      omega (
        arith,
        terminal_counts c.id db.test_runs,
        count-select ended (is_child c.id) db.test_runs,
      ),
    )

-- The command line and the dashboard agree: the status that the executor writes at the end of a
-- campaign that has runs and was not cancelled is the status that is derived from them.
pub status_from_runs-derived :
    (c : Campaign) (runs : List Run)
    → c.cancel_requested ≡ false
    → is_empty runs ≡ false
    → status_from_runs runs ≡ derived_status c runs
unfolding status_from_runs derived_status
status_from_runs-derived c [] h e = cc
status_from_runs-derived c (r ∷ rs) h e = rw h
