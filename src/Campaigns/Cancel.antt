-- ===== src/Campaigns/Cancel.antt =====
-- src/autoperf/campaigns.py, `cancel_campaign`.
use auto_perf.Prelude.{ℕ, String, Option, none, some}
use auto_perf.Models.{RunStatus}
use auto_perf.Storage.Rows.{Storage}
use auto_perf.Storage.Campaigns.{
  get_campaign, update_campaign, request_campaign_cancel, cancel_campaign_runs,
}

abbrev pub cancelled_runs : ℕ → String → Storage × ℕ → Storage × Option ℕ
cancelled_runs now campaign_id (db, flagged) =
    (update_campaign now campaign_id RunStatus.interrupted none db, some flagged)

-- the number of runs that were stopped, or the ValueError "campaign not found"
unfoldable pub cancel_campaign : ℕ → String → Storage → Storage × Option ℕ
cancel_campaign now campaign_id db = elim (get_campaign db campaign_id) [
  | none ↦ (db, none)
  | some c ↦
      cancelled_runs now campaign_id
        (cancel_campaign_runs campaign_id (request_campaign_cancel campaign_id db))
]
