-- ===== src/Campaigns/Create.antt =====
-- src/autoperf/campaigns.py, `create_campaign`: the campaign's row, and a row for each planned run.
use auto_perf.Prelude.{ℕ, suc, String, Option, none, some, List, [], ◌∷◌}
use auto_perf.Models.{RunOrigin}
use auto_perf.Storage.Rows.{Run, Storage}
use auto_perf.Storage.Runs.{new_run, create_run}
use auto_perf.Storage.Campaigns.{new_campaign, insert_campaign}
use auto_perf.Campaigns.Plan.{
  CampaignSpec, SpecError, Validated, valid, invalid, planned_scenarios, validated,
}

-- the answer, or what is raised; a row that was written before an IntegrityError stays
pub data Created : Type 0 where
  created : String → List String → Created
  rejected : SpecError → Created
  integrity_error : Created

-- the child's row: it carries its own duration
abbrev pub child : (ℕ → String) → ℕ → String → CampaignSpec → Option String → Run
child uuid i campaign_id spec scenario =
    new_run (uuid i) spec.serial scenario (some campaign_id) RunOrigin.campaign (some spec.duration)
      none

abbrev prepend : String → Storage × Option (List String) → Storage × Option (List String)
prepend run_id (db, none) = (db, none)
prepend run_id (db, some run_ids) = (db, some (run_id ∷ run_ids))

-- the loop over the plan; `uuid i` is the i-th id that uuid4 draws
unfoldable pub create_runs :
    (ℕ → String)
    → ℕ
    → String
    → CampaignSpec
    → List (Option String)
    → Storage
    → Storage × Option (List String)
create_runs uuid i campaign_id spec [] db = (db, some [])
create_runs uuid i campaign_id spec (scenario ∷ rest) db =
    elim (create_run (child uuid i campaign_id spec scenario) db) [
      | none ↦ (db, none)
      | some made ↦ prepend (uuid i) (create_runs uuid (suc i) campaign_id spec rest made)
    ]

abbrev reply : String → Storage × Option (List String) → Storage × Created
reply campaign_id (db, none) = (db, integrity_error)
reply campaign_id (db, some run_ids) = (db, created campaign_id run_ids)

abbrev pub create_valid : ℕ → (ℕ → String) → Validated → Storage → Storage × Created
create_valid now uuid (invalid e) db = (db, rejected e)
create_valid now uuid (valid spec) db =
    elim (insert_campaign
      (new_campaign now (uuid 0) spec.kind spec.serial spec.duration spec.scenario spec.tier
        spec.iterations)
      db) [
        | none ↦ (db, integrity_error)
        | some made ↦
            reply (uuid 0) (create_runs uuid 1 (uuid 0) spec (planned_scenarios spec) made)
      ]

unfoldable pub create_campaign : ℕ → (ℕ → String) → CampaignSpec → Storage → Storage × Created
create_campaign now uuid spec db = create_valid now uuid (validated spec) db
