-- ===== src/Campaigns/Swept.antt =====
-- src/autoperf/campaigns.py, `execute_campaign`: the status it writes.
use mathlib.Core.Path.{subst}
use mathlib.Core.Bool.{true≢false}
use auto_perf.Prelude.{
  ◌∙◌, sym, eq_iff, ℕ, String, ◌≡◌, refl, ◌⊎◌, inl, inr, true, false, Option, none, some, List, [],
  ◌∷◌, ◌++◌, Bool-cases, ◌==◌,
}
use auto_perf.Prelude.Count.{select, first, update_where, first-passes}
use auto_perf.Models.{RunStatus}
use auto_perf.Storage.Rows.{Run, Campaign, Storage}
use auto_perf.Storage.Campaigns.{
  get_campaign, list_campaign_runs, update_campaign, run_ids, has_campaign_id,
}
use auto_perf.Campaigns.Status.{status_from_runs}
use auto_perf.Campaigns.Execute.{
  Turn, Progress, execute_runs, Reply, reply, concluded, execute_campaign,
}
use auto_perf.Campaigns.Sweep.{
  AllEnd, is_open, IsFlagged, Sweep, ExecutedOf, execute_runs-Sweep, Sweep-executed,
}

abbrev pub HasCampaignStatus : RunStatus → Option Campaign → Type 0
HasCampaignStatus status none = Unit
HasCampaignStatus status (some c) = c.status ≡ status

opened_runs :
    (now : ℕ) (campaign_id : String) (db : Storage)
    → list_campaign_runs (update_campaign now campaign_id RunStatus.running none db) campaign_id
      ≡ list_campaign_runs db campaign_id
unfolding list_campaign_runs update_campaign
opened_runs now campaign_id db = refl

first_has_status :
    (campaign_id : String) (status : RunStatus) (f : Campaign → Campaign) (cs : List Campaign)
    → ((c : Campaign) → (f c).status ≡ status)
    → ((c : Campaign) → (f c).id ≡ c.id)
    → HasCampaignStatus status
        (first (has_campaign_id campaign_id) (update_where (has_campaign_id campaign_id) f cs))
unfolding first update_where
first_has_status campaign_id status f [] h same = tt
first_has_status campaign_id status f (c ∷ cs) h same = elim (Bool-cases (c.id == campaign_id)) [
  | inl it ↦ rw it (rw (same c) (rw it (h c)))
  | inr other ↦ rw other (rw other (first_has_status campaign_id status f cs h same))
]

update_campaign-status :
    (now : ℕ) (campaign_id : String) (status : RunStatus) (db : Storage)
    → HasCampaignStatus status
        (get_campaign (update_campaign now campaign_id status none db) campaign_id)
unfolding get_campaign update_campaign
update_campaign-status now campaign_id status db =
    first_has_status campaign_id status _ db.campaigns (λ c. refl) (λ c. refl)

first_keeps_flag :
    (campaign_id : String) (f : Campaign → Campaign) (cs : List Campaign)
    → ((c : Campaign) → (f c).id ≡ c.id)
    → ((c : Campaign) → (f c).cancel_requested ≡ c.cancel_requested)
    → IsFlagged (first (has_campaign_id campaign_id) cs)
    → IsFlagged
        (first (has_campaign_id campaign_id) (update_where (has_campaign_id campaign_id) f cs))
unfolding first update_where
first_keeps_flag campaign_id f [] same keeps flag = flag
first_keeps_flag campaign_id f (c ∷ cs) same keeps flag = elim (Bool-cases (c.id == campaign_id)) [
  | inl it ↦ rw it (rw (same c) (rw it (keeps c ∙ (rw it at flag))))
  | inr other ↦
      rw other (rw other (first_keeps_flag campaign_id f cs same keeps (rw other at flag)))
]

update_campaign-flag :
    (now : ℕ) (campaign_id : String) (status : RunStatus) (db : Storage)
    → IsFlagged (get_campaign db campaign_id)
    → IsFlagged (get_campaign (update_campaign now campaign_id status none db) campaign_id)
unfolding get_campaign update_campaign
update_campaign-flag now campaign_id status db flag =
    first_keeps_flag campaign_id _ db.campaigns (λ c. refl) (λ c. refl) flag

-- The reply of a campaign that was found, after a sweep over its runs: those that were executed, and
-- the status that it has.
abbrev pub CampaignOutcome : String → List Run → Option (Storage × Reply) → Type 0
CampaignOutcome campaign_id rows none = ⊥
CampaignOutcome campaign_id rows (some (db, Reply.not_found)) = ⊥
CampaignOutcome campaign_id rows (some (db, reply executed status)) =
    (rest : List String) × (executed ++ rest ≡ run_ids (select is_open rows))
    × (((status ≡ RunStatus.interrupted) × IsFlagged (get_campaign db campaign_id))
        ⊎ ((rest ≡ []) × (status ≡ status_from_runs (list_campaign_runs db campaign_id))))
    × HasCampaignStatus status (get_campaign db campaign_id)

concluded-outcome :
    (now : ℕ) (campaign_id : String) (rows : List Run) (p : Option Progress)
    → ExecutedOf campaign_id rows p
    → CampaignOutcome campaign_id rows (concluded now campaign_id p)
unfolding list_campaign_runs update_campaign
concluded-outcome now campaign_id rows none h = h
concluded-outcome now campaign_id rows (some (db, executed, true)) (rest, split, all_of) = (
  rest,
  split,
  inl (
    refl,
    update_campaign-flag now campaign_id RunStatus.interrupted db
        (elim all_of [ inl (on, flag) ↦ flag | inr (off, nothing) ↦ absurd (true≢false off) ]),
  ),
  update_campaign-status now campaign_id RunStatus.interrupted db,
)
concluded-outcome now campaign_id rows (some (db, executed, false)) (rest, split, all_of) = (
  rest,
  split,
  inr (
    elim all_of [ inl (on, flag) ↦ absurd (true≢false (sym on)) | inr (off, nothing) ↦ nothing ],
    refl,
  ),
  update_campaign-status now campaign_id (status_from_runs (list_campaign_runs db campaign_id)) db,
)

-- Executing a campaign that is there, in turns that come to an end. The runs are swept in order, each turn
-- from the database that the turn before left: a turn that finds the campaign cancelled ends the sweep,
-- a run that was terminal at the start is passed over, and any other is executed, and its row is terminal or
-- gone when its turn ends, whatever became of the runs before it. The reply names the runs executed: all those
-- that were open at the start, in order, and then the campaign has the status read off its runs; or
-- the first of them, and then the campaign's row is flagged as cancelled and its status is interrupted. The
-- status is in the campaign's row unless another process deleted that.
pub execute_campaign_exact :
    (str : ℕ → String) (began now : ℕ) (turns : ℕ → Turn) (campaign_id : String) (db : Storage)
    {c : Campaign}
    → get_campaign db campaign_id ≡ some c
    → AllEnd c turns 0 (list_campaign_runs db campaign_id)
    → CampaignOutcome campaign_id
        (list_campaign_runs db campaign_id)
        (execute_campaign str began now turns campaign_id db)
      × ((p : Option Progress) × Sweep str c turns 0
            (list_campaign_runs db campaign_id)
            (update_campaign began campaign_id RunStatus.running none db)
            p
          × (execute_campaign str began now turns campaign_id db ≡ concluded now campaign_id p))
unfolding execute_campaign get_campaign
execute_campaign_exact str began now turns campaign_id db {c} found ends =
    let opened = update_campaign began campaign_id RunStatus.running none db in
    let rows = list_campaign_runs db campaign_id in
    let p = execute_runs str c turns 0 rows opened in
    let swept = execute_runs-Sweep str c turns 0 rows opened ends in
    let this : c.id ≡ campaign_id =
      (eq_iff c.id campaign_id).0
        (first-passes (has_campaign_id campaign_id) db.campaigns {row = c} found) in
    let outcome = concluded-outcome now campaign_id rows p (
      subst (λ id. ExecutedOf id rows p) this (Sweep-executed str c turns 0 rows opened p swept)) in
    (
      rw found (rw (opened_runs began campaign_id db) outcome),
      (p, swept, rw found (rw (opened_runs began campaign_id db) refl)),
    )
