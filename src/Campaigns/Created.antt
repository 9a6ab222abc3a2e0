-- ===== src/Campaigns/Created.antt =====
-- src/autoperf/campaigns.py, `create_campaign`: what a new campaign consists of.
use mathlib.Core.List.{append_assoc, append-nil}
use auto_perf.Prelude.{
  ℕ, suc, ◌≤◌, String, ◌≡◌, refl, sym, ap, ◌∙◌, Bool, true, false, ◌&&◌, ◌||◌, Option, some, List,
  [], ◌∷◌, ◌++◌, map, arith, ◌==◌, ==_refl, eq_iff, Bool-cases, inl, inr,
}
use auto_perf.Prelude.Count.{any, all, select}
use auto_perf.Models.{is_pending}
use auto_perf.Storage.Rows.{Run, Campaign, Storage}
use auto_perf.Storage.Runs.{has_id, create_run}
use auto_perf.Storage.Campaigns.{
  is_child, has_campaign_id, new_campaign, insert_campaign, list_campaign_runs,
}
use auto_perf.Campaigns.Plan.{CampaignSpec, valid, planned_scenarios, validated}
use auto_perf.Campaigns.Create.{Created, created, child, create_runs, create_valid, create_campaign}

-- uuid4 draws no id twice, and none that the database has.
pub record IsFresh (uuid : ℕ → String) (db : Storage) : Type 0 where
  pub distinct : (i j : ℕ) → uuid i ≡ uuid j → i ≡ j
  pub no_campaign : any (has_campaign_id (uuid 0)) db.campaigns ≡ false
  pub no_run : (i : ℕ) → any (has_id (uuid i)) db.test_runs ≡ false
  pub no_child : any (is_child (uuid 0)) db.test_runs ≡ false

module _ (uuid : ℕ → String) (campaign_id : String) (spec : CampaignSpec) where
  -- The rows that the loop makes.
  children : ℕ → List (Option String) → List Run
  children i [] = []
  children i (s ∷ ss) = child uuid i campaign_id spec s ∷ children (suc i) ss

  ids : ℕ → List (Option String) → List String
  ids i [] = []
  ids i (s ∷ ss) = uuid i ∷ ids (suc i) ss

any-append : (q : Run → Bool) (xs ys : List Run) → any q (xs ++ ys) ≡ (any q xs || any q ys)
unfolding any
any-append q [] ys = refl
any-append q (x ∷ xs) ys = ground (arith, any-append q xs ys)

any-later :
    (uuid : ℕ → String) (i j : ℕ) (r : Run)
    → ((a b : ℕ) → uuid a ≡ uuid b → a ≡ b)
    → r.id ≡ uuid i
    → suc i ≤ j
    → any (has_id (uuid j)) (r ∷ []) ≡ false
unfolding any
any-later uuid i j r distinct e h = elim (Bool-cases (r.id == uuid j)) [
  | inl same ↦
      let clash : i ≡ j = distinct i j (sym e ∙ (eq_iff r.id (uuid j)).0 same) in
      absurd (omega arith)
  | inr other ↦ rw other
]

create_run_new :
    (r : Run) (db : Storage)
    → any (has_id r.id) db.test_runs ≡ false
    → create_run r db ≡ some (record db { test_runs = db.test_runs ++ r ∷ [] })
unfolding create_run
create_run_new r db h = rw h

insert_campaign_new :
    (c : Campaign) (db : Storage)
    → any (has_campaign_id c.id) db.campaigns ≡ false
    → insert_campaign c db ≡ some (record db { campaigns = db.campaigns ++ c ∷ [] })
unfolding insert_campaign
insert_campaign_new c db h = rw h

create_runs_all :
    (uuid : ℕ → String) (i : ℕ) (campaign_id : String) (spec : CampaignSpec)
    (ss : List (Option String)) (db : Storage)
    → ((a b : ℕ) → uuid a ≡ uuid b → a ≡ b)
    → ((j : ℕ) → i ≤ j → any (has_id (uuid j)) db.test_runs ≡ false)
    → create_runs uuid i campaign_id spec ss db ≡ (
      record db { test_runs = db.test_runs ++ children uuid campaign_id spec i ss },
      some (ids uuid campaign_id spec i ss),
    )
unfolding create_runs children ids
create_runs_all uuid i campaign_id spec [] db distinct fresh = rw (append-nil db.test_runs)
create_runs_all uuid i campaign_id spec (s ∷ ss) db distinct fresh =
    let row = child uuid i campaign_id spec s in
    rw (create_run_new row db (fresh i (omega arith)), create_runs)
      (rw
        (create_runs_all uuid (suc i) campaign_id spec ss
          (record db { test_runs = db.test_runs ++ row ∷ [] }) distinct
          (λ j h.
            any-append (has_id (uuid j)) db.test_runs (row ∷ [])
            ∙ rw (fresh j (omega arith), any-later uuid i j row distinct refl h)))
        (rw (append_assoc db.test_runs (row ∷ []) (children uuid campaign_id spec (suc i) ss))))

select-append :
    (q : Run → Bool) (xs ys : List Run) → select q (xs ++ ys) ≡ select q xs ++ select q ys
unfolding select
select-append q [] ys = refl
select-append q (x ∷ xs) ys = ground (arith, select-append q xs ys)

select-none : (q : Run → Bool) (xs : List Run) → any q xs ≡ false → select q xs ≡ []
unfolding any select
select-none q [] h = refl
select-none q (x ∷ xs) h = ground (arith, select-none q xs)

select-children :
    (uuid : ℕ → String) (campaign_id : String) (spec : CampaignSpec) (i : ℕ)
    (ss : List (Option String))
    → select (is_child campaign_id) (children uuid campaign_id spec i ss)
      ≡ children uuid campaign_id spec i ss
unfolding select children
select-children uuid campaign_id spec i [] = refl
select-children uuid campaign_id spec i (s ∷ ss) = rw (==_refl campaign_id) (
    ap (λ l. child uuid i campaign_id spec s ∷ l)
      (select-children uuid campaign_id spec (suc i) ss))

scenarios-children :
    (uuid : ℕ → String) (campaign_id : String) (spec : CampaignSpec) (i : ℕ)
    (ss : List (Option String))
    → (map (λ r. r.youtube_scenario) (children uuid campaign_id spec i ss) ≡ ss)
      × (map (λ r. r.id) (children uuid campaign_id spec i ss) ≡ ids uuid campaign_id spec i ss)
      × (all
            (λ r. is_pending r.status && r.device_serial == spec.serial)
            (children uuid campaign_id spec i ss)
          ≡ true)
unfolding all children ids
scenarios-children uuid campaign_id spec i [] = (refl, refl, refl)
scenarios-children uuid campaign_id spec i (s ∷ ss) =
    let (plan, run_ids, waiting) = scenarios-children uuid campaign_id spec (suc i) ss in
    (ap (λ l. s ∷ l) plan, ap (λ l. uuid i ∷ l) run_ids, rw (==_refl spec.serial) waiting)

-- What `create_campaign` leaves: it answers with the campaign and the ids of its runs, which are those
-- of the children in the order of the plan, all of them pending on the device of the spec.
abbrev pub HasPlan : (ℕ → String) → CampaignSpec → Storage × Created → Type 0
HasPlan uuid s (after, answer) =
    let runs = list_campaign_runs after (uuid 0) in
    (answer ≡ created (uuid 0) (map (λ r. r.id) runs))
    × (map (λ r. r.youtube_scenario) runs ≡ planned_scenarios s)
    × (all (λ r. is_pending r.status && r.device_serial == s.serial) runs ≡ true)

-- A valid spec and fresh ids always make a campaign: its children are the planned runs, one for each
-- scenario in the plan's order, all pending on the device, and the answer lists their ids.
pub create_campaign_exact :
    (now : ℕ) (uuid : ℕ → String) (spec s : CampaignSpec) (db : Storage)
    → validated spec ≡ valid s
    → IsFresh uuid db
    → HasPlan uuid s (create_campaign now uuid spec db)
unfolding create_campaign list_campaign_runs
create_campaign_exact now uuid spec s db passes fresh =
    let plan = planned_scenarios s in
    let row = new_campaign now (uuid 0) s.kind s.serial s.duration s.scenario s.tier s.iterations in
    let (same_plan, same_ids, waiting) = scenarios-children uuid (uuid 0) s 1 plan in
    rw (passes) (
      rw (insert_campaign_new row db fresh.no_campaign, create_valid)
        (rw
          (create_runs_all uuid 1 (uuid 0) s plan
            (record db { campaigns = db.campaigns ++ row ∷ [] }) fresh.distinct
            (λ j h. fresh.no_run j))
          (rw
            (
              select-append (is_child (uuid 0)) db.test_runs (children uuid (uuid 0) s 1 plan),
              select-none (is_child (uuid 0)) db.test_runs fresh.no_child,
              select-children uuid (uuid 0) s 1 plan,
            )
            (rw same_ids refl, same_plan, waiting))))
