-- ===== src/Storage/Baselined.antt =====
-- src/autoperf/storage.py: one baseline for each device and scenario.
use auto_perf.Prelude.{
  ℕ, String, ◌≡◌, ap, ◌∙◌, true, false, ◌&&◌, ◌⊎◌, inl, inr, Option, some, List, arith, ◌==◌,
  ==_refl, eq_iff, Bool-cases,
}
use auto_perf.Prelude.Count.{
  any, first, first-append, first-overwrite, first-update-other, first-append-other,
}
use auto_perf.Storage.Rows.{Baseline, Storage}
use auto_perf.Storage.Runs.{get_run}
use auto_perf.Storage.Baselines.{
  or_empty, scenario_of, is_baseline_of, upsert_baseline, set_baseline, get_baseline,
}

abbrev pub the_baseline : ℕ → String → String → String → Baseline
the_baseline now device_serial scenario run_id = record {
  device_serial = device_serial;
  scenario = scenario;
  run_id = run_id;
  created_at = now;
}

is_baseline_of-fields :
    (device scenario : String) (b : Baseline)
    → is_baseline_of device scenario b ≡ true
    → (b.device_serial ≡ device) × (b.scenario ≡ scenario)
is_baseline_of-fields device scenario b h = (
  (eq_iff b.device_serial device).0 (ground (arith, h)),
  (eq_iff b.scenario scenario).0 (ground (arith, h)),
)

upserted :
    (now : ℕ) (device scenario run_id : String) (bs : List Baseline)
    → first (is_baseline_of device scenario) (upsert_baseline now device scenario run_id bs)
      ≡ some (the_baseline now device scenario run_id)
unfolding upsert_baseline
upserted now device scenario run_id bs =
    let itself : (device == device && scenario == scenario) ≡ true =
      ground (arith, ==_refl device, ==_refl scenario) in
    elim (Bool-cases (any (is_baseline_of device scenario) bs)) [
      | inl there ↦ rw there (
          first-overwrite (is_baseline_of device scenario)
            (λ b. record b { run_id = run_id; created_at = now })
            (the_baseline now device scenario run_id) bs there
            (λ b h.
              let (d, s) = is_baseline_of-fields device scenario b h in
              λ i. record {
                device_serial = d i;
                scenario = s i;
                run_id = run_id;
                created_at = now;
              })
            itself)
      | inr new ↦ rw new (
          first-append (is_baseline_of device scenario) (the_baseline now device scenario run_id) bs
            new itself)
    ]

apart_from :
    (device scenario other_device other_scenario : String) (b : Baseline)
    → (device == other_device && scenario == other_scenario) ≡ false
    → is_baseline_of device scenario b ≡ true
    → is_baseline_of other_device other_scenario b ≡ false
apart_from device scenario other_device other_scenario b apart h =
    let (d, s) = is_baseline_of-fields device scenario b h in
    ap (λ x. x == other_device && b.scenario == other_scenario) d
    ∙ (ap (λ x. device == other_device && x == other_scenario) s ∙ apart)

untouched :
    (now : ℕ) (device scenario run_id other_device other_scenario : String) (bs : List Baseline)
    → (device == other_device && scenario == other_scenario) ≡ false
    → first
        (is_baseline_of other_device other_scenario)
        (upsert_baseline now device scenario run_id bs)
      ≡ first (is_baseline_of other_device other_scenario) bs
unfolding upsert_baseline
untouched now device scenario run_id other_device other_scenario bs apart =
    elim (Bool-cases (any (is_baseline_of device scenario) bs)) [
      | inl there ↦ rw there (
          first-update-other (is_baseline_of device scenario)
            (is_baseline_of other_device other_scenario)
            (λ b. record b { run_id = run_id; created_at = now }) bs
            (λ b h. apart_from device scenario other_device other_scenario b apart h)
            (λ b h. apart_from device scenario other_device other_scenario b apart h))
      | inr new ↦ rw new (
          first-append-other (is_baseline_of other_device other_scenario)
            (the_baseline now device scenario run_id) bs apart)
    ]

-- Setting a run as the baseline and reading it back: the device has that run as the baseline of the
-- run's own scenario, in place of any earlier one, and the baseline of every other device or scenario
-- is what it was.
pub set_baseline-get :
    (now : ℕ) (device run_id other_device : String) (other : Option String) (db : Storage)
    → let scenario = scenario_of (get_run db run_id) in
      let after = set_baseline now device run_id db in
      (get_baseline after device (some scenario) ≡ some (the_baseline now device scenario run_id))
      × (((device == other_device && scenario == or_empty other) ≡ true)
          ⊎ (get_baseline after other_device other ≡ get_baseline db other_device other))
unfolding set_baseline get_baseline
set_baseline-get now device run_id other_device other db = (
  upserted now device (scenario_of (get_run db run_id)) run_id db.baselines,
  elim (Bool-cases (device == other_device && scenario_of (get_run db run_id) == or_empty other)) [
    | inl same ↦ inl same
    | inr apart ↦ inr (
        untouched now device (scenario_of (get_run db run_id)) run_id other_device (or_empty other)
          db.baselines apart)
  ],
)
