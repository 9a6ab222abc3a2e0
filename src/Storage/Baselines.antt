-- ===== src/Storage/Baselines.antt =====
-- src/autoperf/storage.py: baselines, one for each device and scenario, and a run's quality.
use auto_perf.Prelude.{
  ℕ, String, Bool, true, false, ◌&&◌, Option, none, some, List, [], ◌∷◌, ◌++◌, ◌==◌, eqb,
  if◌then◌else◌,
}
use auto_perf.Prelude.Count.{count, any, first, update_where}
use auto_perf.Models.{Kind}
use auto_perf.Storage.Rows.{Run, Baseline, Storage}
use auto_perf.Storage.Runs.{get_run}

-- `scenario or ""`
abbrev pub or_empty : Option String → String
or_empty none = ""
or_empty (some s) = s

-- `(run["youtube_scenario"] if run else None) or ""`
abbrev pub scenario_of : Option Run → String
scenario_of none = ""
scenario_of (some r) = or_empty r.youtube_scenario

-- WHERE device_serial=? AND scenario=?
abbrev pub is_baseline_of : String → String → Baseline → Bool
is_baseline_of device_serial scenario b = b.device_serial == device_serial && b.scenario == scenario

unfoldable pub upsert_baseline : ℕ → String → String → String → List Baseline → List Baseline
upsert_baseline now device_serial scenario run_id baselines =
    if any (is_baseline_of device_serial scenario) baselines
    then update_where (is_baseline_of device_serial scenario)
        (λ b. record b { run_id = run_id; created_at = now }) baselines
    else baselines ++ new ∷ []
  where
    new : Baseline
    new = record {
      device_serial = device_serial;
      scenario = scenario;
      run_id = run_id;
      created_at = now;
    }

unfoldable pub set_baseline : ℕ → String → String → Storage → Storage
unfolding upsert_baseline
set_baseline now device_serial run_id db = record db {
  baselines =
      upsert_baseline now device_serial (scenario_of (get_run db run_id)) run_id db.baselines;
}

unfoldable pub get_baseline : Storage → String → Option String → Option Baseline
get_baseline db device_serial scenario =
    first (is_baseline_of device_serial (or_empty scenario)) db.baselines

-- kind=?
abbrev pub is_kind : Kind → Kind → Bool
is_kind Kind.lifecycle Kind.lifecycle = true
is_kind Kind.app_version_unavailable Kind.app_version_unavailable = true
is_kind Kind.collector_error Kind.collector_error = true
is_kind Kind.collector_timeout Kind.collector_timeout = true
is_kind Kind.adapter_action Kind.adapter_action = true
is_kind Kind.adapter_error Kind.adapter_error = true
is_kind Kind.adapter_timeout Kind.adapter_timeout = true
is_kind Kind.verification_failed Kind.verification_failed = true
is_kind Kind.selector_fallback Kind.selector_fallback = true
is_kind Kind.selector_stale Kind.selector_stale = true
is_kind Kind.ui_introspection Kind.ui_introspection = true
is_kind _ _ = false

unfoldable pub count_run_events : Storage → String → Kind → ℕ
count_run_events db run_id kind =
    count (λ e. e.run_id == run_id && is_kind kind e.kind) db.test_events

pub record Quality : Type 0 where
  pub verification_failures : ℕ
  pub selector_fallbacks : ℕ
  pub stale_selectors : ℕ
  pub ui_introspections : ℕ
  pub verified : Bool

unfoldable pub run_quality : Storage → String → Quality
run_quality db run_id =
    let failures = count_run_events db run_id Kind.verification_failed in
    let stale = count_run_events db run_id Kind.selector_stale in
    record {
      verification_failures = failures;
      selector_fallbacks = count_run_events db run_id Kind.selector_fallback;
      stale_selectors = stale;
      ui_introspections = count_run_events db run_id Kind.ui_introspection;
      verified = eqb failures 0 && eqb stale 0;
    }
