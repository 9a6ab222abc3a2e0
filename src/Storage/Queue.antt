-- ===== src/Storage/Queue.antt =====
-- src/autoperf/storage.py: the pending runs, in row order, and what is on its way to a device.
use mathlib.Core.List.{reverse}
use auto_perf.Prelude.{
  ℕ, ◌-◌, String, Bool, true, false, not, ◌&&◌, ◌||◌, Option, none, some, List, [], ◌∷◌, ◌==◌,
  if◌then◌else◌, before, is_none, take,
}
use auto_perf.Prelude.Count.{count, any, first, select, update_where}
use auto_perf.Models.{RunOrigin, is_origin, is_pending, is_running}
use auto_perf.Storage.Rows.{Run, Storage}
use auto_perf.Storage.Runs.{has_id}

-- REDISPATCH_AFTER_SECONDS, in microseconds
abbrev pub redispatch_after : ℕ
redispatch_after = 90_000_000

-- queued_at >= ?
abbrev pub since : Option ℕ → ℕ → Bool
since none c = false
since (some t) c = not (before (some t) c)

-- status='running' OR (status='pending' AND cancel_requested=0 AND queued_at >= ?)
abbrev pub is_inflight : ℕ → String → Run → Bool
is_inflight now serial r =
    r.device_serial == serial
    && (is_running r.status
        || (is_pending r.status
            && not r.cancel_requested
            && since r.queued_at (now - redispatch_after)))

unfoldable pub device_has_inflight_run : ℕ → String → Storage → Bool
device_has_inflight_run now serial db = any (is_inflight now serial) db.test_runs

unfoldable pub mark_run_queued : ℕ → String → Storage → Storage
mark_run_queued now run_id db = record db {
  test_runs = update_where (has_id run_id) (λ r. record r { queued_at = some now }) db.test_runs;
}

-- status='pending' AND cancel_requested=0 AND (queued_at IS NULL OR queued_at < ?)
abbrev pub is_due : ℕ → Run → Bool
is_due now r =
    is_pending r.status
    && not r.cancel_requested
    && (is_none r.queued_at || before r.queued_at (now - redispatch_after))

abbrev pub is_due_on : ℕ → String → Run → Bool
is_due_on now serial r = r.device_serial == serial && is_due now r

unfoldable pub next_pending_run : ℕ → String → Storage → Option Run
next_pending_run now serial db = first (is_due_on now serial) db.test_runs

-- SELECT DISTINCT device_serial, in the order of the first rows
unfoldable pub distinct : List String → List Run → List String
distinct seen [] = []
distinct seen (r ∷ rs) =
    let old = any (λ s. s == r.device_serial) seen in
    let rest = distinct (if old then seen else r.device_serial ∷ seen) rs in
    if old then rest else r.device_serial ∷ rest

-- waiting work, and no running run on the row's device
abbrev pub is_stalled : ℕ → List Run → Run → Bool
is_stalled now all_runs r =
    is_due now r
    && not (any (λ t. t.device_serial == r.device_serial && is_running t.status) all_runs)

unfoldable pub devices_with_pending_runs : ℕ → Storage → List String
unfolding distinct
devices_with_pending_runs now db = distinct [] (select (is_stalled now db.test_runs) db.test_runs)

unfoldable pub count_queued_runs : Storage → ℕ
count_queued_runs db = count (λ r. is_pending r.status) db.test_runs

-- `if device_serial:`: a filter that is missing or empty lets every row through
abbrev pub on_device : Option String → Run → Bool
on_device none r = true
on_device (some serial) r = serial == "" || r.device_serial == serial

-- `if origin:`
abbrev pub of_origin : Option RunOrigin → Run → Bool
of_origin none r = true
of_origin (some origin) r = is_origin origin r.origin

-- a campaign's child that has not started
abbrev pub is_planned : Run → Bool
is_planned r = is_pending r.status && not (is_none r.campaign_id)

unfoldable pub list_runs : ℕ → Option String → Option RunOrigin → Bool → Storage → List Run
list_runs limit device_serial origin include_queued db = take limit (
    reverse (
      select
        (λ r.
          on_device device_serial r && of_origin origin r && (include_queued || not (is_planned r)))
        db.test_runs))
