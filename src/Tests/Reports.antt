-- ===== src/Tests/Reports.antt =====
-- Summaries of a report with three targets, and the task of a preflight.
use auto_perf.Prelude.{String, List, ◌≡◌, refl, true, false, none, some, [], ◌∷◌}
use auto_perf.Prelude.Count.{one, count, all}
use auto_perf.Storage.Rows.{Storage, empty}
use auto_perf.Storage.Claims.{try_start_preflight}
use auto_perf.Preflight.Grade.{Grade, TargetCheck, ScenarioReport}
use auto_perf.Preflight.Summary.{
  Place, count_check, add_check, add_checks, add_reports, place, place_entries, summarise, is_ok,
}
use auto_perf.Preflight.Tally.{checks_of}
use auto_perf.Preflight.Placed.{is_it, list_at, belongs, summarise_exact}
use auto_perf.Tasks.Checking.{Visit, ensure_preflight, names_of, run_preflight_task}
use auto_perf.Tasks.Checked.{Checked, run_preflight_task-Checked}

abbrev check : String → Grade → TargetCheck
check target status = record {
  scenario = "demo";
  at = 0;
  target = target;
  status = status;
  strategy = none;
  selector_index = none;
}

abbrev reports : List ScenarioReport
reports =
    record {
      scenario = "demo";
      targets =
          check "like" Grade.matched
          ∷ check "search" Grade.fallback
          ∷ check "search" Grade.matched
          ∷ check "seek" Grade.unreliable
          ∷ [];
      verifications = [];
    }
    ∷ []

-- The target that fell back once needs attention, the one that was never graded is apart.
summary_runs :
    ((summarise reports).needs_attention ≡ "search" ∷ [])
    × ((summarise reports).healthy ≡ "like" ∷ [])
    × ((summarise reports).ungraded ≡ "seek" ∷ [])
    × (is_ok reports ≡ false)
unfolding summarise add_reports add_checks add_check count_check place place_entries is_ok all
summary_runs = (refl, refl, refl, refl)

summarise_exact_example :
    count (is_it "search") (list_at Place.needs_attention (summarise reports))
    ≡ one (belongs (checks_of reports) Place.needs_attention "search")
summarise_exact_example = summarise_exact reports Place.needs_attention "search"

abbrev visit : Visit
visit = record {
  claimed_at = 5;
  finished_at = 9;
  profile_raises = false;
  screen = (1080, 2340);
  introspectable = true;
  stages = λ i. record { others = λ db. db; steps = []; raises = false };
  version = some (none, none, none);
}

run_preflight_task-Checked_example :
    (there : Storage) × (ensure_preflight visit.claimed_at "p1" "phone" (some "demo") empty
      ≡ some there)
    × Checked visit
        (try_start_preflight visit.claimed_at "p1" there).1
        "p1"
        (names_of (λ name. []) (some "demo"))
        (run_preflight_task (λ s. s) (λ name. []) visit "phone" "p1" (some "demo") empty)
run_preflight_task-Checked_example =
    run_preflight_task-Checked (λ s. s) (λ name. []) visit "phone" "p1" (some "demo") empty
