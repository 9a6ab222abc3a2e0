-- ===== src/Tests/Claims.antt =====
-- Claims, releases and heartbeats at concrete times.
use mathlib.Core.Path.{subst}
use auto_perf.Prelude.{
  ◌≤◌, ◌≡◌, refl, inl, inr, true, none, some, [], ◌∷◌, arith, eq_iff, ◌==◌, Bool-cases,
}
use auto_perf.Prelude.Count.{count, any, first, update_where}
use auto_perf.Prelude.Int.{pos}
use auto_perf.Models.{RunStatus, RunOrigin}
use auto_perf.Storage.Rows.{Storage, empty}
use auto_perf.Storage.Runs.{has_id, create_run, update_run, get_run}
use auto_perf.Storage.Claims.{
  release_abandoned_runs, release_abandoned_preflights, claim_run_row, run_is_free,
  release_abandoned, release_run, claim_run, try_start_run,
}
use auto_perf.Storage.Exclusive.{IsValid, load}
use auto_perf.Storage.Claims.{has_preflight_id, new_preflight, preflight_is_free}
use auto_perf.Storage.RunClaims.{ClaimOutcome, try_start_run_exact}
use auto_perf.Storage.Release.{resumed_claim_is_lost, late_heartbeat_doubles}
use auto_perf.Storage.Reach.{
  here, next, create, release_runs, release_preflights, claim, Reach-exclusive,
}
use auto_perf.Tests.Rows.{
  waiting, interrupted_run, running_run, with_run, with_run-IsValid, empty-IsValid,
}

one_run : create_run waiting empty ≡ some (with_run waiting)
unfolding create_run any
one_run = refl

-- The run after both releases, which is then claimed.
abbrev released_run : Storage
released_run = release_abandoned_preflights 5 (release_abandoned_runs 5 (with_run waiting))

Reach-exclusive_example :
    load (claim_run_row 5 "r1" (first (has_id "r1") released_run.test_runs) released_run).0 "phone"
    ≤ 1
Reach-exclusive_example =
    Reach-exclusive empty-IsValid
      (next
        (next
          (next
            (next here (
              create "r1" "phone" (some "cold_start") (some "c1") RunOrigin.campaign (some (pos 60))
                none one_run))
            (release_runs 5 (with_run waiting)))
          (release_preflights 5 (release_abandoned_runs 5 (with_run waiting))))
        (claim 5 "r1" released_run))
      "phone"

released_waiting : get_run (release_abandoned 5 (with_run waiting)) "r1" ≡ some waiting
unfolding get_run release_abandoned first update_where
released_waiting = refl

try_start_run_exact_example :
    ClaimOutcome 5 "r1" waiting
      (release_abandoned 5 (with_run waiting))
      (try_start_run 5 "r1" (with_run waiting))
try_start_run_exact_example =
    try_start_run_exact 5 "r1" (with_run waiting) (with_run-IsValid waiting) released_waiting

found_running : get_run (with_run running_run) "r1" ≡ some running_run
unfolding get_run first
found_running = refl

-- At 200 s a run that last reported at 1 s is taken.
resumed_found :
    get_run (release_abandoned 200_000_000 (with_run interrupted_run)) "r1" ≡ some interrupted_run
unfolding get_run release_abandoned first update_where
resumed_found = refl

resumed_claimed : (try_start_run 200_000_000 "r1" (with_run interrupted_run)).1 ≡ true
unfolding try_start_run claim_run_row release_abandoned run_is_free first update_where any count
resumed_claimed = refl

-- A run that is resumed at 200 s is interrupted by a release in the same instant.
resumed_claim_is_lost_example :
    get_run
      (release_abandoned 200_000_000 (try_start_run 200_000_000 "r1" (with_run interrupted_run)).0)
      "r1"
    ≡ some (release_run 200_000_000 (claim_run 200_000_000 interrupted_run))
resumed_claim_is_lost_example =
    resumed_claim_is_lost 200_000_000 200_000_000 "r1" (with_run interrupted_run) 1_000_000
      (with_run-IsValid interrupted_run) resumed_found refl (omega arith) (omega arith)
      resumed_claimed

waiting_claimed : (try_start_run 5 "r1" (with_run waiting)).1 ≡ true
unfolding try_start_run claim_run_row release_abandoned run_is_free first update_where any count
waiting_claimed = refl

-- The run lost its device at 200 s, and another one holds it.
abbrev taken_over : Storage
taken_over = record empty { test_runs = interrupted_run ∷ record running_run { id = "r2" } ∷ [] }

taken_over-IsValid : IsValid taken_over
unfolding count
taken_over-IsValid = record {
  unique_runs = λ i. elim (Bool-cases ("r1" == i)) [
    | inl same ↦
        subst (λ j. count (has_id j) taken_over.test_runs ≤ 1) ((eq_iff "r1" i).0 same)
          (omega arith)
    | inr other ↦ ground arith
  ];
  unique_preflights = λ i. omega arith;
  exclusive = λ s. ground arith;
}

found_lost : get_run taken_over "r1" ≡ some interrupted_run
unfolding get_run first
found_lost = refl

one_holder : load taken_over "phone" ≡ 1
unfolding count
one_holder = refl

late_heartbeat_doubles_example :
    load (update_run 300_000_000 "r1" RunStatus.running none none taken_over) "phone" ≡ 2
late_heartbeat_doubles_example =
    late_heartbeat_doubles 300_000_000 "r1" none taken_over taken_over-IsValid found_lost refl
      one_holder

-- A preflight of an idle phone.
abbrev checking : Storage
checking = record empty { preflight_reports = new_preflight 1 "p1" "phone" none ∷ [] }

checking-IsValid : IsValid checking
unfolding count
checking-IsValid = record {
  unique_runs = λ i. omega arith;
  unique_preflights = λ i. ground arith;
  exclusive = λ s. ground arith;
}

released_checking :
    first (has_preflight_id "p1") (release_abandoned 5 checking).preflight_reports
    ≡ some (new_preflight 1 "p1" "phone" none)
unfolding release_abandoned first update_where
released_checking = refl

free_checking : preflight_is_free "p1" "phone" (release_abandoned 5 checking) ≡ true
unfolding release_abandoned preflight_is_free any update_where
free_checking = refl
