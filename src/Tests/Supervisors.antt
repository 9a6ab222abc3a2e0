-- ===== src/Tests/Supervisors.antt =====
-- Two devices: one worker exits with code 1, the other falls silent.
use auto_perf.Prelude.{
  ℕ, zero, suc, String, ◌≡◌, refl, Option, none, some, List, [], ◌∷◌, ◌==◌, map, if◌then◌else◌,
}
use auto_perf.Prelude.Count.{any, first, update_where}
use auto_perf.Prelude.Int.{ℤ, pos, negsuc}
use auto_perf.Models.{RunStatus}
use auto_perf.Storage.Rows.{Run, empty}
use auto_perf.Storage.Runs.{create_run, update_run, get_run}
use auto_perf.Workers.{
  Pass, ManyRuns, finished_all, has_duplicate, open_workers, supervise, results, run_many,
  check_alive, pass, failed_midway, Watch,
}
use auto_perf.Workers.Watched.{Passed, pass_exact}

abbrev drawn : ℕ → String × ℕ
drawn zero = ("r1", 0)
drawn (suc i) = ("r2", 0)

abbrev first_exits : String → Option ℤ
first_exits id = if id == "r1" then some (pos 1) else none

abbrev codes : String → Option ℤ
codes id = if id == "r1" then some (pos 1) else some (negsuc 14)

abbrev passes : List Pass
passes =
    record {
      others = λ db. db;
      beat = some ("r2", 1);
      monotonic = 2;
      utc = 100;
      exited = first_exits;
    }
    ∷ record { others = λ db. db; beat = none; monotonic = 12; utc = 110; exited = first_exits }
    ∷ []

abbrev last_pass : Pass
last_pass = record { others = λ db. db; beat = none; monotonic = 13; utc = 111; exited = codes }

abbrev statuses : ManyRuns → List RunStatus
statuses (finished_all given db) = map (λ (r : Run). r.status) db.test_runs
statuses _ = []

both_fail :
    statuses (run_many 10 drawn passes codes ("phone" ∷ "tablet" ∷ []) empty)
    ≡ RunStatus.failed ∷ RunStatus.failed ∷ []
unfolding run_many open_workers create_run supervise pass check_alive update_run get_run
    update_where any first has_duplicate results
both_fail = refl

-- A run that was deleted leaves its worker's exit without a row.
abbrev deleting : Pass
deleting = record {
  others = λ db. empty;
  beat = none;
  monotonic = 2;
  utc = 100;
  exited = first_exits;
}

gives_up :
    run_many 10 drawn (deleting ∷ passes) codes ("phone" ∷ "tablet" ∷ []) empty ≡ failed_midway
unfolding run_many open_workers create_run supervise pass check_alive update_run get_run
    update_where any first has_duplicate results
gives_up = refl

abbrev watch : Watch
watch = record {
  alive =
      record { run_id = "r1"; serial = "phone" } ∷ record { run_id = "r2"; serial = "tablet" } ∷ [];
  last_seen = λ id. 0;
  db = empty;
}

pass_exact_example : Passed 10 last_pass watch (pass 10 last_pass watch)
pass_exact_example = pass_exact 10 last_pass watch

abbrev two_serials : List String
two_serials = "phone" ∷ "tablet" ∷ []
