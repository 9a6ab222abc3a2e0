-- ===== src/Tests/Rows.antt =====
-- Databases of one phone.
use auto_perf.Prelude.{none, some, [], ◌∷◌, arith}
use auto_perf.Prelude.Count.{count}
use auto_perf.Prelude.Int.{pos}
use auto_perf.Models.{RunStatus, RunOrigin}
use auto_perf.Storage.Rows.{Run, Campaign, Storage, empty}
use auto_perf.Storage.Runs.{new_run}
use auto_perf.Storage.Campaigns.{new_campaign}
use auto_perf.Storage.Exclusive.{IsValid}

-- A run that waits.
abbrev pub waiting : Run
waiting =
    new_run "r1" "phone" (some "cold_start") (some "c1") RunOrigin.campaign (some (pos 60)) none

-- A run that was interrupted, with its last heartbeat at 1 s.
abbrev pub interrupted_run : Run
interrupted_run = record waiting {
  status = RunStatus.interrupted;
  started_at = some 0;
  heartbeat_at = some 1_000_000;
}

-- A run that has reported at 1 s and runs.
abbrev pub running_run : Run
running_run = record interrupted_run { status = RunStatus.running }

abbrev pub with_run : Run → Storage
with_run r = record empty { test_runs = r ∷ [] }

abbrev pub sweep : Campaign
sweep = new_campaign 0 "c1" "repeat" "phone" (pos 60) (some "cold_start") none (pos 3)

abbrev pub with_campaign : Run → Storage
with_campaign r = record (with_run r) { campaigns = sweep ∷ [] }

pub with_run-IsValid : (r : Run) → IsValid (with_run r)
unfolding count
with_run-IsValid r = record {
  unique_runs = λ i. ground arith;
  unique_preflights = λ i. omega arith;
  exclusive = λ s. ground arith;
}

pub with_campaign-IsValid : (r : Run) → IsValid (with_campaign r)
with_campaign-IsValid r =
    let v = with_run-IsValid r in
    record {
      unique_runs = v.unique_runs;
      unique_preflights = v.unique_preflights;
      exclusive = v.exclusive;
    }

pub empty-IsValid : IsValid empty
unfolding count
empty-IsValid = record {
  unique_runs = λ i. omega arith;
  unique_preflights = λ i. omega arith;
  exclusive = λ s. omega arith;
}

-- A run of another scenario that is a baseline already.
abbrev pub with_baseline : Storage
with_baseline = record (with_run waiting) {
  baselines =
      record {
        device_serial = "phone";
        scenario = "shorts_browsing";
        run_id = "r0";
        created_at = 1;
      }
      ∷ [];
}
