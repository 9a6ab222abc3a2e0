-- ===== src/Tests/Batches.antt =====
-- A writer with three items in its hands.
use auto_perf.Prelude.{ℕ, ◌≡◌, refl, false, none, some, [], ◌∷◌, arith}
use auto_perf.Prelude.Count.{any}
use auto_perf.Prelude.{is_none}
use auto_perf.Models.{Kind}
use auto_perf.Writer.{Item, BatchWriter, event, close, run_rounds}
use auto_perf.Writer.Lossless.{Drained, close_writes_all}

abbrev note : ℕ → Item
note t = event (record { run_id = "r1"; timestamp = t; kind = Kind.lifecycle })

abbrev busy : BatchWriter
busy = record {
  batch_size = 100;
  queue_size = 10_000;
  queue = some (note 2) ∷ some (note 3) ∷ [];
  pending = note 1 ∷ [];
  committed = [];
  stopping = false;
  error = false;
}

close_writes_all_example :
    ((close busy).1 ≡ none) × Drained (note 1 ∷ note 2 ∷ note 3 ∷ []) (run_rounds 3 (close busy).0)
close_writes_all_example = close_writes_all busy refl refl no_stop (omega arith)
  where
    no_stop : any is_none busy.queue ≡ false
    no_stop = unfold any in refl
