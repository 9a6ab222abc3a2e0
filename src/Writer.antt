-- ===== src/Writer.antt =====
-- src/autoperf/storage.py: BatchWriter, a bounded queue between the runner and the writer's thread.
pub mod Lossless
pub mod Bounds
use auto_perf.Prelude.{
  ℕ, zero, suc, String, Bool, true, false, not, ◌&&◌, ◌||◌, Option, none, some, List, [], ◌∷◌, ◌++◌,
  ltb, leb, if◌then◌else◌, length,
}
use auto_perf.Models.{MetricSample}
use auto_perf.Storage.Rows.{Event}

pub data Item : Type 0 where
  sample : MetricSample → Item
  event : Event → Item

-- `None` in the queue asks the thread to stop. `committed` are the rows in the database.
pub record BatchWriter : Type 0 where
  pub batch_size : ℕ
  pub queue_size : ℕ
  pub queue : List (Option Item)
  pub pending : List Item
  pub committed : List Item
  pub stopping : Bool
  pub error : Bool

-- what `put` and `close` raise
pub data Raised : Type 0 where
  writer_failed queue_full : Raised

-- `queue.put(item, timeout)`: the queue has room when the wait ends, or it is full
abbrev pub enqueue : Option Item → BatchWriter → BatchWriter × Option Raised
enqueue item w =
    if ltb (length w.queue) w.queue_size
    then (record w { queue = w.queue ++ item ∷ [] }, none)
    else (w, some queue_full)

unfoldable pub put : Item → BatchWriter → BatchWriter × Option Raised
put item w = if w.error then (w, some writer_failed) else enqueue (some item) w

-- `close` up to the join; the error is looked at after the thread has ended
unfoldable pub close : BatchWriter → BatchWriter × Option Raised
close w = enqueue none w

-- `self._queue.get(timeout)`: the head of the queue, or a timeout where it stays empty
abbrev pub received : List (Option Item) → BatchWriter → BatchWriter
received [] w = w
received (none ∷ rest) w = record w { queue = rest; stopping = true }
received (some item ∷ rest) w = record w { queue = rest; pending = w.pending ++ item ∷ [] }

abbrev pub is_empty {ℓ} : {A : Type ℓ} → List A → Bool
is_empty [] = true
is_empty (x ∷ xs) = false

-- `pending and (stopping or len(pending) >= batch_size or queue.empty())`
abbrev pub must_flush : BatchWriter → Bool
must_flush w =
    not (is_empty w.pending)
    && (w.stopping || leb w.batch_size (length w.pending) || is_empty w.queue)

-- the INSERTs and the commit; an exception rolls the batch back and ends the thread
abbrev pub flushed : Bool → BatchWriter → BatchWriter
flushed true w = record w { committed = w.committed ++ w.pending; pending = [] }
flushed false w = record w { error = true }

-- one round of the loop of `_run`; `succeeds` is whether the database takes the batch
unfoldable pub round : Bool → BatchWriter → BatchWriter
round succeeds w =
    let next = received w.queue w in if must_flush next then flushed succeeds next else next

-- the loop's condition, and the thread's end by an exception
abbrev pub is_running : BatchWriter → Bool
is_running w = not w.stopping && not w.error

-- the loop of `_run` on fuel, with a database that takes every batch
unfoldable pub run_rounds : ℕ → BatchWriter → BatchWriter
run_rounds zero w = w
run_rounds (suc n) w = elim (is_running w) [ true ↦ run_rounds n (round true w) | false ↦ w ]

unfoldable pub new : ℕ → ℕ → BatchWriter
new batch_size queue_size = record {
  batch_size = batch_size;
  queue_size = queue_size;
  queue = [];
  pending = [];
  committed = [];
  stopping = false;
  error = false;
}
