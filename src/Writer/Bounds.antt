-- ===== src/Writer/Bounds.antt =====
-- src/autoperf/storage.py, BatchWriter: the queue and the batch stay within their sizes.
use auto_perf.Prelude.{
  ℕ, ◌≤◌, ◌<◌, ◌≡◌, Bool, true, false, not, ◌&&◌, ◌||◌, Option, none, some, List, [], ◌∷◌, arith,
  leb, if◌then◌else◌, Bool-cases, inl, inr, length, length-append,
}
use auto_perf.Writer.{Item, BatchWriter, put, received, is_empty, must_flush, flushed, round}

-- The queue keeps its bound, and a batch is written before it passes its size.
pub record IsBounded (w : BatchWriter) : Type 0 where
  pub batch_positive : 0 < w.batch_size
  pub queue_within : length w.queue ≤ w.queue_size
  pub pending_within : length w.pending < w.batch_size

put-IsBounded : (i : Item) (w : BatchWriter) → IsBounded w → IsBounded (put i w).0
unfolding put
put-IsBounded i w v = ground (arith, length-append w.queue (some i ∷ []))

-- What a round has received, before it decides to write.
record IsFilled (w : BatchWriter) : Type 0 where
  batch_positive : 0 < w.batch_size
  queue_within : length w.queue ≤ w.queue_size
  pending_within : length w.pending ≤ w.batch_size

received-IsFilled :
    (q : List (Option Item)) (w : BatchWriter)
    → IsBounded w
    → length q ≤ w.queue_size
    → IsFilled (received q w)
received-IsFilled [] w v h = ground arith
received-IsFilled (none ∷ q) w v h = ground arith
received-IsFilled (some i ∷ q) w v h = ground (arith, length-append w.pending (i ∷ []))

room_left :
    (p : List Item) (stop idle : Bool) (b : ℕ)
    → 0 < b
    → (not (is_empty p) && (stop || leb b (length p) || idle)) ≡ false
    → length p < b
room_left [] stop idle b h k = h
room_left (i ∷ p) stop idle b h k = ground arith

flush-IsBounded :
    (w : BatchWriter) → IsFilled w → IsBounded (if must_flush w then flushed true w else w)
flush-IsBounded w v = elim (Bool-cases (must_flush w)) [
  | inl f ↦ rw f (ground arith)
  | inr n ↦ rw n (record {
    batch_positive = v.batch_positive;
    queue_within = v.queue_within;
    pending_within =
        room_left w.pending w.stopping (is_empty w.queue) w.batch_size v.batch_positive n;
  })
]

-- A put, whatever it answers, and a round in which the database takes the batch keep the queue within
-- its size and the batch below the batch size.
pub writer-IsBounded :
    (i : Item) (w : BatchWriter) → IsBounded w → IsBounded (put i w).0 × IsBounded (round true w)
unfolding round
writer-IsBounded i w v = (
  put-IsBounded i w v,
  flush-IsBounded (received w.queue w) (received-IsFilled w.queue w v v.queue_within),
)
