-- ===== src/Writer/Lossless.antt =====
-- src/autoperf/storage.py, BatchWriter: nothing that `put` takes is lost, doubled or reordered.
use mathlib.Core.Path.{subst}
use mathlib.Core.List.{append_assoc, append-nil}
use auto_perf.Prelude.{
  suc, ◌≤◌, ◌<◌, ◌≡◌, refl, sym, ap, ◌∙◌, ◌≢◌, ◌⊎◌, inl, inr, true, false, Option, none, some, List,
  [], ◌∷◌, ◌++◌, arith, ltb, is_none, Bool-cases, length,
}
use auto_perf.Prelude.Count.{any}
use auto_perf.Writer.{
  Item, BatchWriter, put, close, received, is_empty, must_flush, flushed, round, run_rounds,
}

-- The items in the queue, without the request to stop.
abbrev pub items : List (Option Item) → List Item
items [] = []
items (none ∷ q) = items q
items (some i ∷ q) = i ∷ items q

-- All that the writer holds or has written, oldest first.
abbrev pub held : BatchWriter → List Item
held w = w.committed ++ (w.pending ++ items w.queue)

items-append : (xs ys : List (Option Item)) → items (xs ++ ys) ≡ items xs ++ items ys
items-append [] ys = refl
items-append (none ∷ xs) ys = items-append xs ys
items-append (some i ∷ xs) ys = ap (λ l. i ∷ l) (items-append xs ys)

held-enqueue :
    (i : Item) (w : BatchWriter)
    → held (record w { queue = w.queue ++ some i ∷ [] }) ≡ held w ++ i ∷ []
held-enqueue i w = rw (items-append w.queue (some i ∷ [])) (simp append_assoc)

-- `put` takes its item, behind all that the writer holds, or it raises and changes nothing; it raises
-- exactly if the thread has failed or the queue is full.
pub put_exact :
    (i : Item) (w : BatchWriter)
    → ((w.error ≡ false)
        × (length w.queue < w.queue_size)
        × ((put i w).1 ≡ none)
        × (held (put i w).0 ≡ held w ++ i ∷ []))
      ⊎ (((w.error ≡ true) ⊎ (w.queue_size ≤ length w.queue))
          × ((put i w).1 ≢ none)
          × ((put i w).0 ≡ w))
unfolding put
put_exact i w = elim (Bool-cases w.error) [
  | inl failed ↦ rw failed (inr (inl refl, λ e. cc, refl))
  | inr working ↦ elim (Bool-cases (ltb (length w.queue) w.queue_size)) [
    | inl room ↦ rw (working, room) (inl (refl, ground arith, refl, held-enqueue i w))
    | inr full ↦ rw (working, full) (inr (inr (ground arith), λ e. cc, refl))
  ]
]

held-received :
    (q : List (Option Item)) (w : BatchWriter)
    → held (received q (record w { queue = q })) ≡ held (record w { queue = q })
held-received [] w = refl
held-received (none ∷ q) w = refl
held-received (some i ∷ q) w =
    ap (λ l. w.committed ++ l) (append_assoc w.pending (i ∷ []) (items q))

held-flushed : (w : BatchWriter) → held (flushed true w) ≡ held w
held-flushed w = append_assoc w.committed w.pending (items w.queue)

committed-received :
    (q : List (Option Item)) (w : BatchWriter) → (received q w).committed ≡ w.committed
committed-received [] w = refl
committed-received (none ∷ q) w = refl
committed-received (some i ∷ q) w = refl

-- A round of the loop in which the database takes the batch moves items towards the database, and
-- keeps them all, in their order. A round in which it does not leaves the database as it was.
pub held-round :
    (w : BatchWriter) → (held (round true w) ≡ held w) × ((round false w).committed ≡ w.committed)
unfolding round
held-round w = elim (Bool-cases (must_flush (received w.queue w))) [
  | inl f ↦
      rw f
        (held-flushed (received w.queue w) ∙ held-received w.queue w, committed-received w.queue w)
  | inr n ↦ rw n (held-received w.queue w, committed-received w.queue w)
]

-- The writer has stopped with all of `xs` in the database, and nothing left over.
abbrev pub Drained : List Item → BatchWriter → Type 0
Drained xs w = (w.committed ≡ xs) × (w.pending ≡ []) × (w.stopping ≡ true) × (w.error ≡ false)

is_empty-nil : (xs : List Item) → is_empty xs ≡ true → xs ≡ []
is_empty-nil [] h = refl
is_empty-nil (x ∷ xs) h = cc

-- A writer that neither stops nor has failed, with a queue of its own.
abbrev live : List (Option Item) → BatchWriter → BatchWriter
live q w = record w { queue = q; stopping = false; error = false }

-- The round that receives the request to stop.
last_round :
    (w : BatchWriter) → Drained (held (live (none ∷ []) w)) (round true (live (none ∷ []) w))
unfolding round
last_round w = elim (Bool-cases (is_empty w.pending)) [
  | inl e ↦
      let empty = is_empty-nil w.pending e in
      rw empty (sym (append-nil w.committed), refl, refl, refl)
  | inr n ↦ rw n (ap (λ l. w.committed ++ l) (sym (append-nil w.pending)), refl, refl, refl)
]

-- A round that receives an item leaves such a writer with the rest of the queue.
round-live :
    (i : Item) (q : List (Option Item)) (w : BatchWriter)
    → (v : BatchWriter) × (round true (live (some i ∷ q) w) ≡ live q v)
      × (held (live q v) ≡ held (live (some i ∷ q) w))
unfolding round
round-live i q w = elim (Bool-cases (must_flush next)) [
  | inl f ↦ (flushed true next, rw f, held-flushed next ∙ moved)
  | inr n ↦ (next, rw n, moved)
]
  where
    next : BatchWriter
    next = record (live q w) { pending = w.pending ++ i ∷ [] }

    moved : held next ≡ held (live (some i ∷ q) w)
    moved = ap (λ l. w.committed ++ l) (append_assoc w.pending (i ∷ []) (items q))

drain :
    (q : List (Option Item)) (w : BatchWriter)
    → any is_none q ≡ false
    → Drained
        (held (live (q ++ none ∷ []) w))
        (run_rounds (suc (length q)) (live (q ++ none ∷ []) w))
unfolding run_rounds any
drain [] w plain = last_round w
drain (none ∷ q) w plain = cc
drain (some i ∷ q) w plain =
    let (v, path, same) = round-live i (q ++ none ∷ []) w in
    subst (λ u. Drained (held (live (some i ∷ (q ++ none ∷ [])) w)) (run_rounds (suc (length q)) u))
      (sym path)
      (subst (λ xs. Drained xs (run_rounds (suc (length q)) (live (q ++ none ∷ []) v))) same
        (drain q v plain))

held-stop : (w : BatchWriter) → held (live (w.queue ++ none ∷ []) w) ≡ held w
held-stop w = rw (items-append w.queue (none ∷ [])) (rw (append-nil (items w.queue)))

-- `close` writes everything: from a writer that has neither failed nor been asked to stop, with room
-- in the queue for the request and a database that takes every batch, one round for each item and one
-- for the request end the thread with all that was put in the database, in the order of the puts.
pub close_writes_all :
    (w : BatchWriter)
    → w.error ≡ false
    → w.stopping ≡ false
    → any is_none w.queue ≡ false
    → length w.queue < w.queue_size
    → ((close w).1 ≡ none) × Drained (held w) (run_rounds (suc (length w.queue)) (close w).0)
unfolding close
close_writes_all w working going plain room =
    elim (Bool-cases (ltb (length w.queue) w.queue_size)) [
      | inl fits ↦ rw fits (
        refl,
        subst (λ v. Drained (held w) (run_rounds (suc (length w.queue)) v))
            (λ i. record w {
              queue = w.queue ++ none ∷ [];
              stopping = sym going i;
              error = sym working i;
            })
            (subst
              (λ xs. Drained xs (run_rounds (suc (length w.queue)) (live (w.queue ++ none ∷ []) w)))
              (held-stop w) (drain w.queue w plain)),
      )
      | inr full ↦ absurd (ground arith)
    ]
