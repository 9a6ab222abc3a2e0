-- ===== src/Storage/Judged.antt =====
-- src/autoperf/storage.py: the verdict on many runs is the verdict on each.
use auto_perf.Prelude.{
  ℕ, String, ◌≡◌, refl, sym, ap, ◌∙◌, Bool, true, false, not, ◌&&◌, ◌||◌, inl, inr, some, List, [],
  ◌∷◌, arith, ◌==◌, ltb, eqb, if◌then◌else◌, Bool-cases, eq_iff,
}
use mathlib.Core.Bool.{true≢false}
use auto_perf.Prelude.Count.{any, count, select, count-select, count-congr, any-positive}
use auto_perf.Models.{Kind}
use auto_perf.Storage.Rows.{Event, Storage}
use auto_perf.Storage.Baselines.{Quality, is_kind, count_run_events, run_quality}
use auto_perf.Storage.Qualities.{
  GroupKey, is_key, same_key, is_field, is_asked, keys, clean, set_field, set_in, Verdicts,
  put_counts, initial, run_quality_many,
}

is_kind-same : (a b : Kind) → is_kind a b ≡ true → a ≡ b
is_kind-same Kind.lifecycle Kind.lifecycle h = refl
is_kind-same Kind.app_version_unavailable Kind.app_version_unavailable h = refl
is_kind-same Kind.collector_error Kind.collector_error h = refl
is_kind-same Kind.collector_timeout Kind.collector_timeout h = refl
is_kind-same Kind.adapter_action Kind.adapter_action h = refl
is_kind-same Kind.adapter_error Kind.adapter_error h = refl
is_kind-same Kind.adapter_timeout Kind.adapter_timeout h = refl
is_kind-same Kind.verification_failed Kind.verification_failed h = refl
is_kind-same Kind.selector_fallback Kind.selector_fallback h = refl
is_kind-same Kind.selector_stale Kind.selector_stale h = refl
is_kind-same Kind.ui_introspection Kind.ui_introspection h = refl
is_kind-same _ _ h = absurd (true≢false (sym h))

-- `verified` after a failure of a kind is counted, where that kind may have been counted before.
flag_before :
    (failed counted others : Bool)
    → (if failed then false else (not (counted && failed) && others)) ≡ (not failed && others)
flag_before failed counted others = ground arith

flag_behind :
    (failed counted others : Bool)
    → (if failed then false else (others && not (counted && failed))) ≡ (others && not failed)
flag_behind failed counted others = ground arith

module _ (events : List Event) (id : String) where
  abbrev groups_by : Kind → List GroupKey → Bool
  groups_by kind groups = any (same_key (id, kind)) groups

  abbrev number : Kind → ℕ
  number kind = count (is_key (id, kind)) events

  abbrev field_of : Kind → List GroupKey → ℕ
  field_of kind groups = if groups_by kind groups then number kind else 0

  abbrev fails_by : Kind → List GroupKey → Bool
  fails_by kind groups = groups_by kind groups && ltb 0 (number kind)

  -- The verdict after some groups.
  abbrev tally : List GroupKey → Quality
  tally groups = record {
    verification_failures = field_of Kind.verification_failed groups;
    selector_fallbacks = field_of Kind.selector_fallback groups;
    stale_selectors = field_of Kind.selector_stale groups;
    ui_introspections = field_of Kind.ui_introspection groups;
    verified =
        not (fails_by Kind.verification_failed groups) && not (fails_by Kind.selector_stale groups);
  }

  set_field-tally :
      (run_id : String) (kind : Kind) (groups : List GroupKey)
      → (run_id == id) ≡ true
      → set_field kind (number kind) (tally groups) ≡ tally ((run_id, kind) ∷ groups)
  unfolding any
  set_field-tally run_id Kind.verification_failed groups hit = rw hit (
      ap
        (λ b.
          record (set_field Kind.verification_failed (number Kind.verification_failed)
            (tally groups)) { verified = b })
        (flag_before (ltb 0 (number Kind.verification_failed))
          (groups_by Kind.verification_failed groups) (not (fails_by Kind.selector_stale groups))))
  set_field-tally run_id Kind.selector_stale groups hit = rw hit (
      ap
        (λ b. record (set_field Kind.selector_stale (number Kind.selector_stale) (tally groups)) {
          verified = b;
        })
        (flag_behind (ltb 0 (number Kind.selector_stale)) (groups_by Kind.selector_stale groups)
          (not (fails_by Kind.verification_failed groups))))
  set_field-tally run_id _ groups hit = rw hit refl

  put_counts-tally :
      (groups : List GroupKey) (verdict : Verdicts)
      → verdict id ≡ some clean
      → put_counts events groups verdict id ≡ some (tally groups)
  unfolding put_counts any
  put_counts-tally [] verdict start = start
  put_counts-tally ((run_id, kind) ∷ groups) verdict start = elim (Bool-cases (run_id == id)) [
    | inr apart ↦ rw (put_counts, apart) (put_counts-tally groups verdict start)
    | inl hit ↦
        let same_number : count (is_key (run_id, kind)) events ≡ number kind =
          ap (λ (s : String). count (is_key (s, kind)) events) ((eq_iff run_id id).0 hit) in
        let before = put_counts events groups verdict id in
        ap (λ b. if b then set_in kind (count (is_key (run_id, kind)) events) before else before)
          hit
        ∙ ap (λ n. set_in kind n before) same_number
        ∙ ap (set_in kind (number kind)) (put_counts-tally groups verdict start)
        ∙ ap some (set_field-tally run_id kind groups hit)
  ]

one_key :
    (id : String) (kind : Kind) (e : Event)
    → is_key (id, kind) e ≡ true
    → (e.run_id ≡ id) × (kind ≡ e.kind)
one_key id kind e hit =
    let parts : ((e.run_id == id) ≡ true) × (is_kind kind e.kind ≡ true) =
      (ground (arith, hit), ground (arith, hit)) in
    ((eq_iff e.run_id id).0 parts.0, is_kind-same kind e.kind parts.1)

-- The groups are those of the events.
has-keys :
    (id : String) (kind : Kind) (es : List Event)
    → any (same_key (id, kind)) (keys es) ≡ any (is_key (id, kind)) es
unfolding any keys
has-keys id kind [] = refl
has-keys id kind (e ∷ es) = elim (Bool-cases (any (same_key (e.run_id, e.kind)) (keys es))) [
  | inr fresh ↦ rw (keys, fresh) (ap (λ b. is_key (id, kind) e || b) (has-keys id kind es))
  | inl known ↦ elim (Bool-cases (is_key (id, kind) e)) [
    | inr other ↦ rw (keys, known, other) (has-keys id kind es)
    | inl hit ↦
        let same = one_key id kind e hit in
        rw (keys, known, hit)
          (ap (λ (k : GroupKey). any (same_key k) (keys es)) (λ i. (sym same.0 i, same.1 i))
            ∙ known)
  ]
]

asked_key :
    (run_ids : List String) (id : String) (kind : Kind) (es : List Event)
    → any (λ s. s == id) run_ids ≡ true
    → is_field kind ≡ true
    → count (is_key (id, kind)) (select (is_asked run_ids) es) ≡ count (is_key (id, kind)) es
asked_key run_ids id kind es member wanted =
    count-select (is_key (id, kind)) (is_asked run_ids) es ∙ count-congr _ _ asked es
  where
    asked : (e : Event) → (is_asked run_ids e && is_key (id, kind) e) ≡ is_key (id, kind) e
    asked e = elim (Bool-cases (is_key (id, kind) e)) [
      | inr other ↦ ground (arith, other)
      | inl hit ↦
          let same = one_key id kind e hit in
          let present : any (λ s. s == e.run_id) run_ids ≡ true =
            ap (λ (t : String). any (λ s. s == t) run_ids) same.0 ∙ member in
          let field : is_field e.kind ≡ true = ap is_field (sym same.1) ∙ wanted in
          ground (arith, hit, present, field)
    ]

counted_or_zero : (seen : Bool) (n c : ℕ) → seen ≡ ltb 0 n → n ≡ c → (if seen then n else 0) ≡ c
counted_or_zero seen n c h k = ground (arith, h, k)

both_zero :
    (seen seen' : Bool) (n n' c c' : ℕ)
    → seen ≡ ltb 0 n
    → n ≡ c
    → seen' ≡ ltb 0 n'
    → n' ≡ c'
    → (not (seen && ltb 0 n) && not (seen' && ltb 0 n')) ≡ (eqb c 0 && eqb c' 0)
both_zero seen seen' n n' c c' h k h' k' = ground (arith, h, k, h', k')

tally-run_quality :
    (db : Storage) (run_ids : List String) (id : String)
    → any (λ s. s == id) run_ids ≡ true
    → let events = select (is_asked run_ids) db.test_events in
      tally events id (keys events) ≡ run_quality db id
unfolding run_quality count_run_events
tally-run_quality db run_ids id member =
    let events = select (is_asked run_ids) db.test_events in
    let grouped : (kind : Kind)
        → groups_by events id kind (keys events) ≡ ltb 0 (number events id kind) =
      λ kind. has-keys id kind events ∙ any-positive (is_key (id, kind)) events in
    let asked : (kind : Kind)
        → is_field kind ≡ true
        → number events id kind ≡ count_run_events db id kind =
      λ kind wanted. asked_key run_ids id kind db.test_events member wanted in
    let counted : (kind : Kind)
        → is_field kind ≡ true
        → field_of events id kind (keys events) ≡ count_run_events db id kind =
      λ kind wanted. counted_or_zero _ _ _ (grouped kind) (asked kind wanted) in
    let sound =
      both_zero _ _ _ _ _ _ (grouped Kind.verification_failed) (asked Kind.verification_failed refl)
        (grouped Kind.selector_stale) (asked Kind.selector_stale refl) in
    λ i. record {
      verification_failures = counted Kind.verification_failed refl i;
      selector_fallbacks = counted Kind.selector_fallback refl i;
      stale_selectors = counted Kind.selector_stale refl i;
      ui_introspections = counted Kind.ui_introspection refl i;
      verified = sound i;
    }

-- The verdict on a run among many is the verdict on that run alone: the query over a list of runs counts, for
-- each of them, the events that the query of one run counts, kind by kind, and takes the run's numbers
-- for trustworthy exactly if that one does. This holds for each id in the list, whether or not there
-- is such a run.
pub run_quality_many_exact :
    (db : Storage) (run_ids : List String) (id : String)
    → any (λ s. s == id) run_ids ≡ true
    → run_quality_many db run_ids id ≡ some (run_quality db id)
unfolding run_quality_many any
run_quality_many_exact db [] id member = absurd (true≢false (sym member))
run_quality_many_exact db (s ∷ ss) id member =
    let events = select (is_asked (s ∷ ss)) db.test_events in
    put_counts-tally events id (keys events) (initial (s ∷ ss)) (rw member refl)
    ∙ ap some (tally-run_quality db (s ∷ ss) id member)
