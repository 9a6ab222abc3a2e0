-- ===== src/Storage/Qualities.antt =====
-- src/autoperf/storage.py, `run_quality_many`: the verdicts of many runs in one query.
use auto_perf.Prelude.{
  ℕ, String, Bool, true, false, ◌&&◌, Option, none, some, List, [], ◌∷◌, ◌==◌, ltb, if◌then◌else◌,
}
use auto_perf.Prelude.Count.{any, count, select}
use auto_perf.Models.{Kind}
use auto_perf.Storage.Rows.{Event, Storage}
use auto_perf.Storage.Baselines.{Quality, is_kind}

-- a key of GROUP BY run_id, kind
abbrev pub GroupKey : Type 0
GroupKey = String × Kind

abbrev pub is_key : GroupKey → Event → Bool
is_key (run_id, kind) e = (e.run_id == run_id) && is_kind kind e.kind

abbrev pub same_key : GroupKey → GroupKey → Bool
same_key (run_id, kind) (id, k) = (id == run_id) && is_kind kind k

-- `kind IN (...)`: the keys of `field`
abbrev pub is_field : Kind → Bool
is_field Kind.verification_failed = true
is_field Kind.selector_fallback = true
is_field Kind.selector_stale = true
is_field Kind.ui_introspection = true
is_field _ = false

-- `WHERE run_id IN (...) AND kind IN (...)`
abbrev pub is_asked : List String → Event → Bool
is_asked run_ids e = any (λ id. id == e.run_id) run_ids && is_field e.kind

-- the groups, each once; SQLite chooses their order, and the last that the code reads is first here
unfoldable pub keys : List Event → List GroupKey
keys [] = []
keys (e ∷ es) =
    let rest = keys es in
    if any (same_key (e.run_id, e.kind)) rest then rest else (e.run_id, e.kind) ∷ rest

abbrev pub clean : Quality
clean = record {
  verification_failures = 0;
  selector_fallbacks = 0;
  stale_selectors = 0;
  ui_introspections = 0;
  verified = true;
}

-- `verdict[run_id][field[kind]] = count`, and `verified` with it
abbrev pub set_field : Kind → ℕ → Quality → Quality
set_field Kind.verification_failed n q = record q {
  verification_failures = n;
  verified = if ltb 0 n then false else q.verified;
}
set_field Kind.selector_fallback n q = record q { selector_fallbacks = n }
set_field Kind.selector_stale n q = record q {
  stale_selectors = n;
  verified = if ltb 0 n then false else q.verified;
}
set_field Kind.ui_introspection n q = record q { ui_introspections = n }
set_field _ n q = q

abbrev pub set_in : Kind → ℕ → Option Quality → Option Quality
set_in kind n none = none
set_in kind n (some q) = some (set_field kind n q)

-- the dict `verdict`
abbrev pub Verdicts : Type 0
Verdicts = String → Option Quality

unfoldable pub put_counts : List Event → List GroupKey → Verdicts → Verdicts
put_counts events [] verdict = verdict
put_counts events ((run_id, kind) ∷ rest) verdict =
    let before = put_counts events rest verdict in
    λ id.
      if run_id == id
      then set_in kind (count (is_key (run_id, kind)) events) (before id)
      else before id

abbrev pub initial : List String → Verdicts
initial run_ids = λ id. if any (λ s. s == id) run_ids then some clean else none

unfoldable pub run_quality_many : Storage → List String → Verdicts
unfolding put_counts keys
run_quality_many db [] = initial []
run_quality_many db (s ∷ ss) =
    let events = select (is_asked (s ∷ ss)) db.test_events in
    put_counts events (keys events) (initial (s ∷ ss))
