-- ===== src/Runner/Sampling.antt =====
-- src/autoperf/runner.py, `run`: which collectors are submitted in a round.
use auto_perf.Prelude.{
  ℕ, ◌+◌, String, Bool, not, ◌&&◌, List, [], ◌∷◌, ◌++◌, ◌==◌, leb, if◌then◌else◌,
}
use auto_perf.Prelude.Count.{any, delete_where}

-- collectors.py, class Collector, as far as the runner reads it
pub record Collector : Type 0 where
  pub name : String
  pub interval : ℕ

-- `due`, `active` and `timed_out`. `sampled` lists the calls of `executor.submit` for collectors,
-- each with its time, the newest first.
pub record Sampling : Type 0 where
  pub due : String → ℕ
  pub active : List (String × ℕ)
  pub timed_out : List String
  pub sampled : List (Collector × ℕ)

abbrev pub is_name : String → String × ℕ → Bool
is_name name entry = entry.0 == name

abbrev pub is_active : String → Sampling → Bool
is_active name s = any (is_name name) s.active

abbrev pub put_due : String → ℕ → (String → ℕ) → String → ℕ
put_due name at due other = if other == name then at else due other

abbrev pub submitted : ℕ → Collector → Sampling → Sampling
submitted now c s = record s {
  active = s.active ++ (c.name, now) ∷ [];
  due = put_due c.name (now + c.interval) s.due;
  sampled = (c, now) ∷ s.sampled;
}

unfoldable pub submit_collector : ℕ → Collector → Sampling → Sampling
submit_collector now c s =
    if leb (s.due c.name) now && not (is_active c.name s) then submitted now c s else s

unfoldable pub submit_collectors : ℕ → List Collector → Sampling → Sampling
submit_collectors now [] s = s
submit_collectors now (c ∷ cs) s = submit_collectors now cs (submit_collector now c s)

-- `name in timed_out`
abbrev pub has_timed_out : String → Sampling → Bool
has_timed_out name s = any (λ other. other == name) s.timed_out

-- `del active[name]`, and `timed_out.remove(name)` where it is there
unfoldable pub settle_collector : String → Sampling → Sampling
settle_collector name s = record s {
  active = delete_where (is_name name) s.active;
  timed_out = delete_where (λ other. other == name) s.timed_out;
}
