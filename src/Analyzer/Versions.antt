-- ===== src/Analyzer/Versions.antt =====
-- src/autoperf/analyzer.py, `app_version_delta`: whether two runs measured one build of the app.
use auto_perf.Prelude.{
  ℕ, String, Bool, true, false, not, ◌||◌, Option, none, some, ◌==◌, eqb, if◌then◌else◌,
}
use auto_perf.Storage.Rows.{Run}

pub record Version : Type 0 where
  pub app : Option String
  pub version_name : Option String
  pub version_code : Option ℕ

-- a text or a number as a condition: "" and 0 are false
abbrev pub has_name : Option String → Bool
has_name none = false
has_name (some name) = not (name == "")

abbrev pub has_code : Option ℕ → Bool
has_code none = false
has_code (some code) = not (eqb code 0)

abbrev pub version_of : Run → Version
version_of r = record {
  app = r.app_package;
  version_name = r.app_version_name;
  version_code = r.app_version_code;
}

unfoldable pub describe : Option Run → Option Version
describe none = none
describe (some r) =
    if has_name r.app_version_name || has_code r.app_version_code then some (version_of r) else none

abbrev pub same_name : Option String → Option String → Bool
same_name none none = true
same_name (some s) (some t) = s == t
same_name _ _ = false

abbrev pub same_code : Option ℕ → Option ℕ → Bool
same_code none none = true
same_code (some m) (some n) = eqb m n
same_code _ _ = false

abbrev pub changed_between : Option Version → Option Version → Option Bool
changed_between none candidate = none
changed_between (some b) none = none
changed_between (some b) (some c) =
    some (
      not (same_code b.version_code c.version_code)
      || not (same_name b.version_name c.version_name))

-- the field `changed`
unfoldable pub app_version_changed : Option Run → Option Run → Option Bool
unfolding describe
app_version_changed baseline candidate = changed_between (describe baseline) (describe candidate)
