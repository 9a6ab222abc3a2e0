-- ===== src/Prelude/Text.antt =====
-- Python's operations on texts.
use Prim.Native.String.{String, [], ◌∷◌}
use mathlib.Core.Bool.{Bool, not}
use text.Mathlib.Text.{◌==◌, find?}
use auto_perf.Prelude.Tests.{is_none, if◌then◌else◌}

-- `wanted in actual`
abbrev pub is_within : String → String → Bool
is_within wanted actual = not (is_none (find? actual wanted))

abbrev after_slash : String → String → String
after_slash rest [] = rest
after_slash rest (c ∷ cs) = after_slash (if (c ∷ []) == "/" then cs else rest) cs

-- `s.rsplit("/", 1)[-1]`: what stands behind the last slash, or all of it
abbrev pub bare : String → String
bare s = after_slash s s
