-- ===== src/Base/Text.antt =====
-- Text literals as JavaScript strings. The sources' literals are ASCII, where a code point is one
-- code unit.
use Prim.Native.Char.{code}
use Prim.Native.String.{String}
use mathlib.Core.List.{[], ◌∷◌}
use fuck_chat_control.Base.Eq.{Str}

abbrev pub str : String → Str
str String.[] = []
str (String.◌∷◌ c s) = code c ∷ str s
