-- ===== src/Prelude/Text.antt =====
-- Go's nullable strings (`*string` and NULL columns) and the order of texts.
use Prim.Native.Nat.{Ordering}
use Prim.Native.String.{String, compare}
use mathlib.Core.Bool.{Bool, true, false}
use mathlib.Core.Option.{Option, none, some}
use text.Mathlib.Text.{◌==◌}

-- `s == nil || *s == ""`
abbrev pub is_blank : Option String → Bool
is_blank none = true
is_blank (some s) = s == ""

-- `x := ""; if s != nil { x = *s }`
abbrev pub or_empty : Option String → String
or_empty none = ""
or_empty (some s) = s

-- `current_stage = ?` and the like: false on NULL.
abbrev pub holds : Option String → String → Bool
holds none s = false
holds (some r) s = r == s

-- ORDER BY a text column compares bytes.
abbrev pub text_le : String → String → Bool
text_le s t = elim (compare s t) [ Ordering.gt ↦ false | _ ↦ true ]
