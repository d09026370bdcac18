-- ===== src/Base/Text.antt =====
-- What the program asks of Go's `strings` package, over native texts.
use Prim.Native.String.{String, ◌++◌}
use mathlib.Core.List.{List, [], ◌∷◌}
use trimetry.Base.Tests.{if◌then◌else◌}
use text.Mathlib.Text.{◌==◌ as str_eq}

-- strings.Join(parts, "")
unfoldable pub join : List String → String
join [] = ""
join (s ∷ ss) = s ++ join ss

-- `if a == "" { a = b }`
abbrev pub or_text : String → String → String
or_text a b = if str_eq a "" then b else a
