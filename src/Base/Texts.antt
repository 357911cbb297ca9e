-- ===== src/Base/Texts.antt =====
-- Go strings where the program walks them: lists of bytes.
use Prim.Native.Nat.{ℕ}
use Prim.Native.Char.{code}
use Prim.Native.String.{String}
use mathlib.Core.Bool.{Bool, true, false, ◌&&◌, ◌||◌}
use mathlib.Core.List.{List, [], ◌∷◌}
use pici.Base.Tests.{◌==◌}

abbrev pub Text : Type 0
Text = List ℕ

-- The bytes of a literal, which is ASCII.
abbrev pub codes : String → Text
codes String.[] = []
codes (String.◌∷◌ c s) = code c ∷ codes s

-- strings.HasPrefix, the prefix first.
unfoldable pub has_prefix : Text → Text → Bool
has_prefix [] s = true
has_prefix (p ∷ ps) [] = false
has_prefix (p ∷ ps) (c ∷ s) = (p == c) && has_prefix ps s

-- strings.Contains, the part that is looked for first.
unfoldable pub contains : Text → Text → Bool
unfolding has_prefix
contains u [] = has_prefix u []
contains u (c ∷ s) = has_prefix u (c ∷ s) || contains u s
