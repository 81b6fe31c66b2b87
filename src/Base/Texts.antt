-- ===== src/Base/Texts.antt =====
-- Go strings, which the program compares whole and keys its maps by.
use Prim.Native.String.{String}
use mathlib.Core.Bool.{Bool, false, ◌||◌}
use mathlib.Core.List.{List, [], ◌∷◌}
use text.Mathlib.Text.{◌==◌}

-- `==` on strings; the plain `==` of this library compares numbers.
infix 50 ◌=ₛ◌
abbrev pub ◌=ₛ◌ : String → String → Bool
s =ₛ t = s == t

-- Whether a slice of strings holds a given one.
abbrev pub contains : List String → String → Bool
contains [] s = false
contains (t ∷ ts) s = t =ₛ s || contains ts s
