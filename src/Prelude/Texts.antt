-- ===== src/Prelude/Texts.antt =====
-- Text as Python's `str` is used: whole texts compared, and texts walked as code points.
use Prim.Native.Nat.{ℕ}
use Prim.Native.Char.{code}
use Prim.Native.String.{String}
use Prim.Native.String
use mathlib.Core.Bool.{Bool, true, false, not}
use mathlib.Core.Option.{Option, none, some}
use mathlib.Core.List.{List, [], ◌∷◌}
use text.Mathlib.Text.{◌==◌}

-- The code points of a text.
abbrev pub codes : String → List ℕ
codes String.[] = []
codes (String.◌∷◌ c s) = code c ∷ codes s

-- `sep.join(parts)`
abbrev pub join : String → List String → String
join sep [] = ""
join sep (x ∷ []) = x
join sep (x ∷ y ∷ rest) = String.◌++◌ x (String.◌++◌ sep (join sep (y ∷ rest)))

-- `a + b` on texts
infixr 65 ◌+s◌
abbrev pub ◌+s◌ : String → String → String
a +s b = String.◌++◌ a b

infix 50 ◌=s◌
abbrev pub ◌=s◌ : String → String → Bool
a =s b = a == b

-- `bool(text)`: a text counts as true unless it is empty
abbrev pub truthy : String → Bool
truthy s = not (s =s "")

-- `bool(option)` for a text or `None`
abbrev pub truthy? : Option String → Bool
truthy? none = false
truthy? (some s) = truthy s

-- `text in texts`
abbrev pub one_of : String → List String → Bool
one_of s [] = false
one_of s (x ∷ xs) = elim (s =s x) [ true ↦ true | false ↦ one_of s xs ]
