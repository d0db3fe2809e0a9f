-- ===== src/Examples/Shells.antt =====
-- A quoting and a splitting that follow the laws of `Shell` on every text.
use Prim.Native.Char.{Char, code}
use Prim.Native.String.{String}
use text.Mathlib.TextLemmas.{nil-append, cons-append}
use uxon.Prelude.{
  ◌≡◌, refl, ap, ◌∙◌, Bool, true, false, List, [], ◌∷◌, ◌&&◌, ◌==◌, ◌+s◌, if◌then◌else◌, arith,
}
use uxon.Cli.Peer.{Shell, ShellLaws, is_safe, is_plain}

-- every character of a quoted text is escaped, and words are parted by one space
pub escape : String → String
escape String.[] = ""
escape (String.◌∷◌ c s) = String.◌∷◌ "\\" (String.◌∷◌ c (escape s))

abbrev add_char : Char → List String → List String
add_char c [] = []
add_char c (w ∷ ws) = String.◌∷◌ c w ∷ ws

-- the words of a text, whose first character is escaped or not
pub words : Bool → String → List String
words escaped String.[] = "" ∷ []
words escaped (String.◌∷◌ c s) =
    let rest = words false s in
    let next = words true s in
    if escaped
    then add_char c rest
    else if code c == 32
    then "" ∷ rest
    else if code c == 92
    then next
    else add_char c rest

abbrev pub attach_shell : Shell
attach_shell = record { quote = escape; split = words false }

space : (rest : String) → words false (" " +s rest) ≡ "" ∷ words false rest
unfolding words
space rest = ap (words false) (cons-append " " "" rest ∙ ap (String.◌∷◌ " ") (nil-append rest))

quoted : (w rest : String) → words false (escape w +s " " +s rest) ≡ w ∷ words false rest
unfolding words escape
quoted String.[] rest = ap (words false) (nil-append (" " +s rest)) ∙ space rest
quoted (String.◌∷◌ c w) rest =
    ap (words false) (
      cons-append "\\" (String.◌∷◌ c (escape w)) (" " +s rest)
      ∙ ap (String.◌∷◌ "\\") (cons-append c (escape w) (" " +s rest)))
    ∙ ap (add_char c) (quoted w rest)

quoted_last : (w : String) → words false (escape w) ≡ w ∷ []
unfolding words escape
quoted_last String.[] = refl
quoted_last (String.◌∷◌ c w) = ap (add_char c) (quoted_last w)

both : (a b : Bool) → (a && b) ≡ true → (a ≡ true) × (b ≡ true)
both true b h = (refl, h)
both false b h = cc

plain_step :
    (c : Char) (s : String)
    → is_safe (code c) ≡ true
    → words false (String.◌∷◌ c s) ≡ add_char c (words false s)
unfolding words
plain_step c s safe = ground arith

plain :
    (w rest : String) → is_plain w ≡ true → words false (w +s " " +s rest) ≡ w ∷ words false rest
unfolding is_plain
plain String.[] rest h = ap (words false) (nil-append (" " +s rest)) ∙ space rest
plain (String.◌∷◌ c w) rest h =
    let (safe, rest_safe) = both (is_safe (code c)) (is_plain w) h in
    ap (words false) (cons-append c w (" " +s rest))
    ∙ plain_step c (w +s " " +s rest) safe
    ∙ ap (add_char c) (plain w rest rest_safe)

pub attach_laws : ShellLaws attach_shell
attach_laws = record { quoted = quoted; quoted_last = quoted_last; plain = plain }
