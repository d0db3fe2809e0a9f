-- ===== src/Cli/Correlation.antt =====
-- `extract_correlation_id` and `set_correlation_id` of src/uxon/infra/audit.py.
pub mod Extraction
use Prim.Native.Char.{code}
use Prim.Native.String.{String}
use text.Mathlib.Text.{starts_with}
use uxon.Prelude.{
  ℕ, zero, suc, Bool, true, false, Option, none, some, List, [], ◌∷◌, leb, ◌==◌, ◌=s◌, ◌&&◌, ◌||◌,
  codes, if◌then◌else◌, truthy?,
}

abbrev is_hex : ℕ → Bool
is_hex c = leb 48 c && leb c 57 || leb 97 c && leb c 102 || leb 65 c && leb c 70

-- [0-9a-fA-F]{n}, and the text behind it
unfoldable pub hex_run : ℕ → List ℕ → Option (List ℕ)
hex_run zero cs = some cs
hex_run (suc n) [] = none
hex_run (suc n) (c ∷ cs) = let rest = hex_run n cs in if is_hex c then rest else none

abbrev dash : List ℕ → Option (List ℕ)
dash [] = none
dash (c ∷ cs) = if c == b'-' then some cs else none

infixl 10 ◌then_match◌
abbrev ◌then_match◌ : Option (List ℕ) → (List ℕ → Option (List ℕ)) → Option (List ℕ)
none then_match f = none
some cs then_match f = f cs

-- `$` holds at the end of the text and before a line feed that ends it
abbrev at_end : Option (List ℕ) → Bool
at_end none = false
at_end (some []) = true
at_end (some (c ∷ [])) = c == 10
at_end (some (c ∷ d ∷ cs)) = false

-- _UUID_RE.match(text) is not None
unfoldable pub matches_uuid : String → Bool
unfolding hex_run
matches_uuid s = at_end (
    hex_run 8 (codes s)
    then_match dash
    then_match hex_run 4
    then_match dash
    then_match hex_run 4
    then_match dash
    then_match hex_run 4
    then_match dash
    then_match hex_run 12)

abbrev pub correlation_flag : String
correlation_flag = "--audit-correlation-id"

-- text.split("=", 1)[1], where the text has an "="
after_equals : String → String
after_equals String.[] = ""
after_equals (String.◌∷◌ c s) = let rest = after_equals s in if code c == b'=' then s else rest

-- the three kinds of token of the loop
pub data Token : Type 0 where
  flag : Token
  inline : String → Token
  other : Token

unfoldable pub classify : String → Token
unfolding after_equals
classify a =
    if a =s correlation_flag
    then flag
    else if starts_with a "--audit-correlation-id="
    then inline (after_equals a)
    else other

-- `if _UUID_RE.match(candidate): found = candidate`
unfoldable pub accept : String → Option String → Option String
accept candidate found = if matches_uuid candidate then some candidate else found

-- the loop; `found` is the loop's variable, and the kept tokens are returned in order
unfoldable pub extract_from : Option String → List String → Option String × List String
extract_from found [] = (found, [])
extract_from found (a ∷ []) = elim (classify a) [
  | flag ↦ (found, [])
  | inline candidate ↦ (accept candidate found, [])
  | other ↦ (found, a ∷ [])
]
extract_from found (a ∷ b ∷ rest) = elim (classify a) [
  | flag ↦ extract_from (accept b found) rest
  | inline candidate ↦ extract_from (accept candidate found) (b ∷ rest)
  | other ↦ let r = extract_from found (b ∷ rest) in (r.0, a ∷ r.1)
]

unfoldable pub extract_correlation_id : List String → Option String × List String
unfolding extract_from
extract_correlation_id argv = extract_from none argv

-- `if corr_id: set_correlation_id(corr_id)`, on the module variable `_correlation_id`
unfoldable pub record_correlation_id : Option String → Option String → Option String
record_correlation_id corr_id current = if truthy? corr_id then corr_id else current
