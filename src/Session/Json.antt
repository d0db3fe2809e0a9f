-- ===== src/Session/Json.antt =====
-- The values that `json.loads` returns, as far as src/uxon/domain/session.py looks into them. The
-- `json` module is not part of the program: its two functions are fields of `JsonLib`.
use uxon.Prelude.{
  String, Bool, true, false, Option, none, some, List, [], ◌∷◌, ◌=s◌, ◌&&◌, if◌then◌else◌, one_of,
}

mutual
  pub data Json : Type 0 where
    str : String → Json
    obj : Fields → Json
    -- a number, `true`, `false`, `null` or an array, by its text
    raw : String → Json

  pub data Fields : Type 0 where
    end : Fields
    field : String → Json → Fields → Fields

-- What `json.loads` does: return a value, or raise `ValueError` with a message.
pub data Decoded : Type 0 where
  value : Json → Decoded
  malformed : String → Decoded

pub record JsonLib : Type 0 where
  pub loads : String → Decoded
  pub dumps : Json → String

-- payload.get(key)
unfoldable pub get : String → Fields → Option Json
get key end = none
get key (field k v rest) = if k =s key then some v else get key rest

abbrev is_str : Json → Bool
is_str (str s) = true
is_str other = false

-- all(isinstance(item, str) for item in payload.values())
unfoldable pub all_str : Fields → Bool
all_str end = true
all_str (field k v rest) = is_str v && all_str rest

-- set(payload) ⊆ names
unfoldable pub keys_within : List String → Fields → Bool
keys_within names end = true
keys_within names (field k v rest) = one_of k names && keys_within names rest

-- payload[key], where the value is a text
unfoldable pub get_str : String → Fields → Option String
unfolding get
get_str key payload = elim (get key payload) [ some (str s) ↦ some s | _ ↦ none ]

-- names ⊆ set(payload)
unfoldable pub keys_include : List String → Fields → Bool
unfolding get
keys_include [] payload = true
keys_include (name ∷ names) payload = elim (get name payload) [
  | none ↦ false
  | some _ ↦ keys_include names payload
]
