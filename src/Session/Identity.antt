-- ===== src/Session/Identity.antt =====
-- `SessionIdentity`, `KillResult` and `BulkKillResult` of src/uxon/domain/session.py.
pub mod RoundTrip
use uxon.Prelude.{
  ℕ, String, Bool, false, not, Option, none, some, List, [], ◌∷◌, leb, ◌=s◌, ◌+s◌, ◌&&◌, ◌||◌, all,
  keep, length, codes, join, truthy, one_of, if◌then◌else◌, Result, ok, fail, fail_with, ◌>>=◌,
  ◌>>◌, refuse_if, ◌==◌,
}
use uxon.Session.Json.{
  Json, str, obj, Fields, end, field, Decoded, value, malformed, JsonLib, get_str, all_str,
  keys_within, keys_include,
}

pub record SessionIdentity : Type 0 where
  pub user : String
  pub name : String
  pub session_id : String
  pub created : String
  pub launch_nonce : String
  pub socket_path : String
  pub execution_backend : String
  pub execution_fingerprint : String

-- `__dataclass_fields__`
abbrev pub field_names : List String
field_names =
    "user" ∷ "name" ∷ "session_id" ∷ "created" ∷ "launch_nonce" ∷ "socket_path"
    ∷ "execution_backend" ∷ "execution_fingerprint" ∷ []

launch_key : SessionIdentity → String
launch_key self =
    if truthy self.launch_nonce
    then "nonce:" +s self.launch_nonce
    else if truthy self.session_id && truthy self.created
    then "native:" +s self.session_id +s "/" +s self.created
    else "display:" +s self.name

-- the property `key`
unfoldable pub key : SessionIdentity → String
unfolding launch_key
key self =
    self.user
    +s "/"
    +s self.execution_backend
    +s "/"
    +s self.execution_fingerprint
    +s "/"
    +s self.socket_path
    +s "/"
    +s launch_key self

unfoldable pub matches : SessionIdentity → SessionIdentity → Bool
matches self other =
    self.user =s other.user
    && self.session_id =s other.session_id
    && self.created =s other.created
    && self.launch_nonce =s other.launch_nonce
    && self.socket_path =s other.socket_path
    && self.execution_backend =s other.execution_backend
    && self.execution_fingerprint =s other.execution_fingerprint

-- the character class [0-9]
abbrev pub is_digit : ℕ → Bool
is_digit c = leb 48 c && leb c 57

-- the character class [A-Za-z0-9_-]
abbrev pub is_nonce_char : ℕ → Bool
is_nonce_char c = leb 65 c && leb c 90 || leb 97 c && leb c 122 || is_digit c || c == 95 || c == 45

-- re.fullmatch(r"[0-9]+", text)
abbrev digits_only : List ℕ → Bool
digits_only [] = false
digits_only (c ∷ cs) = all is_digit (c ∷ cs)

-- re.fullmatch(r"\$[0-9]+", text)
abbrev dollar_digits : List ℕ → Bool
dollar_digits [] = false
dollar_digits (c ∷ cs) = c == b'$' && digits_only cs

-- re.fullmatch(r"[A-Za-z0-9_-]{16,64}", text)
unfoldable pub is_nonce : String → Bool
is_nonce s = let cs = codes s in all is_nonce_char cs && leb 16 (length cs) && leb (length cs) 64

-- text.startswith("/")
abbrev is_absolute : List ℕ → Bool
is_absolute [] = false
is_absolute (c ∷ cs) = c == b'/'

-- the table `checks`
checks : Bool → SessionIdentity → List (String × Bool)
unfolding is_nonce
checks require_nonce self =
    ("session_id", dollar_digits (codes self.session_id))
    ∷ ("created", digits_only (codes self.created))
    ∷ (
      "launch_nonce",
      not require_nonce && not (truthy self.launch_nonce) || is_nonce self.launch_nonce,
    )
    ∷ ("user", truthy self.user)
    ∷ ("name", truthy self.name)
    ∷ ("socket_path", is_absolute (codes self.socket_path))
    ∷ ("execution_backend", truthy self.execution_backend)
    ∷ ("execution_fingerprint", truthy self.execution_fingerprint)
    ∷ []

names_of_invalid : List (String × Bool) → List String
names_of_invalid [] = []
names_of_invalid ((name, valid) ∷ rest) =
    let names = names_of_invalid rest in if valid then names else name ∷ names

unfoldable pub invalid_fields : Bool → SessionIdentity → List String
unfolding checks names_of_invalid
invalid_fields require_nonce self = names_of_invalid (checks require_nonce self)

abbrev pub drain_hint : String
drain_hint =
    "; destructive actions require launch authority: drain older sessions before upgrading or remove them explicitly with tmux"

-- `repr` is Python's, for the message
unfoldable pub validate : (String → String) → Bool → SessionIdentity → Result (Unit {0})
validate repr require_nonce self = elim (invalid_fields require_nonce self) [
  | [] ↦ ok tt
  | n ∷ ns ↦ fail_with 1 (
      "invalid captured identity for "
      +s repr self.name
      +s " ("
      +s (if truthy self.session_id then self.session_id else "unknown ID")
      +s "): missing or invalid "
      +s join ", " (n ∷ ns)
      +s (if require_nonce && one_of "launch_nonce" (n ∷ ns) then drain_hint else ""))
]

-- asdict(self), as the value that is dumped
unfoldable pub as_dict : SessionIdentity → Fields
as_dict self = field "user" (str self.user) (
    field "name" (str self.name) (
      field "session_id" (str self.session_id) (
        field "created" (str self.created) (
          field "launch_nonce" (str self.launch_nonce) (
            field "socket_path" (str self.socket_path) (
              field "execution_backend" (str self.execution_backend)
                (field "execution_fingerprint" (str self.execution_fingerprint) end)))))))

unfoldable pub to_json : JsonLib → SessionIdentity → String
to_json lib self = lib.dumps (obj (as_dict self))

infixl 10 ◌>>=?◌
abbrev ◌>>=?◌ : {A B : Type 0} → Option A → (A → Option B) → Option B
none >>=? f = none
some a >>=? f = f a

-- cls(**payload), where every field is a text
unfoldable pub from_fields : Fields → Option SessionIdentity
unfolding get_str
from_fields p = get_str "user" p >>=? λ a. get_str "name" p >>=? λ b.
    get_str "session_id" p >>=? λ c. get_str "created" p >>=? λ d.
    get_str "launch_nonce" p >>=? λ e. get_str "socket_path" p >>=? λ f.
    get_str "execution_backend" p >>=? λ g. get_str "execution_fingerprint" p >>=? λ h.
    some (record {
      user = a;
      name = b;
      session_id = c;
      created = d;
      launch_nonce = e;
      socket_path = f;
      execution_backend = g;
      execution_fingerprint = h;
    })

-- `from_wire`: more fields are allowed, and a value that is no text makes the identity missing
unfoldable pub from_wire : Json → Option SessionIdentity
unfolding from_fields
from_wire (obj payload) = from_fields payload
from_wire other = none

abbrev or_fail : Option SessionIdentity → Result SessionIdentity
or_fail (some self) = ok self
or_fail none = fail "invalid --expect-session: identity fields must be strings"

-- the `try` block of `from_json`
decode : Decoded → Result SessionIdentity
unfolding from_fields all_str keys_within keys_include
decode (malformed msg) = fail ("invalid --expect-session: " +s msg)
decode (value (obj payload)) = do
  refuse_if (not (keys_within field_names payload && keys_include field_names payload))
      "invalid --expect-session: unexpected identity fields"
  refuse_if (not (all_str payload)) "invalid --expect-session: identity fields must be strings"
  or_fail (from_fields payload)
decode (value other) = fail "invalid --expect-session: unexpected identity fields"

unfoldable pub from_json : JsonLib → (String → String) → String → Bool → Result SessionIdentity
unfolding decode
from_json lib repr text require_nonce = do
  self ← decode (lib.loads text)
  validate repr require_nonce self
  ok self

pub record KillResult : Type 0 where
  pub identity : SessionIdentity
  pub action : String
  pub cleanup_outcome : String
  pub error : String

-- the property `ok` of a `KillResult`
unfoldable pub is_ok : KillResult → Bool
is_ok self =
    one_of self.action ("killed" ∷ "already_absent" ∷ "would-kill" ∷ [])
    && not (self.cleanup_outcome =s "error")

-- the property `ok` of a `BulkKillResult`
unfoldable pub bulk_is_ok : List KillResult → Bool
unfolding is_ok
bulk_is_ok results = all is_ok results

unfoldable pub killed_count : List KillResult → ℕ
killed_count results = length (keep (λ r. r.action =s "killed") results)

unfoldable pub failed_count : List KillResult → ℕ
unfolding is_ok
failed_count results = length (keep (λ r. not (is_ok r)) results)
