-- ===== src/Session/Identity/RoundTrip.antt =====
-- `to_json` and `from_json` of src/uxon/domain/session.py, one after the other.
use uxon.Prelude.{String, ◌≡◌, refl, Bool, [], ok, some}
use uxon.Session.Json.{obj, value, JsonLib}
use uxon.Session.Identity.{
  SessionIdentity, as_dict, to_json, from_json, from_wire, invalid_fields, validate, decode,
}

decode-as_dict : (self : SessionIdentity) → decode (value (obj (as_dict self))) ≡ ok self
unfolding decode as_dict
decode-as_dict self = refl

validate_of_valid :
    (repr : String → String) (require_nonce : Bool) (self : SessionIdentity)
    → invalid_fields require_nonce self ≡ []
    → validate repr require_nonce self ≡ ok tt
unfolding validate
validate_of_valid repr require_nonce self valid = rw (valid, validate)

-- Where the JSON library reads back what it wrote for an identity, and the identity has no invalid
-- field, `from_json` makes this identity of the text that `to_json` makes of it, under either demand
-- on the nonce.
pub from_json-to_json :
    (lib : JsonLib) (repr : String → String) (require_nonce : Bool) (self : SessionIdentity)
    → lib.loads (lib.dumps (obj (as_dict self))) ≡ value (obj (as_dict self))
    → invalid_fields require_nonce self ≡ []
    → from_json lib repr (to_json lib self) require_nonce ≡ ok self
unfolding from_json to_json
from_json-to_json lib repr require_nonce self loaded valid =
    rw (loaded, decode-as_dict self, validate_of_valid repr require_nonce self valid)

-- The wire record that carries an identity yields that identity.
pub from_wire-as_dict : (self : SessionIdentity) → from_wire (obj (as_dict self)) ≡ some self
unfolding from_wire as_dict
from_wire-as_dict self = refl
