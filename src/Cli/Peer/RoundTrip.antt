-- ===== src/Cli/Peer/RoundTrip.antt =====
-- What the peer's `parse_args` makes of a command line that this host built.
use uxon.Prelude.{
  String, ◌≡◌, refl, subst, ◌=s◌, truthy, Bool-cases, inl, inr, Bool, true, false, Option, none,
  some, List, [], ◌∷◌, ◌++◌, ok,
}
use mathlib.Core.Bool.{false≢true}
use text.Mathlib.TextEquality.{eq_iff}
use uxon.Session.Json.{obj, value}
use uxon.Session.Identity.{SessionIdentity, as_dict, to_json, invalid_fields}
use uxon.Session.Identity.RoundTrip.{from_json-to_json}
use uxon.Cli.Args.{ParsedArgs, args_for}
use uxon.Cli.Correlation.{
  other, classify, matches_uuid, correlation_flag, extract_correlation_id, record_correlation_id,
}
use uxon.Cli.Correlation.Extraction.{HasNoFlag, extract_from-append}
use uxon.Cli.Walk.{walk}
use uxon.Cli.Common.{Library}
use uxon.Cli.Target.{kill_start, kill_grammar, kill_finish, parse_kill_extras}
use uxon.Cli.Dispatch.{parse_args}
use uxon.Cli.Peer.{Shell, remote_kill_command, kill_parts}

-- the words behind the executable's name
abbrev pub argv_of : List String → List String
argv_of [] = []
argv_of (program ∷ argv) = argv

-- a UUID is no empty text
truthy-uuid : (uid : String) → matches_uuid uid ≡ true → truthy uid ≡ true
unfolding matches_uuid
truthy-uuid uid u = elim (Bool-cases (uid =s "")) [
  | inl empty ↦ absurd (false≢true (subst (λ t. matches_uuid t ≡ true) ((eq_iff uid "").0 empty) u))
  | inr full ↦ rw full
]

recorded :
    (uid : String) (current : Option String)
    → matches_uuid uid ≡ true
    → record_correlation_id (some uid) current ≡ some uid
unfolding record_correlation_id
recorded uid current u = rw (truthy-uuid uid u)

extracted :
    (argv : List String) (uid : String)
    → HasNoFlag argv
    → matches_uuid uid ≡ true
    → extract_correlation_id (argv ++ correlation_flag ∷ uid ∷ []) ≡ (some uid, argv)
unfolding extract_correlation_id
extracted argv uid h u = extract_from-append argv none uid h u

module _ (lib : Library) (self : SessionIdentity) (user : String)
    (loaded : lib.json.loads (lib.json.dumps (obj (as_dict self)))
      ≡ value (obj (as_dict self))) where
  abbrev kill_words : List String
  kill_words =
      "--force" ∷ "--user" ∷ user ∷ "--expect-session" ∷ to_json lib.json self ∷ "--json" ∷ []

  kill_walk :
      invalid_fields true self ≡ []
      → walk (kill_grammar lib) kill_start kill_words
        ≡ ok (record {
          dry = false;
          force = true;
          json_out = true;
          user = some user;
          host = none;
          expected = some self;
          extras = [];
        })
  unfolding walk kill_grammar
  kill_walk valid = rw (from_json-to_json lib.json lib.repr true self loaded valid)

  abbrev attach_words : List String
  attach_words = "--user" ∷ user ∷ "--expect-session" ∷ to_json lib.json self ∷ []

  words_other :
      classify user ≡ other
      → classify (to_json lib.json self) ≡ other
      → HasNoFlag kill_words × HasNoFlag attach_words
  unfolding classify
  words_other u j = ((refl, (refl, (u, (refl, (j, (refl, tt)))))), (refl, (u, (refl, (j, tt)))))

-- What the peer is asked to kill.
abbrev pub kill_request : String → String → SessionIdentity → String → ParsedArgs
kill_request name user self uid =
    let args = args_for "kill" in
    record args {
      target_id = some name;
      force = true;
      json_output = true;
      user = some user;
      audit_correlation_id = some uid;
      expected_session = some self;
    }

-- What the peer is asked to attach to.
abbrev pub attach_request : String → String → SessionIdentity → String → ParsedArgs
attach_request name user self uid =
    let args = args_for "attach" in
    record args {
      target_id = some name;
      user = some user;
      audit_correlation_id = some uid;
      expected_session = some self;
    }

module _ (lib : Library) (tty : Bool) (usage_text : String) where
  parse_args-kill :
      (b : Bool) (name : String) (rest : List String)
      → parse_args lib b usage_text ("kill" ∷ name ∷ rest) ≡ parse_kill_extras lib rest name
  unfolding parse_args
  parse_args-kill true name rest = refl
  parse_args-kill false name rest = refl

  module _ (sh : Shell) (executable name user : String) (self : SessionIdentity) (uid : String)
      (current : Option String) where
    -- What the peer parses is what the caller meant: of the command line of a remote kill with --json,
    -- once split, `parse_args` makes a forced kill of that name for that user, that expects exactly
    -- the captured session, and it takes the correlation id over. Conditions: splitting undoes the
    -- quoting of this line, the JSON library reads back what it wrote for the session, the session
    -- is valid with its nonce, the id matches the pattern of a UUID, and neither the user nor the session's
    -- text looks like the correlation flag.
    pub kill_round_trip :
        sh.split (remote_kill_command sh lib.json executable name user (some self) uid true)
          ≡ kill_parts lib.json executable name user (some self) uid true
        → lib.json.loads (lib.json.dumps (obj (as_dict self))) ≡ value (obj (as_dict self))
        → invalid_fields true self ≡ []
        → matches_uuid uid ≡ true
        → classify user ≡ other
        → classify (to_json lib.json self) ≡ other
        → parse_args lib tty usage_text
            (argv_of (
              sh.split (remote_kill_command sh lib.json executable name user (some self) uid true)))
            current
          ≡ (ok (kill_request name user self uid), some uid)
    unfolding kill_parts parse_kill_extras kill_finish
    kill_round_trip split loaded valid u plain_user plain_json = rw (
      split,
      parse_args-kill tty name,
      extracted (kill_words lib self user loaded) uid
          (words_other lib self user loaded plain_user plain_json).0 u,
      recorded uid current u,
      kill_walk lib self user loaded valid,
    )
