-- ===== src/Cli/Target.antt =====
-- `_parse_kill_extras` and `_parse_attach_extras` of src/uxon/cli/parsing.py.
use uxon.Prelude.{
  String, Bool, true, false, not, Option, none, some, List, [], ◌∷◌, ◌++◌, ◌=s◌, ◌&&◌, one_of,
  if◌then◌else◌, Result, ok, fail, ◌>>=◌, ◌>>◌, refuse_if,
}
use uxon.Session.Identity.{SessionIdentity, from_json}
use uxon.Cli.Args.{ParsedArgs, args_for, is_given}
use uxon.Cli.Walk.{Grammar, walk}
use uxon.Cli.Common.{Library, Parse, with_correlation, no_extras}

-- the local variables of `_parse_kill_extras`
pub record KillVars : Type 0 where
  pub dry : Bool
  pub force : Bool
  pub json_out : Bool
  pub user : Option String
  pub host : Option String
  pub expected : Option SessionIdentity
  pub extras : List String

abbrev pub kill_start : KillVars
kill_start = record {
  dry = false;
  force = false;
  json_out = false;
  user = none;
  host = none;
  expected = none;
  extras = [];
}

abbrev pub target_options : List String
target_options = "--user" ∷ "--host" ∷ "--expect-session" ∷ []

-- the message of an option of the target without its value
target_missing : String → String
target_missing token =
    if token =s "--user"
    then "--user requires a name"
    else if token =s "--host"
    then "--host requires a host name"
    else "--expect-session requires exactly one identity JSON object"

kill_valued : Library → KillVars → String → String → Result KillVars
kill_valued lib s token v =
    if token =s "--user"
    then ok (record s { user = some v })
    else if token =s "--host"
    then ok (record s { host = some v })
    else do
      refuse_if (is_given s.expected) "--expect-session requires exactly one identity JSON object"
      self ← from_json lib.json lib.repr v true
      ok (record s { expected = some self })

kill_plain : KillVars → String → Result KillVars
kill_plain s token =
    if token =s "--dry-run"
    then ok (record s { dry = true })
    else if token =s "--force"
    then ok (record s { force = true })
    else if token =s "--json"
    then ok (record s { json_out = true })
    else ok (record s { extras = s.extras ++ token ∷ [] })

unfoldable pub kill_grammar : Library → Grammar KillVars
unfolding kill_valued kill_plain target_missing
kill_grammar lib = record {
  takes_value = λ token. one_of token target_options;
  valued = kill_valued lib;
  missing = λ s token. fail (target_missing token);
  plain = kill_plain;
}

unfoldable pub kill_finish : String → Option String → KillVars → Result ParsedArgs
kill_finish target_id corr_id s = do
  no_extras "kill" s.extras
  let args = args_for "kill"
  ok (record args {
    target_id = some target_id;
    dry_run = s.dry;
    force = s.force;
    json_output = s.json_out;
    user = s.user;
    host = s.host;
    audit_correlation_id = corr_id;
    expected_session = s.expected;
  })

unfoldable pub parse_kill_extras : Library → List String → String → Parse
unfolding kill_finish
parse_kill_extras lib rest target_id =
    with_correlation rest
      (λ corr_id argv. walk (kill_grammar lib) kill_start argv >>= kill_finish target_id corr_id)

-- the local variables of `_parse_attach_extras`
pub record AttachVars : Type 0 where
  pub dry : Bool
  pub user : Option String
  pub host : Option String
  pub expected : Option SessionIdentity
  pub extras : List String

abbrev pub attach_start : AttachVars
attach_start = record { dry = false; user = none; host = none; expected = none; extras = [] }

attach_valued : Library → AttachVars → String → String → Result AttachVars
attach_valued lib s token v =
    if token =s "--user"
    then ok (record s { user = some v })
    else if token =s "--host"
    then ok (record s { host = some v })
    else do
      refuse_if (is_given s.expected) "--expect-session requires exactly one identity JSON object"
      self ← from_json lib.json lib.repr v false
      ok (record s { expected = some self })

attach_plain : AttachVars → String → Result AttachVars
attach_plain s token =
    if token =s "--dry-run"
    then ok (record s { dry = true })
    else ok (record s { extras = s.extras ++ token ∷ [] })

unfoldable pub attach_grammar : Library → Grammar AttachVars
unfolding attach_valued attach_plain target_missing
attach_grammar lib = record {
  takes_value = λ token. one_of token target_options;
  valued = attach_valued lib;
  missing = λ s token. fail (target_missing token);
  plain = attach_plain;
}

unfoldable pub attach_finish : String → Option String → AttachVars → Result ParsedArgs
attach_finish target_id corr_id s = do
  no_extras "attach" s.extras
  refuse_if (is_given s.host && not (is_given s.user))
      "attach --host requires --user (peer owns authorisation; pass the target user explicitly)"
  let args = args_for "attach"
  ok (record args {
    target_id = some target_id;
    dry_run = s.dry;
    user = s.user;
    host = s.host;
    audit_correlation_id = corr_id;
    expected_session = s.expected;
  })

unfoldable pub parse_attach_extras : Library → List String → String → Parse
unfolding attach_finish
parse_attach_extras lib rest target_id = with_correlation rest (λ corr_id argv.
    walk (attach_grammar lib) attach_start argv >>= attach_finish target_id corr_id)
