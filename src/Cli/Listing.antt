-- ===== src/Cli/Listing.antt =====
-- `parse_list_args` of src/uxon/cli/parsing.py.
use uxon.Prelude.{
  String, Bool, true, false, Option, none, some, List, [], ◌∷◌, ◌++◌, ◌=s◌, ◌&&◌, if◌then◌else◌,
  Result, ok, fail, ◌>>=◌, ◌>>◌, refuse_if,
}
use uxon.Cli.Args.{ParsedArgs, args_for, is_given}
use uxon.Cli.Walk.{Grammar, walk}
use uxon.Cli.Common.{Parse, with_correlation, no_extras}

-- the local variables of `parse_list_args`
pub record ListVars : Type 0 where
  pub all_users : Bool
  pub json_out : Bool
  pub all_hosts : Bool
  pub host : Option String
  pub extras : List String

abbrev pub list_start : ListVars
list_start = record {
  all_users = false;
  json_out = false;
  all_hosts = false;
  host = none;
  extras = [];
}

list_plain : ListVars → String → Result ListVars
list_plain s token =
    if token =s "--all-users"
    then ok (record s { all_users = true })
    else if token =s "--json"
    then ok (record s { json_out = true })
    else if token =s "--all-hosts"
    then ok (record s { all_hosts = true })
    else ok (record s { extras = s.extras ++ token ∷ [] })

unfoldable pub list_grammar : Grammar ListVars
unfolding list_plain
list_grammar = record {
  takes_value = λ token. token =s "--host";
  valued = λ s token v. ok (record s { host = some v });
  missing = λ s token. fail "--host requires a host name";
  plain = list_plain;
}

unfoldable pub list_finish : Option String → ListVars → Result ParsedArgs
list_finish corr_id s = do
  no_extras "list" s.extras
  refuse_if (is_given s.host && s.all_hosts) "--host and --all-hosts are mutually exclusive"
  let args = args_for "list"
  ok (record args {
    all_users = s.all_users;
    json_output = s.json_out;
    host = s.host;
    all_hosts = s.all_hosts;
    audit_correlation_id = corr_id;
  })

unfoldable pub parse_list_args : List String → Parse
unfolding list_finish
parse_list_args argv =
    with_correlation argv
      (λ corr_id rest. walk list_grammar list_start rest >>= list_finish corr_id)
