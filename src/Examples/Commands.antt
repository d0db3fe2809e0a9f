-- ===== src/Examples/Commands.antt =====
-- Command lines at concrete inputs. The JSON library, the quoting and the splitting are functions
-- that do what the real ones do on these inputs.
use uxon.Prelude.{◌≡◌, refl, true, false, none, some, [], ◌∷◌, ok, ◌=s◌, String, if◌then◌else◌}
use uxon.Session.Json.{obj, value, malformed, JsonLib}
use uxon.Session.Identity.{SessionIdentity, as_dict, to_json, from_json, invalid_fields}
use uxon.Session.Identity.RoundTrip.{from_json-to_json}
use uxon.Cli.Listing.{parse_list_args, list_grammar}
use uxon.Cli.Walk.{walk}
use uxon.Cli.Args.{ParsedArgs, args_for}
use uxon.Cli.Correlation.{matches_uuid, classify, other, extract_correlation_id, correlation_flag}
use uxon.Cli.Correlation.Extraction.{MatchesUuid?, HasNoFlag, extract_correlation_id-clean}
use uxon.Cli.Common.{Library}
use uxon.Cli.Dispatch.{parse_args}
use uxon.Cli.Dispatch.Sound.{parse_args-IsConsistent}
use uxon.Cli.Consistency.{IsConsistent}
use uxon.Cli.Peer.{Shell, kill_parts, remote_kill_command}
use uxon.Cli.Peer.RoundTrip.{argv_of, kill_request, kill_round_trip}

abbrev session : SessionIdentity
session = record {
  user = "ann";
  name = "ann-uxon";
  session_id = "$3";
  created = "1700000000";
  launch_nonce = "0123456789abcdef";
  socket_path = "/tmp/tmux-1000/default";
  execution_backend = "local";
  execution_fingerprint = "local";
}

-- the text of the session as JSON
abbrev text : String
text = "{\"user\": \"ann\"}"

abbrev json : JsonLib
json = record {
  loads = λ t. if t =s text then value (obj (as_dict session)) else malformed "no JSON";
  dumps = λ v. text;
}

abbrev library : Library
library = record { json = json; repr = λ t. t }

abbrev uid : String
uid = "123e4567-e89b-42d3-a456-426614174000"

abbrev kill_shell : Shell
kill_shell = record {
  quote = λ t. t;
  split = λ t. kill_parts json "uxon" "ann-uxon" "ann" (some session) uid true;
}

valid : invalid_fields true session ≡ []
unfolding invalid_fields
valid = refl

uid_is_uuid : matches_uuid uid ≡ true
unfolding matches_uuid
uid_is_uuid = refl

plain_user : classify "ann" ≡ other
unfolding classify
plain_user = refl

plain_json : classify (to_json json session) ≡ other
unfolding classify to_json
plain_json = refl

from_json-to_json_example : from_json json (λ t. t) (to_json json session) true ≡ ok session
from_json-to_json_example = from_json-to_json json (λ t. t) true session refl valid

kill_round_trip_example :
    parse_args library false "usage"
      (argv_of (
        kill_shell.split
          (remote_kill_command kill_shell json "uxon" "ann-uxon" "ann" (some session) uid true)))
      none
    ≡ (ok (kill_request "ann-uxon" "ann" session uid), some uid)
kill_round_trip_example =
    kill_round_trip library false "usage" kill_shell "uxon" "ann-uxon" "ann" session uid none refl
      refl valid uid_is_uuid plain_user plain_json

abbrev listed : ParsedArgs
listed = let args = args_for "list" in record args { json_output = true; all_hosts = true }

listed_parse :
    (parse_args library true "usage" ("list" ∷ "--json" ∷ "--all-hosts" ∷ []) none).0 ≡ ok listed
unfolding parse_args parse_list_args walk extract_correlation_id classify list_grammar
listed_parse = refl

parse_args-IsConsistent_example : IsConsistent listed
parse_args-IsConsistent_example =
    parse_args-IsConsistent library true "usage" ("list" ∷ "--json" ∷ "--all-hosts" ∷ []) none
      listed listed_parse

extract_correlation_id-clean_example :
    MatchesUuid? (extract_correlation_id ("list" ∷ correlation_flag ∷ uid ∷ [])).0
    × HasNoFlag (extract_correlation_id ("list" ∷ correlation_flag ∷ uid ∷ [])).1
extract_correlation_id-clean_example =
    extract_correlation_id-clean ("list" ∷ correlation_flag ∷ uid ∷ [])

-- a line feed behind the id is accepted as part of it
trailing_line_feed : matches_uuid "123e4567-e89b-42d3-a456-426614174000\n" ≡ true
unfolding matches_uuid
trailing_line_feed = refl

no_flag : HasNoFlag ("list" ∷ "--json" ∷ [])
unfolding classify
no_flag = (refl, (refl, tt))
