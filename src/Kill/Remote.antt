-- ===== src/Kill/Remote.antt =====
-- src/uxon/app/kill.py: the removal of a session of another host. `build_peer_ssh_argv` of
-- infra/remote/ssh_argv.py is a field of the peer.
pub mod RoundTrip
pub mod Believed
use uxon.Prelude.{
  ℕ, String, Bool, true, false, not, Option, none, some, List, [], ◌∷◌, ◌&&◌, ◌||◌, ◌=s◌, ◌+s◌,
  truthy, one_of, if◌then◌else◌,
}
use uxon.Session.Json.{Json, str, obj, Fields, end, field, get, get_str, Decoded, value, malformed}
use uxon.Session.Identity.{SessionIdentity, validate, KillResult, is_ok}
use uxon.Launch.Record.{has_text, is_filled}
use uxon.Cli.Peer.{Shell, remote_kill_command}
use uxon.Kill.World.{
  Call, sent_ssh, recovered, audited, Completed, Failure, exited, timed_out, os_error, Outcome,
  gives, fails, State, Op, advance, give, fail_op, lift, of_result, bind_to, ◌>>=◌, ◌>>◌, ask, tell,
}
use uxon.Kill.Target.{Env, ◌or◌, validated}
use uxon.Kill.Expected.{flag, would_kill, kill_failed}

-- what the code reads of a remote host
pub record Peer : Type 0 where
  pub name : String
  pub ssh_alias : String
  pub remote_uxon : String
  -- the argv that runs a command on the host
  pub ssh_argv : String → List String

unfoldable pub find_host : List Peer → String → Option Peer
find_host [] name = none
find_host (h ∷ hosts) name =
    let later = find_host hosts name in if h.name =s name then some h else later

abbrev pub with_name : SessionIdentity → String → SessionIdentity
with_name self name = record {
  user = self.user;
  name = name;
  session_id = self.session_id;
  created = self.created;
  launch_nonce = self.launch_nonce;
  socket_path = self.socket_path;
  execution_backend = self.execution_backend;
  execution_fingerprint = self.execution_fingerprint;
}

-- the property `to_dict` of a `KillResult`
unfoldable pub to_dict : KillResult → Fields
to_dict self = field "name" (str self.identity.name) (
    field "session_id" (str self.identity.session_id) (
      field "launch_nonce" (str self.identity.launch_nonce) (
        field "user" (str self.identity.user) (
          field "action" (str self.action) (
            field "cleanup_outcome" (str self.cleanup_outcome)
              (field "error" (str self.error) end))))))

-- {**payload, key: value}
unfoldable pub put : String → Json → Fields → Fields
put key v end = field key v end
put key v (field k w rest) =
    let later = put key v rest in if k =s key then field k v rest else field k w later

-- what `do_kill` prints of a result with `--json`: the payload
unfoldable pub kill_payload : (Bool → Json) → String → String → Bool → KillResult → Fields
unfolding to_dict put
kill_payload bool socket target_user dry_run result = put "dry_run" (bool dry_run) (
    put "socket" (str socket) (
      put "reachable" (bool true) (
        put "target_user" (str target_user) (
          put "user" (str target_user)
            (put "target" (str result.identity.name) (to_dict result))))))

-- the envelope around it
unfoldable pub kill_envelope : String → Fields → Fields
kill_envelope uxon_version payload = field "schema_version" (str "3") (
    field "uxon_version" (str uxon_version)
      (field "kind" (str "kill") (field "data" (obj payload) end)))

-- payload.get(key) in texts
unfoldable pub has_one_of : String → List String → Fields → Bool
unfolding get_str
has_one_of key texts payload = elim (get_str key payload) [ none ↦ false | some t ↦ one_of t texts ]

-- payload.get("error", ""), where it is a text
unfoldable pub error_of : Fields → Option String
unfolding get
error_of payload = elim (get "error" payload) [
  | none ↦ some ""
  | some (str s) ↦ some s
  | some other ↦ none
]

-- what else a response with an error text must be
abbrev outcome_agrees : Fields → String → Bool
outcome_agrees payload error =
    not (
      has_one_of "action" ("killed" ∷ "already_absent" ∷ []) payload
      && has_text "cleanup_outcome" "not_run" payload)
    && not (has_text "cleanup_outcome" "error" payload && not (truthy error))
    && not (has_text "action" "failed" payload && not (truthy error))
    && not (
        not (has_text "action" "failed" payload)
        && has_text "cleanup_outcome" "ok" payload
        && truthy error)

-- the payload is an answer to this request
unfoldable pub response_is_valid : SessionIdentity → Fields → Bool
unfolding has_one_of error_of has_text is_filled
response_is_valid expected payload =
    has_text "session_id" expected.session_id payload
    && has_text "launch_nonce" expected.launch_nonce payload
    && has_text "target_user" expected.user payload
    && has_one_of "action" ("killed" ∷ "already_absent" ∷ "failed" ∷ []) payload
    && has_one_of "cleanup_outcome" ("ok" ∷ "error" ∷ "not_run" ∷ []) payload
    && is_filled payload "name"
    && elim (error_of payload) [ none ↦ false | some error ↦ outcome_agrees payload error ]

-- the text at a key that was checked
abbrev text_of : String → Fields → String
text_of key payload = elim (get_str key payload) [ none ↦ "" | some t ↦ t ]

unfoldable pub result_of : SessionIdentity → Fields → KillResult
unfolding get_str
result_of expected payload = record {
  identity = with_name expected (text_of "name" payload);
  action = text_of "action" payload;
  cleanup_outcome = text_of "cleanup_outcome" payload;
  error = text_of "error" payload;
}

-- what the inner `try` block makes of the response: a result, or the text of what is raised
pub data Response : Type 0 where
  answered : KillResult → Response
  invalid : String → Response

abbrev unexpected : Response
unexpected = invalid "unexpected response identity or outcome"

abbrev pub read_payload : SessionIdentity → Bool → Option Json → Response
read_payload expected good none = invalid "'data'"
read_payload expected good (some (obj payload)) =
    if good && response_is_valid expected payload
    then answered (result_of expected payload)
    else unexpected
read_payload expected good (some other) = unexpected

unfoldable pub read_response : SessionIdentity → Decoded → Response
unfolding get has_text response_is_valid result_of
read_response expected (malformed msg) = invalid msg
read_response expected (value (obj env)) =
    read_payload expected (has_text "schema_version" "3" env && has_text "kind" "kill" env)
      (get "data" env)
read_response expected (value other) = invalid "response is not an object"

-- an exit code other than 0 contradicts a success
unfoldable pub checked_exit : SessionIdentity → String → KillResult → KillResult
unfolding is_ok
checked_exit expected returncode result =
    if not (returncode =s "0") && is_ok result
    then kill_failed expected ("ssh exited " +s returncode)
    else result

module _ (env : Env) (shell : Shell) (multiplexed : Bool) where
  unfoldable pub from_response : SessionIdentity → Completed → Response → KillResult
  unfolding checked_exit
  from_response expected cp (answered result) = checked_exit expected cp.returncode result
  from_response expected cp (invalid why) =
      kill_failed expected
        ("invalid conditional-kill response: " +s (env.py.strip cp.stderr or why))

  unfoldable pub result_of_reply : SessionIdentity → Completed → KillResult
  unfolding read_response from_response
  result_of_reply expected cp =
      from_response expected cp (read_response expected (env.json.loads cp.stdout))

  unfoldable pub remote_kill_argv : Peer → SessionIdentity → String → List String
  unfolding remote_kill_command
  remote_kill_argv peer expected corr_id = peer.ssh_argv (
      remote_kill_command shell env.json peer.remote_uxon expected.name expected.user
        (some expected) corr_id true)

  -- the result and the return code of a query; a timeout may have left a master that is stuck
  unfoldable pub settle_remote :
      String → SessionIdentity → Outcome Completed × State → Outcome (KillResult × String) × State
  unfolding result_of_reply
  settle_remote host expected (gives cp, s) =
      (gives (result_of_reply expected cp, cp.returncode), s)
  settle_remote host expected (fails (exited code msg), s) = (fails (exited code msg), s)
  settle_remote host expected (fails (timed_out msg), s) = (
    gives (kill_failed expected ("ssh timeout after 10s talking to " +s host), "124"),
    (if multiplexed then advance env.out recovered s else s),
  )
  settle_remote host expected (fails (os_error error msg), s) =
      (gives (kill_failed expected ("ssh unavailable: " +s msg), "127"), s)

  unfoldable pub ask_peer :
      Peer → String → Bool → SessionIdentity → String → Op (KillResult × String)
  unfolding remote_kill_argv settle_remote
  ask_peer peer host dry_run expected corr_id s =
      let answer =
        settle_remote host expected
          (ask env.out (sent_ssh (remote_kill_argv peer expected corr_id)) s) in
      if dry_run then (gives (would_kill expected, "0"), s) else answer

  unfoldable pub remote_kill_event :
      Peer → SessionIdentity → Bool → String → KillResult → String → Call
  unfolding is_ok
  remote_kill_event peer expected dry_run corr_id result rc = audited "kill.remote.out" (
      ("outcome", if is_ok result then "ok" else "error")
      ∷ ("peer_name", peer.name)
      ∷ ("ssh_alias", peer.ssh_alias)
      ∷ ("target_user", expected.user)
      ∷ ("target_session", result.identity.name)
      ∷ ("session_id", expected.session_id)
      ∷ ("launch_nonce", expected.launch_nonce)
      ∷ ("execution_backend", expected.execution_backend)
      ∷ ("force", "true")
      ∷ ("dry_run", flag dry_run)
      ∷ ("correlation_id", corr_id)
      ∷ ("rc", rc)
      ∷ ("action", result.action)
      ∷ ("cleanup_outcome", result.cleanup_outcome)
      ∷ (if result.error =s "" then [] else ("error", result.error) ∷ []))

  unfoldable pub kill_on : Option Peer → String → Bool → SessionIdentity → String → Op KillResult
  unfolding ask_peer remote_kill_event
  kill_on none host dry_run expected corr_id = fail_op 1 ("unknown remote host: " +s host)
  kill_on (some peer) host dry_run expected corr_id = do
    answer ← ask_peer peer host dry_run expected corr_id
    tell env.out (remote_kill_event peer expected dry_run corr_id answer.0 answer.1)
    give answer.0

  -- `corr_id` is the given correlation id, or else a new one
  unfoldable pub remote_kill_expected :
      List Peer → String → Bool → SessionIdentity → String → Op KillResult
  unfolding find_host kill_on validate
  remote_kill_expected hosts host dry_run expected corr_id = do
    validated env true expected
    kill_on (find_host hosts host) host dry_run expected corr_id
