-- ===== src/Kill/Remote/Believed.antt =====
-- When `remote_kill_expected` of src/uxon/app/kill.py reports a success.
use uxon.Prelude.{
  ◌≡◌, refl, inl, inr, String, Bool, true, false, not, Option, none, some, ◌&&◌, ◌=s◌, ◌+s◌,
  Bool-cases, if◌then◌else◌,
}
use uxon.Session.Json.{Json, str, obj, raw, Fields, get, Decoded, value, malformed}
use uxon.Session.Identity.{SessionIdentity, KillResult, is_ok}
use uxon.Launch.Record.{has_text}
use uxon.Cli.Peer.{Shell}
use uxon.Kill.World.{Completed}
use uxon.Kill.Target.{Env}
use uxon.Kill.Expected.{kill_failed}
use uxon.Kill.Remote.{
  response_is_valid, Response, answered, invalid, read_payload, read_response, checked_exit,
  from_response, result_of_reply,
}

-- the response is an object, of the schema and the kind that are expected, about this session
abbrev pub IsAnswer : SessionIdentity → Decoded → Type 0
IsAnswer expected decoded =
    (env : Fields) × (payload : Fields) × (decoded ≡ value (obj env))
    × (has_text "schema_version" "3" env ≡ true)
    × (has_text "kind" "kill" env ≡ true)
    × (get "data" env ≡ some (obj payload))
    × (has_text "session_id" expected.session_id payload ≡ true)
    × (has_text "launch_nonce" expected.launch_nonce payload ≡ true)
    × (has_text "target_user" expected.user payload ≡ true)

both : (a b : Bool) → (a && b) ≡ true → (a ≡ true) × (b ≡ true)
both true b h = (refl, h)
both false b h = cc

about_session :
    (expected : SessionIdentity) (payload : Fields)
    → response_is_valid expected payload ≡ true
    → (has_text "session_id" expected.session_id payload ≡ true)
      × (has_text "launch_nonce" expected.launch_nonce payload ≡ true)
      × (has_text "target_user" expected.user payload ≡ true)
unfolding response_is_valid
about_session expected payload h =
    let (h, error) = both _ _ h in
    let (h, name) = both _ _ h in
    let (h, outcome) = both _ _ h in
    let (h, action) = both _ _ h in
    let (h, user) = both _ _ h in let (session_id, nonce) = both _ _ h in (session_id, nonce, user)

read_payload-answered :
    (expected : SessionIdentity) (good : Bool) (found : Option Json) (r : KillResult)
    → read_payload expected good found ≡ answered r
    → (good ≡ true)
      × (payload : Fields) × (found ≡ some (obj payload))
      × (response_is_valid expected payload ≡ true)
read_payload-answered expected good none r h = cc
read_payload-answered expected good (some (str s)) r h = cc
read_payload-answered expected good (some (raw s)) r h = cc
read_payload-answered expected good (some (obj payload)) r h =
    elim (Bool-cases (good && response_is_valid expected payload)) [
      | inl is ↦ let (is_good, valid) = both good _ is in (is_good, payload, refl, valid)
      | inr is_not ↦
          let bad : invalid "unexpected response identity or outcome" ≡ answered r =
            rw is_not at h in
          cc
    ]

read_response-answered :
    (expected : SessionIdentity) (decoded : Decoded) (r : KillResult)
    → read_response expected decoded ≡ answered r
    → IsAnswer expected decoded
unfolding read_response
read_response-answered expected (malformed msg) r h = cc
read_response-answered expected (value (str s)) r h = cc
read_response-answered expected (value (raw s)) r h = cc
read_response-answered expected (value (obj env)) r h =
    let (good, payload, found, valid) = read_payload-answered expected _ (get "data" env) r h in
    let (schema, kind) = both _ _ good in
    let (session_id, nonce, user) = about_session expected payload valid in
    (env, payload, refl, schema, kind, found, session_id, nonce, user)

code_checked :
    (expected : SessionIdentity) (code : String) (zero fine : Bool) (r : KillResult)
    → is_ok r ≡ fine
    → is_ok (if not zero && fine then kill_failed expected ("ssh exited " +s code) else r) ≡ true
    → zero ≡ true
unfolding is_ok
code_checked expected code true fine r e h = refl
code_checked expected code false true r e h = cc
code_checked expected code false false r e h = cc

checked_exit-ok :
    (expected : SessionIdentity) (code : String) (r : KillResult)
    → is_ok (checked_exit expected code r) ≡ true
    → (code =s "0") ≡ true
unfolding checked_exit
checked_exit-ok expected code r h = code_checked expected code (code =s "0") (is_ok r) r refl h

module _ (env : Env) (shell : Shell) (multiplexed : Bool) (expected : SessionIdentity)
    (cp : Completed) where
  from_response-ok :
      (response : Response)
      → is_ok (from_response env shell multiplexed expected cp response) ≡ true
      → ((cp.returncode =s "0") ≡ true) × (r : KillResult) × (response ≡ answered r)
  unfolding from_response is_ok
  from_response-ok (answered r) h = (checked_exit-ok expected cp.returncode r h, r, refl)
  from_response-ok (invalid why) h = cc

  -- A reply to a removal on another host is reported as a success only where the remote command ended
  -- with code 0 and its output is an object of the expected schema and kind, whose data names the
  -- session's id, its nonce and its user.
  pub result_of_reply-IsAnswer :
      is_ok (result_of_reply env shell multiplexed expected cp) ≡ true
      → ((cp.returncode =s "0") ≡ true) × IsAnswer expected (env.json.loads cp.stdout)
  unfolding result_of_reply
  result_of_reply-IsAnswer h =
      let (code, r, e) = from_response-ok (read_response expected (env.json.loads cp.stdout)) h in
      (code, read_response-answered expected (env.json.loads cp.stdout) r e)
