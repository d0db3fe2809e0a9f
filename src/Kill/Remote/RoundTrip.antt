-- ===== src/Kill/Remote/RoundTrip.antt =====
-- What one host's `kill --json` prints, as `remote_kill_expected` of another reads it.
use uxon.Prelude.{
  ◌≡◌, refl, sym, ap, ◌∙◌, ◌≢◌, subst, inl, inr, String, Bool, true, false, Option, List, ◌&&◌,
  ◌+s◌, truthy, Bool-cases, if◌then◌else◌,
}
use text.Mathlib.TextEquality.{eq_iff}
use text.Mathlib.TextLemmas.{append-ne-nil_of_right_ne-nil}
use uxon.Session.Json.{Json, obj, get, get_str, value}
use uxon.Session.Identity.{SessionIdentity, matches, KillResult, is_ok}
use uxon.Launch.Record.{has_text, is_filled}
use uxon.Launch.Record.Reloaded.{same_text_here}
use uxon.Launch.Collect.Batch.{differs}
use uxon.Cli.Peer.{Shell}
use uxon.Kill.World.{Completed, State}
use uxon.Kill.Target.{Env}
use uxon.Kill.Expected.{kill_failed, cleanup_outcome_of, kill_expected}
use uxon.Kill.Report.{HasForm, IsReport, kill_expected-IsReport}
use uxon.Kill.Remote.{
  with_name, to_dict, put, kill_payload, kill_envelope, has_one_of, error_of, response_is_valid,
  result_of, answered, read_response, checked_exit, from_response, result_of_reply,
}

append-truthy : (a b : String) → truthy b ≡ true → truthy (a +s b) ≡ true
append-truthy a b h =
    let filled : b ≢ "" = λ is. let bad : false ≡ true = subst (λ t. truthy t ≡ true) is h in cc in
    rw (differs (a +s b) "" (append-ne-nil_of_right_ne-nil a filled)) refl

and_split : (a b : Bool) → (a && b) ≡ true → (a ≡ true) × (b ≡ true)
and_split true b h = (refl, h)
and_split false b h = cc

-- the identity that matches is the captured one under its own name
matches-with_name :
    (expected current : SessionIdentity)
    → matches expected current ≡ true
    → current ≡ with_name expected current.name
unfolding matches
matches-with_name expected current h =
    let (h, fingerprint) = and_split _ _ h in
    let (h, backend) = and_split _ _ h in
    let (h, socket) = and_split _ _ h in
    let (h, nonce) = and_split _ _ h in
    let (h, created) = and_split _ _ h in
    let (user, session_id) = and_split _ _ h in
    let user : expected.user ≡ current.user = (eq_iff _ _).0 user in
    let session_id : expected.session_id ≡ current.session_id = (eq_iff _ _).0 session_id in
    let created : expected.created ≡ current.created = (eq_iff _ _).0 created in
    let nonce : expected.launch_nonce ≡ current.launch_nonce = (eq_iff _ _).0 nonce in
    let socket : expected.socket_path ≡ current.socket_path = (eq_iff _ _).0 socket in
    let backend : expected.execution_backend ≡ current.execution_backend = (eq_iff _ _).0 backend in
    let fingerprint : expected.execution_fingerprint ≡ current.execution_fingerprint =
      (eq_iff _ _).0 fingerprint in
    sym λ i. record {
      user = user i;
      name = current.name;
      session_id = session_id i;
      created = created i;
      launch_nonce = nonce i;
      socket_path = socket i;
      execution_backend = backend i;
      execution_fingerprint = fingerprint i;
    }

-- a printed result that the initiator takes for an answer, and reads as it was
IsAccepted : SessionIdentity → (Bool → Json) → String → KillResult → Type 0
unfolding kill_payload response_is_valid result_of
IsAccepted expected bool socket r =
    (response_is_valid expected (kill_payload bool socket expected.user false r) ≡ true)
    × (result_of expected (kill_payload bool socket expected.user false r) ≡ r)

module _ (expected : SessionIdentity) (bool : Bool → Json) (socket name : String)
    (named : truthy name ≡ true) where
  failed-IsAccepted :
      (error : String)
      → truthy error ≡ true
      → IsAccepted expected bool socket (kill_failed (with_name expected name) error)
  unfolding IsAccepted kill_payload to_dict put response_is_valid result_of has_one_of error_of
      has_text is_filled get_str get
  failed-IsAccepted error h = (
    rw
        (
          response_is_valid,
          named,
          h,
          same_text_here expected.session_id,
          same_text_here expected.launch_nonce,
          same_text_here expected.user,
        )
        refl,
    refl,
  )

  removed-IsAccepted :
      (removed ok : Bool) (error : String)
      → IsAccepted expected bool socket
          (cleanup_outcome_of (with_name expected name) removed (record { ok = ok; error = error }))
  unfolding IsAccepted kill_payload to_dict put response_is_valid result_of has_one_of error_of
      has_text is_filled get_str get cleanup_outcome_of
  removed-IsAccepted true true error = (
    rw
        (
          response_is_valid,
          named,
          same_text_here expected.session_id,
          same_text_here expected.launch_nonce,
          same_text_here expected.user,
        )
        refl,
    refl,
  )
  removed-IsAccepted false true error = (
    rw
        (
          response_is_valid,
          named,
          same_text_here expected.session_id,
          same_text_here expected.launch_nonce,
          same_text_here expected.user,
        )
        refl,
    refl,
  )
  removed-IsAccepted true false error = (
    rw
        (
          response_is_valid,
          named,
          same_text_here expected.session_id,
          same_text_here expected.launch_nonce,
          same_text_here expected.user,
          append-truthy error "; launch record retained" refl,
        )
        refl,
    refl,
  )
  removed-IsAccepted false false error = (
    rw
        (
          response_is_valid,
          named,
          same_text_here expected.session_id,
          same_text_here expected.launch_nonce,
          same_text_here expected.user,
          append-truthy error "; launch record retained" refl,
        )
        refl,
    refl,
  )

-- what the return code of `do_kill` says of the result
abbrev pub exit_code : KillResult → String
exit_code r = if is_ok r then "0" else "1"

form-IsAccepted :
    (expected : SessionIdentity) (bool : Bool → Json) (socket name : String) (r : KillResult)
    → truthy name ≡ true
    → HasForm false (with_name expected name) r
    → IsAccepted expected bool socket r
form-IsAccepted expected bool socket name r named (inl (dry, e)) = cc
form-IsAccepted expected bool socket name r named (inr (inl (error, h, e))) =
    subst (IsAccepted expected bool socket) (sym e)
      (failed-IsAccepted expected bool socket name named error h)
form-IsAccepted expected bool socket name r named (inr (inr (removed, cleanup, e))) =
    subst (IsAccepted expected bool socket) (sym e)
      (removed-IsAccepted expected bool socket name named removed cleanup.ok cleanup.error)

form-identity :
    (current : SessionIdentity) (r : KillResult) → HasForm false current r → r.identity ≡ current
unfolding cleanup_outcome_of
form-identity current r (inl (dry, e)) = cc
form-identity current r (inr (inl (error, h, e))) = ap (λ x. x.identity) e
form-identity current r (inr (inr (removed, cleanup, e))) = ap (λ x. x.identity) e

report-IsAccepted :
    (expected : SessionIdentity) (bool : Bool → Json) (socket : String) (r : KillResult)
    → IsReport false expected r
    → truthy r.identity.name ≡ true
    → IsAccepted expected bool socket r
report-IsAccepted expected bool socket r (current, m, form) named =
    let is_current : r.identity ≡ current = form-identity current r form in
    let same : current ≡ with_name expected r.identity.name =
      matches-with_name expected current m ∙ ap (λ i. with_name expected i.name) (sym is_current) in
    form-IsAccepted expected bool socket r.identity.name r named
      (subst (λ c. HasForm false c r) same form)

checked_exit-code :
    (expected : SessionIdentity) (r : KillResult) → checked_exit expected (exit_code r) r ≡ r
unfolding checked_exit
checked_exit-code expected r = elim (Bool-cases (is_ok r)) [
  | inl is ↦ rw is refl
  | inr is_not ↦ rw is_not refl
]

reply-IsAccepted :
    (here : Env) (shell : Shell) (multiplexed : Bool) (expected : SessionIdentity)
    (bool : Bool → Json) (socket uxon_version : String) (r : KillResult) (cp : Completed)
    → IsAccepted expected bool socket r
    → here.json.loads cp.stdout
      ≡ value (obj (kill_envelope uxon_version (kill_payload bool socket expected.user false r)))
    → cp.returncode ≡ exit_code r
    → result_of_reply here shell multiplexed expected cp ≡ r
unfolding result_of_reply from_response read_response kill_envelope get has_text get_str IsAccepted
reply-IsAccepted here shell multiplexed expected bool socket uxon_version r cp (valid, exact)
      printed code =
    let payload = kill_payload bool socket expected.user false r in
    let opened : read_response expected (value (obj (kill_envelope uxon_version payload)))
        ≡ answered r =
      rw valid (ap answered exact) in
    ap (from_response here shell multiplexed expected cp)
      (ap (read_response expected) printed ∙ opened)
    ∙ ap (λ c. checked_exit expected c r) code
    ∙ checked_exit-code expected r

-- A result that one host's `kill_expected` gives, not in a dry run, and that its `kill --json` prints
-- in an envelope and with its return code, is read by `remote_kill_expected` of another host as the
-- very same result. The session must have a name, and reading the printed text as JSON must give
-- the object that was printed.
pub remote_kill-RoundTrip :
    (peer here : Env) (shell : Shell) (multiplexed force : Bool)
    (allowed_users : Option (List String)) (expected : SessionIdentity) (s : State) (cp : Completed)
    (bool : Bool → Json) (socket uxon_version : String)
    → truthy (kill_expected peer force false allowed_users expected s).0.identity.name ≡ true
    → here.json.loads cp.stdout
      ≡ value (
          obj (
            kill_envelope uxon_version (
              kill_payload bool socket expected.user false
                (kill_expected peer force false allowed_users expected s).0)))
    → cp.returncode ≡ exit_code (kill_expected peer force false allowed_users expected s).0
    → result_of_reply here shell multiplexed expected cp
      ≡ (kill_expected peer force false allowed_users expected s).0
remote_kill-RoundTrip peer here shell multiplexed force allowed_users expected s cp bool socket
      uxon_version named printed code =
    let result = (kill_expected peer force false allowed_users expected s).0 in
    let report = (kill_expected-IsReport peer force false allowed_users expected s).0 in
    reply-IsAccepted here shell multiplexed expected bool socket uxon_version result cp
      (report-IsAccepted expected bool socket result report named) printed code
