-- ===== src/Kill/Harmless.antt =====
-- The operations of src/uxon/app/kill.py that only look: what they call removes and stops nothing.
use uxon.Prelude.{◌≡◌, refl, String, Bool, true, false, Option, none, some, List, [], ◌∷◌}
use uxon.Session.Json.{Fields}
use uxon.Session.Identity.{SessionIdentity}
use uxon.Kill.World.{
  Call, queried, probed, collected, sent_kill, identified, sent_stop, deleted, sent_ssh, recovered,
  audited, Failure, exited, timed_out, os_error,
}
use uxon.Kill.World.Grows.{Emits, Traced-refl, Traced-advance, emits}
use uxon.Session.Info.{SessionInfo}
use uxon.Kill.Target.{
  Runtime, Env, validate_session_context, configured_tmux_base, exact_identity_exists,
  probe_tmux_server,
}
use uxon.Kill.Teardown.{
  RuntimeTeardown, teardown_skip, format_all, runtime_pidfile, render_teardown, render_failed,
  prepare_with, prepare_runtime_teardown, skip_stop, current_runtime_identity,
}
use uxon.Kill.Expected.{
  collect_snapshot, captured_record, target_with, target_for_identity, find_target,
}

abbrev pub harmless : Call → Bool
harmless (sent_kill argv) = false
harmless (sent_stop argv) = false
harmless (deleted socket session_id launch_nonce) = false
harmless (sent_ssh argv) = false
harmless (queried argv) = true
harmless (probed user socket) = true
harmless (collected user socket session_id) = true
harmless (identified runtime resource user) = true
harmless recovered = true
harmless (audited event fields) = true

abbrev pub IsHarmless : Call → Type 0
IsHarmless c = harmless c ≡ true

module _ (P : Call → Type 0) (weaker : (c : Call) → IsHarmless c → P c) (env : Env) where
  pub validate_session_context-Emits :
      (require_nonce : Bool) (expected : SessionIdentity)
      → Emits P (validate_session_context env require_nonce expected)
  unfolding validate_session_context
  validate_session_context-Emits require_nonce expected = search emits depth 12

  pub configured_tmux_base-Emits : (user : String) → Emits P (configured_tmux_base env user)
  unfolding configured_tmux_base
  configured_tmux_base-Emits user = search emits depth 12

  probe_tmux_server-Emits : (user socket : String) → Emits P (probe_tmux_server env user socket)
  unfolding probe_tmux_server Emits
  probe_tmux_server-Emits user socket s = Traced-advance P env.out _ s (weaker _ refl)

  pub exact_identity_exists-Emits :
      (require_nonce : Bool) (expected : SessionIdentity)
      → Emits P (exact_identity_exists env require_nonce expected)
  unfolding exact_identity_exists
  exact_identity_exists-Emits require_nonce expected =
      search
        (emits, validate_session_context-Emits, configured_tmux_base-Emits, probe_tmux_server-Emits)
        depth 12

  collect_snapshot-Emits : (expected : SessionIdentity) → Emits P (collect_snapshot env expected)
  unfolding collect_snapshot Emits
  collect_snapshot-Emits expected s = Traced-advance P env.out _ s (weaker _ refl)

  captured_record-Emits : (expected : SessionIdentity) → Emits P (captured_record env expected)
  unfolding captured_record Emits
  captured_record-Emits expected s = Traced-refl P s

  target_with-Emits :
      (require_nonce : Bool) (expected : SessionIdentity) (target : SessionInfo)
      (payload : Option Fields)
      → Emits P (target_with env require_nonce expected target payload)
  unfolding target_with
  target_with-Emits require_nonce expected target none = search emits
  target_with-Emits require_nonce expected target (some payload) = search emits

  pub target_for_identity-Emits :
      (require_nonce : Bool) (expected : SessionIdentity)
      → Emits P (target_for_identity env require_nonce expected)
  unfolding target_for_identity
  target_for_identity-Emits require_nonce expected =
      search
        (
          emits, validate_session_context-Emits, collect_snapshot-Emits, captured_record-Emits,
          target_with-Emits,
        )
        depth 12

  pub find_target-Emits :
      (allowed_users : Option (List String)) (expected : SessionIdentity)
      → Emits P (find_target env allowed_users expected)
  unfolding find_target
  find_target-Emits allowed_users expected = search (emits, target_for_identity-Emits) depth 12

  teardown_skip-Emits :
      (target : SessionInfo) (reason code runtime resource : String)
      → Emits P (teardown_skip env target reason code runtime resource)
  unfolding teardown_skip
  teardown_skip-Emits target reason code runtime resource = search emits

  format_all-Emits :
      (toks : List String) (what : String) (values : List (String × String))
      → Emits P (format_all env toks what values)
  unfolding format_all
  format_all-Emits [] what values = search emits
  format_all-Emits (tok ∷ toks) what values = search (emits, format_all-Emits toks) depth 12

  render_teardown-Emits :
      (target : SessionInfo) (profile : Runtime) → Emits P (render_teardown env target profile)
  unfolding render_teardown runtime_pidfile
  render_teardown-Emits target profile =
      search (emits, teardown_skip-Emits, format_all-Emits) depth 12

  render_failed-Emits :
      (target : SessionInfo) (failure : Failure) → Emits P (render_failed env target failure)
  render_failed-Emits target (exited code msg) = search teardown_skip-Emits
  render_failed-Emits target (timed_out msg) = search teardown_skip-Emits
  render_failed-Emits target (os_error error msg) = search teardown_skip-Emits

  prepare_with-Emits :
      (target : SessionInfo) (profile : Option Runtime) → Emits P (prepare_with env target profile)
  unfolding prepare_with
  prepare_with-Emits target none = search teardown_skip-Emits
  prepare_with-Emits target (some profile) =
      search (emits, teardown_skip-Emits, render_teardown-Emits, render_failed-Emits) depth 12

  pub prepare_runtime_teardown-Emits :
      (target : SessionInfo) → Emits P (prepare_runtime_teardown env target)
  unfolding prepare_runtime_teardown
  prepare_runtime_teardown-Emits target =
      search (emits, teardown_skip-Emits, prepare_with-Emits) depth 12

  pub skip_stop-Emits :
      (teardown : RuntimeTeardown) (user name reason code : String)
      → Emits P (skip_stop env teardown user name reason code)
  unfolding skip_stop
  skip_stop-Emits teardown user name reason code = search emits

  pub current_runtime_identity-Emits :
      (teardown : RuntimeTeardown) → Emits P (current_runtime_identity env teardown)
  unfolding current_runtime_identity Emits
  current_runtime_identity-Emits teardown s = Traced-advance P env.out _ s (weaker _ refl)
