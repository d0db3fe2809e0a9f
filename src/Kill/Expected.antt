-- ===== src/Kill/Expected.antt =====
-- src/uxon/app/kill.py: `kill_expected`, which removes one captured session, and `kill_snapshot`,
-- which removes several.
use uxon.Prelude.{
  String, Bool, true, false, not, Option, none, some, List, [], ◌∷◌, ◌&&◌, ◌=s◌, ◌+s◌, one_of,
  if◌then◌else◌,
}
use uxon.Session.Json.{Fields}
use uxon.Session.Identity.{SessionIdentity, matches, KillResult, is_ok}
use uxon.Launch.Record.{read_verified_record, has_text}
use uxon.Launch.Collect.{text_at}
use uxon.Kill.World.{
  Call, collected, audited, message, type_name, Outcome, gives, fails, State, Op, advance, give,
  fail_op, ◌>>=◌, ◌>>◌, refuse_op,
}
use uxon.Session.Info.{SessionInfo, identity}
use uxon.Kill.Target.{
  Env, validate_session_context, exact_identity_exists, conditional_kill, ◌or◌, label,
}
use uxon.Kill.Teardown.{CleanupResult, prepare_runtime_teardown}
use uxon.Kill.Finish.{finish_killed_session}

-- the target where no row of the snapshot is the session
abbrev pub described : SessionIdentity → SessionInfo
described expected = record {
  user = expected.user;
  name = expected.name;
  attached = "0";
  active_path = "";
  tmux_session_id = expected.session_id;
  tmux_session_created = expected.created;
  launch_nonce = expected.launch_nonce;
  socket_path = expected.socket_path;
  launch_record_verified = false;
  launch_user = "";
  execution_backend = expected.execution_backend;
  execution_fingerprint = expected.execution_fingerprint;
  agent = "";
  profile = "";
  runtime = "direct";
  runtime_kind = "direct";
  runtime_fingerprint = "";
  runtime_id = "";
  runtime_epoch = "";
  runtime_marker = "";
  runtime_resource = "";
  runtime_dir = "";
  project_slug = "";
  runtime_cgroup = "";
  exited = false;
}

-- next((row for row in rows if expected.matches(row.identity)), None), or the description
unfoldable pub row_of : SessionIdentity → List SessionInfo → SessionInfo
unfolding matches identity
row_of expected [] = described expected
row_of expected (row ∷ rows) =
    let later = row_of expected rows in if matches expected (identity row) then row else later

-- the result once the session is gone
unfoldable pub cleanup_outcome_of : SessionIdentity → Bool → CleanupResult → KillResult
cleanup_outcome_of current removed cleanup = record {
  identity = current;
  action = if removed then "killed" else "already_absent";
  cleanup_outcome = if cleanup.ok then "ok" else "error";
  error = if cleanup.ok then "" else cleanup.error +s "; launch record retained";
}

abbrev pub would_kill : SessionIdentity → KillResult
would_kill current = record {
  identity = current;
  action = "would-kill";
  cleanup_outcome = "not_run";
  error = "";
}

abbrev pub kill_failed : SessionIdentity → String → KillResult
kill_failed current error = record {
  identity = current;
  action = "failed";
  cleanup_outcome = "not_run";
  error = error;
}

-- a bool in an event
abbrev pub flag : Bool → String
flag true = "true"
flag false = "false"

-- `except`: the failure is a result
unfoldable pub settle : SessionIdentity → Outcome KillResult × State → KillResult × State
unfolding message type_name
settle current (gives result, s) = (result, s)
settle current (fails failure, s) = (kill_failed current (message failure or type_name failure), s)

unfoldable pub kill_event : Bool → Bool → Option SessionInfo × KillResult → Call
unfolding is_ok
kill_event force dry_run (target, result) = audited "session.kill" (
    ("outcome", if is_ok result then "ok" else "error")
    ∷ ("session", result.identity.name)
    ∷ ("session_id", result.identity.session_id)
    ∷ ("launch_nonce", result.identity.launch_nonce)
    ∷ ("target_user", result.identity.user)
    ∷ ("execution_backend", result.identity.execution_backend)
    ∷ ("profile", elim target [ none ↦ "" | some t ↦ t.profile ])
    ∷ ("agent", elim target [ none ↦ "" | some t ↦ t.agent ])
    ∷ ("action", result.action)
    ∷ ("cleanup_outcome", result.cleanup_outcome)
    ∷ ("force", flag force)
    ∷ ("dry_run", flag dry_run)
    ∷ (if result.error =s "" then [] else ("error", result.error) ∷ []))

module _ (env : Env) where
  -- the target with what its record says
  unfoldable pub with_record : SessionInfo → Fields → SessionInfo
  unfolding text_at
  with_record target payload = record {
    user = target.user;
    name = target.name;
    attached = target.attached;
    active_path = target.active_path;
    tmux_session_id = target.tmux_session_id;
    tmux_session_created = target.tmux_session_created;
    launch_nonce = target.launch_nonce;
    socket_path = target.socket_path;
    launch_record_verified = true;
    launch_user = text_at env.host "launch_user" payload;
    execution_backend = target.execution_backend;
    execution_fingerprint = target.execution_fingerprint;
    agent = text_at env.host "agent" payload;
    profile = text_at env.host "profile" payload;
    runtime = text_at env.host "runtime" payload;
    runtime_kind = text_at env.host "runtime_kind" payload;
    runtime_fingerprint = text_at env.host "runtime_fingerprint" payload;
    runtime_id = text_at env.host "runtime_id" payload;
    runtime_epoch = text_at env.host "runtime_epoch" payload;
    runtime_marker = target.runtime_marker;
    runtime_resource = text_at env.host "runtime_resource" payload;
    runtime_dir = text_at env.host "runtime_dir" payload;
    project_slug = text_at env.host "project_slug" payload;
    runtime_cgroup = text_at env.host "runtime_cgroup" payload;
    exited = target.exited;
  }

  -- sessions_probe.collect_session_snapshot_for_user
  unfoldable pub collect_snapshot : SessionIdentity → Op (List SessionInfo)
  collect_snapshot expected s =
      let s' =
        advance env.out (collected expected.user expected.socket_path expected.session_id) s in
      (env.sessions (env.out.reply s'.calls), s')

  -- the record of the captured session
  unfoldable pub captured_record : SessionIdentity → Op (Option Fields)
  unfolding read_verified_record
  captured_record expected s = (
    gives (
        read_verified_record env.json env.host env.process env.cfg.shared_records true expected.user
          expected.socket_path
          (record {
            session_id = expected.session_id;
            created = expected.created;
            name = expected.name;
            launch_nonce = expected.launch_nonce;
          })
          s.store),
    s,
  )

  -- the record names the same user and the same execution backend
  unfoldable pub same_execution : SessionIdentity → Fields → Bool
  unfolding has_text
  same_execution expected payload =
      has_text "launch_user" expected.user payload
      && has_text "execution_backend" expected.execution_backend payload
      && has_text "execution_fingerprint" expected.execution_fingerprint payload

  unfoldable pub target_with : Bool → SessionIdentity → SessionInfo → Option Fields → Op SessionInfo
  unfolding same_execution with_record
  target_with require_nonce expected target none =
      if require_nonce
      then fail_op 1 (
          "cannot safely remove "
          +s label env.py target.name expected.session_id
          +s ": the authoritative launch record is unavailable; drain older sessions before upgrading or remove them explicitly with tmux")
      else give target
  target_with require_nonce expected target (some payload) =
      if same_execution expected payload
      then give (with_record target payload)
      else fail_op 1 "protected launch record has a different execution identity"

  -- _target_for_identity
  unfoldable pub target_for_identity : Bool → SessionIdentity → Op SessionInfo
  unfolding validate_session_context collect_snapshot captured_record row_of target_with
  target_for_identity require_nonce expected = do
    validate_session_context env require_nonce expected
    rows ← collect_snapshot expected
    payload ← captured_record expected
    target_with require_nonce expected (row_of expected rows) payload

  -- `allowed_users is not None and expected.user not in allowed_users`
  abbrev outside_scope : Option (List String) → String → Bool
  outside_scope none user = false
  outside_scope (some users) user = not (one_of user users)

  unfoldable pub find_target : Option (List String) → SessionIdentity → Op SessionInfo
  unfolding target_for_identity
  find_target allowed_users expected = do
    refuse_op (outside_scope allowed_users expected.user) 1
        ("target user " +s env.py.repr expected.user +s " is outside the permitted action scope")
    target_for_identity true expected

  unfoldable pub unless_still : Bool × String → Bool → Op Bool
  unless_still answer true = fail_op 1 (answer.1 or "the exact selected session is still alive")
  unless_still answer false = give answer.0

  unfoldable pub remove_found : SessionIdentity → Bool → Op Bool
  unfolding exact_identity_exists conditional_kill unless_still
  remove_found current false = give false
  remove_found current true = do
    answer ← conditional_kill env current
    still ← exact_identity_exists env true current
    unless_still answer still

  -- whether the session was removed here: it is there, and then it is not
  unfoldable pub remove_session : SessionIdentity → Op Bool
  unfolding exact_identity_exists remove_found
  remove_session current = do
    exists ← exact_identity_exists env true current
    remove_found current exists

  -- the `try` block, from the target on
  unfoldable pub kill_target : Bool → SessionInfo → Op KillResult
  unfolding identity prepare_runtime_teardown remove_session finish_killed_session
      cleanup_outcome_of
  kill_target true target = give (would_kill (identity target))
  kill_target false target = do
    teardown ← prepare_runtime_teardown env target
    removed ← remove_session (identity target)
    cleanup ← finish_killed_session env target teardown (identity target).user
    give (cleanup_outcome_of (identity target) removed cleanup)

  abbrev pub settle_target :
      Bool
      → SessionIdentity
      → Outcome SessionInfo × State
      → (Option SessionInfo × KillResult) × State
  settle_target dry_run expected (gives target, s) =
      let (result, s') = settle (identity target) (kill_target dry_run target s) in
      ((some target, result), s')
  settle_target dry_run expected (fails failure, s) =
      let (result, s') = settle expected (fails failure, s) in ((none, result), s')

  -- nothing is raised: a failure is a result
  unfoldable pub kill_expected :
      Bool → Bool → Option (List String) → SessionIdentity → State → KillResult × State
  unfolding find_target kill_target settle kill_event
  kill_expected force dry_run allowed_users expected s =
      let (outcome, s') = settle_target dry_run expected (find_target allowed_users expected s) in
      (outcome.1, advance env.out (kill_event force dry_run outcome) s')
