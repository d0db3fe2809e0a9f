-- ===== src/Kill/Finish.antt =====
-- src/uxon/app/kill.py: what is left to do once the session is gone, the workload and the record.
use uxon.Prelude.{
  String, Bool, true, false, not, Option, none, some, List, [], ◌∷◌, ◌&&◌, ◌=s◌, ◌+s◌, all,
  if◌then◌else◌,
}
use uxon.Session.Json.{str, Fields, get}
use uxon.Launch.Directory.{Answer, returns, exits, not_unlinked}
use uxon.Launch.Record.{
  TmuxSessionMetadata, read_verified_record, record_is_absent, delete_verified_record,
}
use uxon.Kill.World.{
  deleted, exited, message, Outcome, gives, fails, State, Op, advance, give, fail_op, lift, ◌>>=◌,
  ◌>>◌, rescue,
}
use uxon.Session.Info.{SessionInfo, identity}
use uxon.Kill.Target.{exact_identity_exists, Env}
use uxon.Kill.Teardown.{
  CleanupResult, refused, cleaned, Preparation, nothing, prepared, skipped, run_runtime_teardown,
}

unfoldable pub metadata_of : SessionInfo → TmuxSessionMetadata
metadata_of target = record {
  session_id = target.tmux_session_id;
  created = target.tmux_session_created;
  name = target.name;
  launch_nonce = target.launch_nonce;
}

-- record.get(key, "") == value
unfoldable pub field_is : Fields → String × String → Bool
unfolding get
field_is payload (key, value) = elim (get key payload) [
  | none ↦ "" =s value
  | some (str s) ↦ s =s value
  | some other ↦ false
]

-- what the record must still say of the target
abbrev pub expected_fields : SessionInfo → List (String × String)
expected_fields target =
    ("launch_user", target.launch_user)
    ∷ ("execution_backend", target.execution_backend)
    ∷ ("execution_fingerprint", target.execution_fingerprint)
    ∷ ("runtime", target.runtime)
    ∷ ("runtime_kind", target.runtime_kind)
    ∷ ("runtime_fingerprint", target.runtime_fingerprint)
    ∷ ("runtime_resource", target.runtime_resource)
    ∷ ("runtime_dir", target.runtime_dir)
    ∷ ("project_slug", target.project_slug)
    ∷ ("runtime_id", target.runtime_id)
    ∷ ("runtime_epoch", target.runtime_epoch)
    ∷ ("profile", target.profile)
    ∷ ("agent", target.agent)
    ∷ []

unfoldable pub record_agrees : SessionInfo → Fields → Bool
unfolding field_is
record_agrees target payload = all (field_is payload) (expected_fields target)

module _ (env : Env) where
  -- the record as it is now
  unfoldable pub record_now : SessionInfo → State → Option Fields
  unfolding read_verified_record metadata_of
  record_now target s =
      read_verified_record env.json env.host env.process env.cfg.shared_records true target.user
        target.socket_path (metadata_of target) s.store

  -- the failure of `fail` in `delete_verified_record`, with its text; it has no other
  abbrev pub outcome_of_removal : Answer Bool → Outcome Bool
  outcome_of_removal (returns removed) = gives removed
  outcome_of_removal (exits (not_unlinked text)) =
      fails (exited 2 ("unable to remove finalized launch record: " +s text))
  outcome_of_removal other = fails (exited 2 "")

  -- the record is removed in one step with its reading; the call is recorded in either case
  unfoldable pub delete_record : SessionInfo → String → Op Bool
  unfolding delete_verified_record metadata_of
  delete_record target socket_path s =
      let (removed, store) =
        delete_verified_record env.json env.host env.process env.cfg.shared_records target.user
          socket_path (metadata_of target) s.store in
      (
        outcome_of_removal removed,
        advance env.out (deleted socket_path target.tmux_session_id target.launch_nonce)
            (record { calls = s.calls; store = store }),
      )

  unfoldable pub cleanup_launch_record : SessionInfo → Op (Unit {0})
  unfolding delete_record
  cleanup_launch_record target = if not target.launch_record_verified then give tt else do
    socket_path ← lift (env.cfg.socket_path target.user)
    removed ← delete_record target socket_path
    if removed
        then give tt
        else fail_op 2 ("unable to verify launch record cleanup for " +s env.py.repr target.name)

  -- the last `try` block
  unfoldable pub stop_and_clean : SessionInfo → Preparation → String → Op CleanupResult
  unfolding run_runtime_teardown cleanup_launch_record
  stop_and_clean target (prepared teardown) target_user = do
    result ← run_runtime_teardown env teardown target_user target.name
    if not result.ok then give result else do cleanup_launch_record target; give cleaned
  stop_and_clean target other target_user = do cleanup_launch_record target; give cleaned

  abbrev pub no_teardown : Preparation → Bool
  no_teardown nothing = true
  no_teardown other = false

  -- another client has cleaned up a session without a runtime
  unfoldable pub already_cleaned : SessionInfo → Preparation → State → Bool
  unfolding record_is_absent metadata_of
  already_cleaned target teardown s =
      no_teardown teardown
      && target.runtime =s "direct"
      && target.runtime_kind =s "direct"
      && record_is_absent env.json env.host env.process env.cfg.shared_records target.user
          target.socket_path (metadata_of target) s.store

  -- what follows once the record is known to agree
  unfoldable pub complete : SessionInfo → Preparation → String → Op CleanupResult
  unfolding stop_and_clean message
  complete target (skipped result) target_user = give result
  complete target teardown target_user =
      rescue (stop_and_clean target teardown target_user)
        λ failure. give (refused (message failure))

  abbrev pub record_changed : String
  record_changed = "protected launch record changed or cannot be verified; cleanup refused"

  -- from what the record is now
  unfoldable pub complete_if_same :
      SessionInfo → Preparation → String → Option Fields → Op CleanupResult
  unfolding already_cleaned record_agrees complete
  complete_if_same target teardown target_user none s =
      if already_cleaned target teardown s
      then (gives cleaned, s)
      else (gives (refused record_changed), s)
  complete_if_same target teardown target_user (some payload) s =
      if record_agrees target payload
      then complete target teardown target_user s
      else (gives (refused record_changed), s)

  -- from whether the session is still there
  unfoldable pub finish_if_gone : SessionInfo → Preparation → String → Bool → Op CleanupResult
  unfolding record_now complete_if_same complete
  finish_if_gone target teardown target_user true s =
      (gives (refused "exact selected session still exists; cleanup refused"), s)
  finish_if_gone target teardown target_user false s =
      if target.launch_record_verified
      then complete_if_same target teardown target_user (record_now target s) s
      else complete target teardown target_user s

  unfoldable pub finish_after :
      SessionInfo → Preparation → String → Outcome Bool × State → Outcome CleanupResult × State
  unfolding finish_if_gone message
  finish_after target teardown target_user (gives exists, s) =
      finish_if_gone target teardown target_user exists s
  finish_after target teardown target_user (fails failure, s) =
      (gives (refused ("cannot prove terminal removal: " +s message failure)), s)

  unfoldable pub finish_killed_session : SessionInfo → Preparation → String → Op CleanupResult
  unfolding exact_identity_exists finish_after identity
  finish_killed_session target teardown target_user s =
      finish_after target teardown target_user (exact_identity_exists env true (identity target) s)
