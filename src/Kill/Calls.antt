-- ===== src/Kill/Calls.antt =====
-- What the operations of src/uxon/app/kill.py call, those that remove and stop included.
use uxon.Prelude.{refl, String, Bool, true, false, Option, none, some, List, [], ◌∷◌, if-Holds}
use uxon.Session.Json.{Fields}
use uxon.Session.Identity.{SessionIdentity}
use uxon.Kill.World.{
  Call, sent_kill, sent_stop, deleted, Failure, exited, timed_out, os_error, Outcome, gives, fails,
  State,
}
use uxon.Kill.World.Grows.{Traced, Emits, Traced-refl, Traced-trans, emits}
use uxon.Session.Info.{SessionInfo, identity}
use uxon.Kill.Target.{
  Runtime, RuntimeIdentity, Env, conditional_kill_argv, session_identity_predicate,
  guarded_session_commands, conditional_kill, unavailable, exact_identity_exists,
}
use uxon.Kill.Teardown.{
  RuntimeTeardown, Preparation, nothing, prepared, skipped, not_stopped, run_teardown,
  stop_workload, stop_if_same, run_with, run_runtime_teardown,
}
use uxon.Kill.Finish.{
  delete_record, cleanup_launch_record, stop_and_clean, complete, complete_if_same, finish_if_gone,
  finish_after, finish_killed_session, record_now, record_agrees, already_cleaned,
}
use uxon.Kill.Expected.{unless_still, remove_found, remove_session}
use uxon.Kill.Harmless.{
  IsHarmless, validate_session_context-Emits, configured_tmux_base-Emits,
  exact_identity_exists-Emits, skip_stop-Emits, current_runtime_identity-Emits,
}

module _ (P : Call → Type 0) (weaker : (c : Call) → IsHarmless c → P c) (env : Env) where
  module _ (kills : (argv : List String) → P (sent_kill argv)) where
    predicate-Emits :
        (expected : SessionIdentity) → Emits P (session_identity_predicate env expected)
    unfolding session_identity_predicate
    predicate-Emits expected = search emits depth 12

    guarded-Emits :
        (expected : SessionIdentity) (commands : String)
        → Emits P (guarded_session_commands env expected commands)
    unfolding guarded_session_commands
    guarded-Emits expected commands = search (emits, predicate-Emits) depth 12

    argv-Emits : (expected : SessionIdentity) → Emits P (conditional_kill_argv env expected)
    unfolding conditional_kill_argv
    argv-Emits expected =
        search
          (
            emits,
            validate_session_context-Emits P weaker env,
            configured_tmux_base-Emits P weaker env,
            guarded-Emits,
          )
          depth 12

    unavailable-Emits : (failure : Failure) → Emits P (unavailable env failure)
    unavailable-Emits (exited code msg) = search emits
    unavailable-Emits (timed_out msg) = search emits
    unavailable-Emits (os_error error msg) = search emits

    pub conditional_kill-Emits :
        (expected : SessionIdentity) → Emits P (conditional_kill env expected)
    unfolding conditional_kill
    conditional_kill-Emits expected = search (emits, argv-Emits, unavailable-Emits) depth 12

    unless_still-Emits :
        (answer : Bool × String) (still : Bool) → Emits P (unless_still env answer still)
    unfolding unless_still
    unless_still-Emits answer true = search emits
    unless_still-Emits answer false = search emits

    pub remove_found-Emits :
        (current : SessionIdentity) (exists : Bool) → Emits P (remove_found env current exists)
    unfolding remove_found
    remove_found-Emits current false = search emits
    remove_found-Emits current true =
        search
          (
            emits,
            exact_identity_exists-Emits P weaker env,
            conditional_kill-Emits,
            unless_still-Emits,
          )
          depth 12

    pub remove_session-Emits : (current : SessionIdentity) → Emits P (remove_session env current)
    unfolding remove_session
    remove_session-Emits current =
        search (emits, exact_identity_exists-Emits P weaker env, remove_found-Emits) depth 12

  module _ (stops : (argv : List String) → P (sent_stop argv)) where
    not_stopped-Emits :
        (stop_cmd : List String) (profile : Runtime) (failure : Failure)
        → Emits P (not_stopped env stop_cmd profile failure)
    not_stopped-Emits stop_cmd profile (exited code msg) = search emits
    not_stopped-Emits stop_cmd profile (timed_out msg) = search emits
    not_stopped-Emits stop_cmd profile (os_error error msg) = search emits

    run_teardown-Emits :
        (stop_cmd : List String) (user : String) (profile : Runtime)
        → Emits P (run_teardown env stop_cmd user profile)
    unfolding run_teardown
    run_teardown-Emits stop_cmd user profile = search (emits, not_stopped-Emits) depth 12

    stop_workload-Emits :
        (teardown : RuntimeTeardown) (profile : Runtime) (user name : String)
        → Emits P (stop_workload env teardown profile user name)
    unfolding stop_workload
    stop_workload-Emits teardown profile user name = search (emits, run_teardown-Emits) depth 12

    stop_if_same-Emits :
        (teardown : RuntimeTeardown) (profile : Runtime) (user name : String)
        (live : Option RuntimeIdentity)
        → Emits P (stop_if_same env teardown profile user name live)
    unfolding stop_if_same
    stop_if_same-Emits teardown profile user name none = search (skip_stop-Emits P weaker env)
    stop_if_same-Emits teardown profile user name (some live) =
        search (emits, skip_stop-Emits P weaker env, stop_workload-Emits) depth 12

    run_with-Emits :
        (teardown : RuntimeTeardown) (user name : String) (profile : Option Runtime)
        → Emits P (run_with env teardown user name profile)
    unfolding run_with
    run_with-Emits teardown user name none = search (skip_stop-Emits P weaker env)
    run_with-Emits teardown user name (some profile) =
        search
          (
            emits,
            skip_stop-Emits P weaker env,
            current_runtime_identity-Emits P weaker env,
            stop_if_same-Emits,
          )
          depth 12

    pub run_runtime_teardown-Emits :
        (teardown : RuntimeTeardown) (user name : String)
        → Emits P (run_runtime_teardown env teardown user name)
    unfolding run_runtime_teardown
    run_runtime_teardown-Emits teardown user name = search run_with-Emits

    module _
        (deletes : (socket session_id nonce : String) → P (deleted socket session_id nonce)) where
      delete_record-Emits :
          (target : SessionInfo) (socket : String) → Emits P (delete_record env target socket)
      unfolding delete_record Emits Traced
      delete_record-Emits target socket s = (deleted _ _ _ ∷ [], refl, (deletes _ _ _, tt))

      pub cleanup_launch_record-Emits :
          (target : SessionInfo) → Emits P (cleanup_launch_record env target)
      unfolding cleanup_launch_record
      cleanup_launch_record-Emits target = search (emits, delete_record-Emits) depth 12

      stop_and_clean-Emits :
          (target : SessionInfo) (teardown : Preparation) (user : String)
          → Emits P (stop_and_clean env target teardown user)
      unfolding stop_and_clean
      stop_and_clean-Emits target nothing user =
          search (emits, cleanup_launch_record-Emits) depth 12
      stop_and_clean-Emits target (skipped result) user =
          search (emits, cleanup_launch_record-Emits) depth 12
      stop_and_clean-Emits target (prepared teardown) user =
          search (emits, run_runtime_teardown-Emits, cleanup_launch_record-Emits) depth 12

      pub complete-Emits :
          (target : SessionInfo) (teardown : Preparation) (user : String)
          → Emits P (complete env target teardown user)
      unfolding complete
      complete-Emits target nothing user = search (emits, stop_and_clean-Emits) depth 12
      complete-Emits target (skipped result) user = search emits
      complete-Emits target (prepared teardown) user = search (emits, stop_and_clean-Emits) depth 12

      complete_if_same-Traced :
          (target : SessionInfo) (teardown : Preparation) (user : String) (payload : Option Fields)
          (s : State)
          → Traced P s (complete_if_same env target teardown user payload s).1
      unfolding complete_if_same Emits
      complete_if_same-Traced target teardown user none s =
          if-Holds (λ (r : Outcome _ × State). Traced P s r.1)
            (already_cleaned env target teardown s) (Traced-refl P s) (Traced-refl P s)
      complete_if_same-Traced target teardown user (some payload) s =
          if-Holds (λ (r : Outcome _ × State). Traced P s r.1) (record_agrees target payload)
            (complete-Emits target teardown user s) (Traced-refl P s)

      finish_if_gone-Emits :
          (target : SessionInfo) (teardown : Preparation) (user : String) (exists : Bool)
          → Emits P (finish_if_gone env target teardown user exists)
      unfolding finish_if_gone Emits
      finish_if_gone-Emits target teardown user true s = Traced-refl P s
      finish_if_gone-Emits target teardown user false s =
          if-Holds (λ (r : Outcome _ × State). Traced P s r.1) target.launch_record_verified
            (complete_if_same-Traced target teardown user (record_now env target s) s)
            (complete-Emits target teardown user s)

      finish_after-Traced :
          (target : SessionInfo) (teardown : Preparation) (user : String) (s : State)
          (r : Outcome Bool × State)
          → Traced P s r.1
          → Traced P s (finish_after env target teardown user r).1
      unfolding finish_after Emits
      finish_after-Traced target teardown user s (gives exists, t) first =
          Traced-trans P s t _ first (finish_if_gone-Emits target teardown user exists t)
      finish_after-Traced target teardown user s (fails failure, t) first = first

      pub finish_killed_session-Emits :
          (target : SessionInfo) (teardown : Preparation) (user : String)
          → Emits P (finish_killed_session env target teardown user)
      unfolding finish_killed_session Emits
      finish_killed_session-Emits target teardown user s =
          finish_after-Traced target teardown user s
            (exact_identity_exists env true (identity target) s)
            (exact_identity_exists-Emits P weaker env true (identity target) s)
