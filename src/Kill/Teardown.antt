-- ===== src/Kill/Teardown.antt =====
-- src/uxon/app/kill.py and src/uxon/domain/runtime.py: stopping the workload of a session. What is
-- printed for the user is left out.
use uxon.Prelude.{
  ℕ, String, Bool, true, false, not, Option, none, some, List, [], ◌∷◌, ◌++◌, ◌&&◌, ◌||◌, ◌=s◌,
  ◌+s◌, ◌==◌, leb, codes, length, truthy, join, map, if◌then◌else◌,
}
use uxon.Session.Identity.{is_nonce, is_nonce_char, is_digit}
use uxon.Kill.World.{
  Call, audited, identified, sent_stop, Completed, Failure, exited, timed_out, os_error, message,
  Outcome, gives, fails, Op, advance, give, fail_op, lift, ◌>>=◌, ◌>>◌, rescue, ask, tell,
}
use uxon.Session.Info.{SessionInfo}
use uxon.Kill.Target.{Runtime, formatted, missing_key, bad_template, RuntimeIdentity, Env, ◌or◌}

pub record RuntimeTeardown : Type 0 where
  pub stop_cmd : List String
  pub runtime : String
  pub resource : String
  pub runtime_id : String
  pub runtime_fingerprint : String
  pub runtime_dir : String
  pub project_slug : String
  pub launch_profile : String
  pub agent : String
  pub launch_user : String
  pub launch_epoch : String
  pub session_id : String
  pub launch_nonce : String
  pub execution_backend : String

pub record CleanupResult : Type 0 where
  pub ok : Bool
  pub error : String

abbrev pub refused : String → CleanupResult
refused why = record { ok = false; error = why }

abbrev pub cleaned : CleanupResult
cleaned = record { ok = true; error = "" }

-- RuntimeTeardownPreparation
pub data Preparation : Type 0 where
  nothing : Preparation
  prepared : RuntimeTeardown → Preparation
  skipped : CleanupResult → Preparation

abbrev is_name_start : ℕ → Bool
is_name_start c = leb 65 c && leb c 90 || leb 97 c && leb c 122 || is_digit c

-- [A-Za-z0-9_.-]*$ : a `$` also matches before a newline that ends the text
abbrev is_name_rest : List ℕ → Bool
is_name_rest [] = true
is_name_rest (c ∷ cs) =
    let rest = is_name_rest cs in (is_nonce_char c || c == 46) && rest || c == 10 && length cs == 0

abbrev matches_name : List ℕ → Bool
matches_name [] = false
matches_name (c ∷ cs) = is_name_start c && is_name_rest cs

unfoldable pub is_valid_runtime_resource : String → Bool
is_valid_runtime_resource resource =
    truthy resource && leb (length (codes resource)) 128 && matches_name (codes resource)

unfoldable pub runtime_pidfile : String → Op String
unfolding is_nonce
runtime_pidfile launch_nonce =
    if is_nonce launch_nonce
    then give ("/tmp/uxon-" +s launch_nonce +s ".pid")
    else fail_op 2 "invalid workload launch nonce"

-- the event of a stop, skipped or run
abbrev pub stop_event :
    String
    → String
    → List (String × String)
    → String
    → String
    → String
    → String
    → String
    → String
    → String
    → Call
stop_event outcome action extra runtime resource session session_id launch_nonce execution_backend
      target_user =
    audited "runtime.session_stop" (
      ("outcome", outcome)
      ∷ ("runtime", runtime)
      ∷ ("runtime_resource", resource)
      ∷ ("action", action)
      ∷ ("session", session)
      ∷ ("session_id", session_id)
      ∷ ("launch_nonce", launch_nonce)
      ∷ ("execution_backend", execution_backend)
      ∷ ("target_user", target_user)
      ∷ extra)

-- the resource is the one that was launched
abbrev pub same_runtime : RuntimeTeardown → RuntimeIdentity → Bool
same_runtime teardown live = live.id =s teardown.runtime_id && live.epoch =s teardown.launch_epoch

module _ (env : Env) where
  -- _teardown_skip with a reason code
  unfoldable pub teardown_skip : SessionInfo → String → String → String → String → Op Preparation
  teardown_skip target reason reason_code runtime resource = do
    tell env.out (
        stop_event "skipped" "skip" (("reason", reason_code) ∷ []) runtime resource target.name
          target.tmux_session_id target.launch_nonce target.execution_backend target.user)
    give (skipped (refused reason))

  -- _safe_format
  unfoldable pub safe_format : String → String → List (String × String) → Outcome String
  safe_format template what values = elim (env.py.format template values) [
    | formatted text ↦ gives text
    | missing_key name ↦ fails (
        exited 2 (
          "runtime "
          +s what
          +s " uses unsupported placeholder "
          +s env.py.repr name
          +s "; valid: "
          +s join ", " (map (λ name. "{" +s name +s "}") (env.py.sorted (map (λ v. v.0) values)))))
    | bad_template msg ↦
        fails (exited 2 ("runtime " +s what +s " is not a valid format template: " +s msg))
  ]

  -- [_safe_format(tok, what, **values) for tok in template]
  unfoldable pub format_all : List String → String → List (String × String) → Op (List String)
  unfolding safe_format
  format_all [] what values = give []
  format_all (tok ∷ toks) what values = do
    text ← lift (safe_format tok what values)
    rest ← format_all toks what values
    give (text ∷ rest)

  -- what `render_profile_template` is given to stop the session's workload
  abbrev pub stop_values : SessionInfo → Runtime → String → List (String × String)
  stop_values target profile pidfile =
      ("user", target.launch_user)
      ∷ ("launch_profile", target.profile)
      ∷ ("runtime", profile.id)
      ∷ ("agent", target.agent)
      ∷ ("project_slug", target.project_slug)
      ∷ ("resource", target.runtime_resource)
      ∷ ("runtime_dir", target.runtime_dir)
      ∷ ("pidfile", pidfile)
      ∷ []

  -- the teardown that the target's own record describes
  abbrev pub teardown_of : SessionInfo → List String → RuntimeTeardown
  teardown_of target stop_cmd = record {
    stop_cmd = stop_cmd;
    runtime = target.runtime;
    resource = target.runtime_resource;
    runtime_id = target.runtime_id;
    runtime_fingerprint = target.runtime_fingerprint;
    runtime_dir = target.runtime_dir;
    project_slug = target.project_slug;
    launch_profile = target.profile;
    agent = target.agent;
    launch_user = target.launch_user;
    launch_epoch = target.runtime_epoch;
    session_id = target.tmux_session_id;
    launch_nonce = target.launch_nonce;
    execution_backend = target.execution_backend;
  }

  abbrev skip_known : SessionInfo → String → String → Op Preparation
  skip_known target reason reason_code =
      teardown_skip target reason reason_code target.runtime target.runtime_resource

  -- the `try` block
  unfoldable pub render_teardown : SessionInfo → Runtime → Op Preparation
  unfolding teardown_skip is_valid_runtime_resource runtime_pidfile format_all
  render_teardown target profile =
      if not (is_valid_runtime_resource target.runtime_resource)
      then skip_known target "missing runtime resource" "missing_resource"
      else do
        pidfile ← runtime_pidfile target.launch_nonce
        stop_cmd ←
            format_all profile.stop_command "stop_command" (stop_values target profile pidfile)
        give (prepared (teardown_of target stop_cmd))

  abbrev pub render_failed : SessionInfo → Failure → Op Preparation
  render_failed target (exited code msg) =
      skip_known target ("invalid runtime stop configuration: " +s msg) "invalid_stop_config"
  render_failed target failure =
      skip_known target ("runtime stop preparation failed: " +s message failure) "prepare_failed"

  abbrev has_command : List String → Bool
  has_command [] = false
  has_command (c ∷ cs) = true

  -- from the profile that the runtime has now
  unfoldable pub prepare_with : SessionInfo → Option Runtime → Op Preparation
  unfolding teardown_skip render_teardown message
  prepare_with target none =
      skip_known target ("workload runtime " +s env.py.repr target.runtime +s " is unavailable")
        "missing_profile"
  prepare_with target (some profile) =
      if not (profile.fingerprint =s target.runtime_fingerprint)
      then skip_known target "workload runtime changed since launch" "fingerprint_mismatch"
      else if not (has_command profile.stop_command)
      then give nothing
      else if not (truthy target.runtime_id) || not (truthy target.runtime_epoch)
      then skip_known target "missing runtime resource identity" "identity_unresolved"
      else rescue (render_teardown target profile) (render_failed target)

  unfoldable pub prepare_runtime_teardown : SessionInfo → Op Preparation
  unfolding teardown_skip prepare_with
  prepare_runtime_teardown target =
      if (if target.launch_record_verified
        then target.runtime =s "direct"
        else not (truthy target.runtime_resource) && not (truthy target.runtime_marker))
      then give nothing
      else if not target.launch_record_verified
      then fail_op 2 (
          "refusing to kill workload session "
          +s env.py.repr target.name
          +s ": no authoritative launch record is available")
      else if not (truthy target.runtime)
      then teardown_skip target "missing workload runtime" "missing_runtime" ""
          target.runtime_resource
      else prepare_with target (env.cfg.runtimes target.runtime)

  -- a stop that is not run, and why
  unfoldable pub skip_stop : RuntimeTeardown → String → String → String → String → Op CleanupResult
  skip_stop teardown target_user session_name reason reason_code = do
    tell env.out (
        stop_event "skipped" "skip" (("reason", reason_code) ∷ []) teardown.runtime
          teardown.resource session_name teardown.session_id teardown.launch_nonce
          teardown.execution_backend target_user)
    give (refused reason)

  -- what `run_teardown` makes of the finished command
  unfoldable pub stopped : Completed → Bool × String
  stopped cp = if cp.returncode =s "0" then (true, "") else (
    false,
    "runtime session stop failed (rc="
        +s cp.returncode
        +s "): "
        +s (env.py.strip (cp.stderr or cp.stdout) or "runtime session stop failed"),
  )

  abbrev first_of : List String → String
  first_of [] = ""
  first_of (c ∷ cs) = c

  abbrev pub not_stopped : List String → Runtime → Failure → Op (Bool × String)
  not_stopped stop_cmd profile (exited code msg) = fail_op code msg
  not_stopped stop_cmd profile (timed_out msg) =
      give (false, "runtime session stop did not complete within " +s profile.stop_timeout +s "s")
  not_stopped stop_cmd profile (os_error error msg) =
      give
        (false, "workload runtime command " +s env.py.repr (first_of stop_cmd) +s " is unavailable")

  -- infra/runtime.py: run_teardown
  unfoldable pub run_teardown : List String → String → Runtime → Op (Bool × String)
  unfolding stopped
  run_teardown stop_cmd user profile = do
    prefix ← lift (env.cfg.prefix user)
    rescue (do cp ← ask env.out (sent_stop (prefix ++ stop_cmd)); give (stopped cp))
        (not_stopped stop_cmd profile)

  -- runtime_infra.current_runtime_identity_for_profile
  unfoldable pub current_runtime_identity : RuntimeTeardown → Op (Option RuntimeIdentity)
  current_runtime_identity teardown s =
      let s' =
        advance env.out (identified teardown.runtime teardown.resource teardown.launch_user) s in
      (env.live (env.out.reply s'.calls), s')

  -- the stop itself, and its event
  unfoldable pub stop_workload : RuntimeTeardown → Runtime → String → String → Op CleanupResult
  unfolding run_teardown
  stop_workload teardown profile target_user session_name = do
    answer ← run_teardown teardown.stop_cmd target_user profile
    tell env.out (
        stop_event (if answer.0 then "ok" else "error") "stop"
          (if not answer.0 && truthy answer.1 then ("error", env.py.cut 256 answer.1) ∷ [] else [])
          teardown.runtime teardown.resource session_name teardown.session_id teardown.launch_nonce
          teardown.execution_backend target_user)
    give (record { ok = answer.0; error = answer.1 })

  -- from what the runtime's resource is now
  unfoldable pub stop_if_same :
      RuntimeTeardown → Runtime → String → String → Option RuntimeIdentity → Op CleanupResult
  unfolding skip_stop stop_workload
  stop_if_same teardown profile target_user session_name none =
      skip_stop teardown target_user session_name
        "live runtime resource identity could not be resolved" "identity_unresolved"
  stop_if_same teardown profile target_user session_name (some live) =
      if not (same_runtime teardown live)
      then skip_stop teardown target_user session_name
          "the runtime resource identity changed since launch" "stale_identity"
      else stop_workload teardown profile target_user session_name

  unfoldable pub run_with : RuntimeTeardown → String → String → Option Runtime → Op CleanupResult
  unfolding skip_stop stop_if_same current_runtime_identity
  run_with teardown target_user session_name none =
      skip_stop teardown target_user session_name
        ("workload runtime " +s env.py.repr teardown.runtime +s " is unavailable") "missing_profile"
  run_with teardown target_user session_name (some profile) =
      if not (profile.fingerprint =s teardown.runtime_fingerprint)
      then skip_stop teardown target_user session_name "workload runtime changed since launch"
          "fingerprint_mismatch"
      else do
        live ← current_runtime_identity teardown
        stop_if_same teardown profile target_user session_name live

  unfoldable pub run_runtime_teardown : RuntimeTeardown → String → String → Op CleanupResult
  unfolding run_with
  run_runtime_teardown teardown target_user session_name =
      run_with teardown target_user session_name (env.cfg.runtimes teardown.runtime)
