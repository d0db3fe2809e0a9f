-- ===== src/Kill/Target.antt =====
-- src/uxon/infra/tmux.py and src/uxon/domain/session.py: the session that is to be removed, and what
-- tmux is asked about it.
use uxon.Prelude.{
  ℕ, String, Bool, true, false, not, Option, List, [], ◌∷◌, ◌++◌, ◌&&◌, ◌||◌, ◌=s◌, ◌+s◌, any,
  truthy, one_of, if◌then◌else◌,
}
use uxon.Session.Json.{JsonLib}
use uxon.Session.Identity.{SessionIdentity, validate}
use uxon.Session.Info.{SessionInfo}
use uxon.Launch.Directory.{Process}
use uxon.Launch.Record.{Host}
use uxon.Kill.World.{
  queried, probed, sent_kill, Completed, Failure, exited, timed_out, os_error, Outcome, gives,
  fails, Outside, Op, advance, give, fail_op, lift, of_result, ◌>>=◌, ◌>>◌, refuse_op, rescue, ask,
}

-- what the code reads of an execution backend
pub record Backend : Type 0 where
  pub id : String
  pub fingerprint : String

-- what it reads of a workload runtime; the fingerprint is a digest of all its fields
pub record Runtime : Type 0 where
  pub id : String
  pub fingerprint : String
  pub stop_command : List String
  pub stop_timeout : String

-- what it reads of the configuration. `socket_path` and `backend` are `tmux_socket_path` and
-- `backend_for_user`, which fail for a user that is not configured.
pub record Config : Type 0 where
  pub socket_path : String → Outcome String
  pub backend : String → Outcome Backend
  -- command_prefix(cfg, user, interactive=False)
  pub prefix : String → Outcome (List String)
  pub runtimes : String → Option Runtime
  -- bool(cfg.launch_record_dir)
  pub shared_records : Bool

-- `template.format(**values)`: the text, or `KeyError` or `ValueError` with its text
pub data Formatted : Type 0 where
  formatted : String → Formatted
  missing_key : String → Formatted
  bad_template : String → Formatted

-- Python's own functions on texts
pub record Python : Type 0 where
  pub repr : String → String
  pub strip : String → String
  pub splitlines : String → List String
  -- text.split("\t")
  pub split_tab : String → List String
  -- needle in text
  pub has_part : String → String → Bool
  pub quote : String → String
  pub sorted : List String → List String
  -- sorted(set(texts))
  pub sorted_set : List String → List String
  -- str(n)
  pub show : ℕ → String
  -- text[:n]
  pub cut : ℕ → String → String
  pub format : String → List (String × String) → Formatted

-- the answer of `probe_tmux_server`
pub data ServerState : Type 0 where
  absent : ServerState
  running : ServerState
  unreachable : ServerState

pub record TmuxServerProbe : Type 0 where
  pub state : ServerState
  pub error : String

pub record RuntimeIdentity : Type 0 where
  pub id : String
  pub epoch : String

pub record Env : Type 0 where
  pub json : JsonLib
  pub host : Host
  pub process : Process
  pub py : Python
  pub cfg : Config
  pub out : Outside
  -- what the other modules read out of the replies to their queries
  pub server : Outcome Completed → Outcome TmuxServerProbe
  pub sessions : Outcome Completed → Outcome (List SessionInfo)
  pub live : Outcome Completed → Outcome (Option RuntimeIdentity)

abbrev pub identity_refused : String
identity_refused = "selected session identity changed; operation refused"

-- a or b, for texts
infixr 20 ◌or◌
abbrev pub ◌or◌ : String → String → String
a or b = if truthy a then a else b

-- name (session_id)
abbrev pub label : Python → String → String → String
label py name session_id = py.repr name +s " (" +s session_id +s ")"

module _ (env : Env) where
  -- expected.validate(require_nonce=...)
  abbrev pub validated : Bool → SessionIdentity → Op (Unit {0})
  validated require_nonce expected = lift (of_result (validate env.py.repr require_nonce expected))

  unfoldable pub validate_session_context : Bool → SessionIdentity → Op (Unit {0})
  unfolding validate
  validate_session_context require_nonce expected = do
    validated require_nonce expected
    backend ← lift (env.cfg.backend expected.user)
    socket_path ← lift (env.cfg.socket_path expected.user)
    refuse_op
        (not (expected.socket_path =s socket_path)
          || not (expected.execution_backend =s backend.id)
          || not (expected.execution_fingerprint =s backend.fingerprint))
        1
        ("session "
          +s label env.py expected.name expected.session_id
          +s " has a stale execution context")

  -- configured_tmux_base(cfg, user, nonint=True)
  unfoldable pub configured_tmux_base : String → Op (List String)
  configured_tmux_base user = do
    socket_path ← lift (env.cfg.socket_path user)
    prefix ← lift (env.cfg.prefix user)
    give (prefix ++ "tmux" ∷ (if truthy socket_path then "-S" ∷ socket_path ∷ [] else []))

  abbrev identity_format : String
  identity_format = "#{session_id}\t#{session_created}\t#{E:UXON_LAUNCH_NONCE}"

  abbrev has_three : List String → Bool
  has_three (a ∷ b ∷ c ∷ []) = true
  has_three other = false

  -- the row is of this tmux session, with another nonce
  abbrev marker_changed : SessionIdentity → List String → Bool
  marker_changed expected (session_id ∷ created ∷ nonce ∷ []) =
      session_id =s expected.session_id
      && created =s expected.created
      && not (nonce =s expected.launch_nonce)
  marker_changed expected other = false

  abbrev pub identity_row : SessionIdentity → String
  identity_row expected =
      expected.session_id +s "\t" +s expected.created +s "\t" +s expected.launch_nonce

  -- what the rows of list-sessions say of the session
  unfoldable pub exists_in : SessionIdentity → List String → Outcome Bool
  exists_in expected rows =
      if any (λ row. not (has_three (env.py.split_tab row))) rows
      then fails (exited 1 "unable to prove terminal removal: malformed identity query")
      else if any (λ row. marker_changed expected (env.py.split_tab row)) rows
      then fails (
          exited 1
            "session launch marker changed while the tmux identity still exists; removal is unproven")
      else gives (one_of (identity_row expected) rows)

  -- the query failed: only a server that is absent proves that the session is
  unfoldable pub exists_without : SessionIdentity → Completed → TmuxServerProbe → Outcome Bool
  exists_without expected result server = elim server.state [
    | absent ↦ gives false
    | other ↦
        let detail = env.py.strip (result.stderr or result.stdout or server.error) in
        fails (
          exited 1 (
            "unable to prove removal of "
            +s label env.py expected.name expected.session_id
            +s ": "
            +s (detail or "tmux query failed")))
  ]

  -- probe_tmux_server
  unfoldable pub probe_tmux_server : String → String → Op TmuxServerProbe
  probe_tmux_server user socket_path s =
      let s' = advance env.out (probed user socket_path) s in
      (env.server (env.out.reply s'.calls), s')

  unfoldable pub exact_identity_exists : Bool → SessionIdentity → Op Bool
  unfolding validate_session_context configured_tmux_base exists_in exists_without probe_tmux_server
  exact_identity_exists require_nonce expected = do
    validate_session_context require_nonce expected
    base ← configured_tmux_base expected.user
    result ← ask env.out (queried (base ++ "list-sessions" ∷ "-F" ∷ identity_format ∷ []))
    if result.returncode =s "0"
        then lift (exists_in expected (env.py.splitlines result.stdout))
        else do
          server ← probe_tmux_server expected.user expected.socket_path
          lift (exists_without expected result server)

  -- session_identity_predicate of a `SessionIdentity`
  unfoldable pub session_identity_predicate : SessionIdentity → Op String
  unfolding validate
  session_identity_predicate expected = do
    validated false expected
    give (
        "#{&&:#{==:#{session_id}," +s expected.session_id +s "},#{&&:#{==:#{session_created},"
        +s expected.created +s "},#{==:#{E:UXON_LAUNCH_NONCE}," +s expected.launch_nonce +s "}}}")

  unfoldable pub guarded_session_commands : SessionIdentity → String → Op (List String)
  unfolding session_identity_predicate
  guarded_session_commands expected commands = do
    predicate ← session_identity_predicate expected
    give (
        "if-shell"
        ∷ "-F"
        ∷ "-t"
        ∷ expected.session_id
        ∷ predicate
        ∷ commands
        ∷ ("display-message -p "
            +s env.py.quote ("uxon: " +s identity_refused)
            +s " ; run-shell 'exit 1'")
        ∷ [])

  unfoldable pub conditional_kill_argv : SessionIdentity → Op (List String)
  unfolding validate_session_context configured_tmux_base guarded_session_commands
  conditional_kill_argv expected = do
    validate_session_context true expected
    base ← configured_tmux_base expected.user
    guarded ←
        guarded_session_commands expected
          ("display-message -p uxon-kill-matched ; kill-session -t " +s expected.session_id)
    give (base ++ guarded)

  unfoldable pub control_error : Completed → String
  control_error result =
      if env.py.has_part identity_refused result.stdout
      then identity_refused
      else env.py.strip (result.stderr or result.stdout)

  -- whether tmux said that it removed the session, and why not
  unfoldable pub acknowledged : Completed → Bool × String
  unfolding control_error
  acknowledged result =
      let detail = control_error result in
      if result.returncode =s "0" && env.py.strip result.stdout =s "uxon-kill-matched"
      then (true, "")
      else if detail =s identity_refused
      then (false, "selected session identity changed; removal refused")
      else (
        false,
        "conditional kill failed (rc="
            +s result.returncode
            +s "): "
            +s (detail or "no identity acknowledgement"),
      )

  -- `SystemExit` is not caught here
  abbrev pub unavailable : Failure → Op (Bool × String)
  unavailable (exited code msg) = fail_op code msg
  unavailable (timed_out msg) = give (false, "conditional kill response unavailable: " +s msg)
  unavailable (os_error error msg) = give (false, "conditional kill response unavailable: " +s msg)

  unfoldable pub conditional_kill : SessionIdentity → Op (Bool × String)
  unfolding conditional_kill_argv acknowledged
  conditional_kill expected =
      rescue
        (do
          argv ← conditional_kill_argv expected
          result ← ask env.out (sent_kill argv)
          give (acknowledged result))
        unavailable
