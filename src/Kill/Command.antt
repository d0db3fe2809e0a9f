-- ===== src/Kill/Command.antt =====
-- src/uxon/app/kill.py: the commands `kill` and `kill-all`. What they print is left out; what is
-- typed at a prompt, and what the other modules find, are fields of `Front`.
pub mod Confirmed
use uxon.Prelude.{
  ℕ, String, Bool, true, false, not, Option, none, some, List, [], ◌∷◌, ◌&&◌, ◌||◌, ◌=s◌, ◌+s◌, map,
  length, join, truthy, truthy?, if◌then◌else◌,
}
use uxon.Session.Identity.{SessionIdentity, KillResult, is_ok, bulk_is_ok}
use uxon.Cli.Args.{ParsedArgs}
use uxon.Cli.Peer.{Shell}
use uxon.Kill.World.{
  Call, audited, Failure, exited, Outcome, gives, fails, State, Op, advance, give, fail_op, lift,
  ◌>>=◌, ◌>>◌, refuse_op, rescue, tell,
}
use uxon.Session.Info.{SessionInfo, identity}
use uxon.Kill.Target.{Env, label, validated}
use uxon.Kill.Expected.{flag, kill_expected}
use uxon.Kill.Snapshot.{kill_snapshot}
use uxon.Kill.Remote.{Peer, find_host, remote_kill_expected}

pub record Front : Type 0 where
  pub shell : Shell
  -- identity.is_interactive_tty()
  pub tty : Bool
  -- what is typed at a prompt, and `text.strip()`
  pub input : String → String
  -- `target_user in probe_sudo_capability(cfg, [target_user]).reachable_users`
  pub reachable : String → Bool
  -- sessions_probe.collect_sessions([user], cfg)
  pub sessions : String → Outcome (List SessionInfo)
  -- sessions_probe.resolve_session
  pub resolve : String → List SessionInfo → Outcome SessionInfo
  pub remote_hosts : List Peer
  -- cfg.ssh_multiplex != "off"
  pub multiplexed : Bool
  -- resolve_remote_identity
  pub remote_identity : Peer → String → Option String → Outcome SessionIdentity
  -- str(uuid.uuid4())
  pub new_id : String

-- option or default
abbrev pub text_or : Option String → String → String
text_or none other = other
text_or (some s) other = if truthy s then s else other

abbrev pub given_text : Option String → String
given_text none = ""
given_text (some s) = s

-- int(not ok)
abbrev pub code_of : Bool → ℕ
code_of true = 0
code_of false = 1

abbrev pub results_of : {A : Type 0} → (State → A × State) → Op A
results_of f s = let (a, s') = f s in (gives a, s')

-- the confirmation of both commands: whether it is skipped, whether the output is JSON, whether
-- there is a terminal, and whether the word was typed
unfoldable pub confirm_or_fail : Bool → Bool → Bool → Bool → String → String → Op (Unit {0})
confirm_or_fail skip json_output tty typed no_json no_tty =
    if skip
    then give tt
    else if json_output
    then fail_op 2 no_json
    else if not tty
    then fail_op 2 no_tty
    else refuse_op (not typed) 130 "cancelled"

module _ (env : Env) (front : Front) where
  -- `input(prompt).strip() == word`
  abbrev pub typed : String → String → Bool
  typed prompt word = env.py.strip (front.input prompt) =s word

  -- _confirm_kill_or_fail
  unfoldable pub confirm_kill_or_fail : String → ParsedArgs → Op (Unit {0})
  unfolding confirm_or_fail
  confirm_kill_or_fail prompt args =
      confirm_or_fail (args.force || args.dry_run) args.json_output front.tty
        (typed (prompt +s " Type 'kill' to confirm: ") "kill")
        "kill --json requires --force or --dry-run"
        "kill is destructive; rerun with --force, or omit --user/--host for the local self path"

  unfoldable pub denied : ParsedArgs → String → Op ℕ
  denied args target_user = do
    tell env.out (
        audited "session.kill" (
          ("outcome", "denied")
          ∷ ("session", given_text args.target_id)
          ∷ (
            "session_id",
            elim args.expected_session [ none ↦ "" | some expected ↦ expected.session_id ],
          )
          ∷ ("target_user", target_user)
          ∷ ("force", flag args.force)
          ∷ ("dry_run", flag args.dry_run)
          ∷ []))
    give 1

  -- the event of _resolve_or_audit_not_found, and the same failure
  abbrev pub not_found : ParsedArgs → String → Failure → Op SessionInfo
  not_found args target_user failure = do
    tell env.out (
        audited "session.kill" (
          ("outcome", "not_found")
          ∷ ("session", given_text args.target_id)
          ∷ ("target_user", target_user)
          ∷ ("force", flag args.force)
          ∷ ("dry_run", flag args.dry_run)
          ∷ ("profile", "")
          ∷ ("agent", "")
          ∷ []))
    lift (fails failure)

  -- the identity to remove: the given one, or the one that the identifier names
  unfoldable pub choose_expected : ParsedArgs → String → Option SessionIdentity → Op SessionIdentity
  unfolding identity
  choose_expected args target_user none = do
    sessions ← lift (front.sessions target_user)
    target ←
        rescue (lift (front.resolve (given_text args.target_id) sessions))
          (not_found args target_user)
    give (identity target)
  choose_expected args target_user (some expected) = do
    refuse_op (not (expected.user =s target_user)) 1 "--expect-session user differs from --user"
    give expected

  unfoldable pub confirm_other_user : ParsedArgs → String → String → SessionIdentity → Op (Unit {0})
  unfolding confirm_kill_or_fail
  confirm_other_user args launch_user target_user expected =
      if target_user =s launch_user
      then give tt
      else confirm_kill_or_fail
          ("Kill " +s expected.name +s " (" +s expected.session_id +s ", user=" +s target_user
            +s ")?")
          args

  unfoldable pub kill_local : ParsedArgs → String → String → Op ℕ
  unfolding choose_expected confirm_other_user kill_expected is_ok
  kill_local args launch_user target_user = do
    expected ← choose_expected args target_user args.expected_session
    confirm_other_user args launch_user target_user expected
    result ← results_of (kill_expected env args.force args.dry_run none expected)
    give (code_of (is_ok result))

  -- the identity to remove on a peer
  unfoldable pub choose_remote : Peer → ParsedArgs → Option SessionIdentity → Op SessionIdentity
  choose_remote peer args none =
      lift (front.remote_identity peer (given_text args.target_id) args.user)
  choose_remote peer args (some expected) = give expected

  -- from the host that `--host` names
  unfoldable pub kill_on_peer : ParsedArgs → Option Peer → String → Op ℕ
  unfolding choose_remote confirm_kill_or_fail remote_kill_expected is_ok
  kill_on_peer args none host = do
    tell env.out (
        audited "kill.remote.out" (
          ("outcome", "not_found")
          ∷ ("peer_name", host)
          ∷ ("target_user", given_text args.user)
          ∷ ("target_session", given_text args.target_id)
          ∷ ("session_id", "")
          ∷ []))
    fail_op 2 (elim front.remote_hosts [
      | [] ↦ "no [[remote_hosts]] configured; --host requires at least one peer"
      | h ∷ hs ↦
          "unknown --host "
          +s env.py.repr host
          +s "; configured: "
          +s join ", " (map (λ peer. peer.name) (h ∷ hs))
    ])
  kill_on_peer args (some peer) host = do
    refuse_op (args.json_output && not args.force && not args.dry_run) 2
        "kill --json requires --force or --dry-run"
    expected ← choose_remote peer args args.expected_session
    validated env true expected
    refuse_op (elim args.user [ none ↦ false | some user ↦ not (expected.user =s user) ]) 1
        "--expect-session user differs from --user"
    confirm_kill_or_fail
        ("Kill " +s expected.name +s " (" +s expected.session_id +s ", user=" +s expected.user
          +s ") on " +s peer.name +s "?")
        args
    result ←
        remote_kill_expected env front.shell front.multiplexed front.remote_hosts peer.name
          args.dry_run expected front.new_id
    give (code_of (is_ok result))

  -- on the host that is given, or here
  unfoldable pub kill_at : ParsedArgs → String → String → Option String → Op ℕ
  unfolding find_host kill_on_peer denied kill_local
  kill_at args launch_user target_user (some host) =
      kill_on_peer args (find_host front.remote_hosts host) host
  kill_at args launch_user target_user none =
      if not (target_user =s launch_user) && not (front.reachable target_user)
      then denied args target_user
      else kill_local args launch_user target_user

  unfoldable pub do_kill : ParsedArgs → String → Op ℕ
  unfolding kill_at
  do_kill args launch_user =
      let target_user = text_or args.user launch_user in
      if not (truthy? args.target_id)
      then fail_op 2 "kill requires an identifier"
      else kill_at args launch_user target_user args.host

  abbrev pub is_empty : {A : Type 0} → List A → Bool
  is_empty [] = true
  is_empty (x ∷ xs) = false

  abbrev all_labels : List SessionIdentity → List String
  all_labels targets = map (λ t. t.name +s " (" +s t.session_id +s ")") targets

  -- the confirmation of `do_kill_all`
  unfoldable pub confirm_all : ParsedArgs → List SessionIdentity → Op (Unit {0})
  unfolding confirm_or_fail
  confirm_all args targets =
      confirm_or_fail (is_empty targets || args.dry_run || args.force) args.json_output front.tty
        (typed
          ("Kill all "
            +s env.py.show (length targets)
            +s " sessions: "
            +s join ", " (all_labels targets)
            +s "\nType 'kill-all' to confirm: ")
          "kill-all")
        "kill-all --json requires --force or --dry-run"
        "kill-all is destructive; rerun with --force, or use 'uxon list' / 'uxon doctor' first"

  unfoldable pub do_kill_all : ParsedArgs → String → Op ℕ
  unfolding identity confirm_all kill_snapshot bulk_is_ok
  do_kill_all args launch_user = do
    rows ← lift (front.sessions launch_user)
    let targets = map identity rows
    confirm_all args targets
    results ← results_of (kill_snapshot env args.dry_run none targets)
    give (code_of (bulk_is_ok results))
