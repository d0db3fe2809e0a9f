-- ===== src/Kill/Command/Confirmed.antt =====
-- What the commands `kill` and `kill-all` do before somebody confirmed them.
use uxon.Prelude.{
  ◌≡◌, refl, ◌⊎◌, inl, inr, String, Bool, true, false, not, Option, none, some, List, [], ◌∷◌, ◌||◌,
  ◌+s◌, ◌=s◌, map, if◌then◌else◌,
}
use uxon.Session.Identity.{SessionIdentity, bulk_is_ok}
use uxon.Cli.Args.{ParsedArgs, is_given}
use uxon.Kill.World.{
  Failure, Outcome, gives, fails, State, Op, give, fail_op, bind_to, ◌>>=◌, ◌>>◌, refuse_op,
}
use uxon.Kill.World.Grows.{
  Traced, Emits, Traced-refl, Traced-trans, Traced-advance, Emits-lift, Emits-fail, emits,
}
use uxon.Session.Info.{identity}
use uxon.Kill.Target.{Env}
use uxon.Kill.Snapshot.{kill_each, snapshot_event, kill_snapshot}
use uxon.Kill.Remote.{Peer, find_host}
use uxon.Kill.Harmless.{IsHarmless}
use uxon.Kill.Command.{
  Front, text_or, confirm_or_fail, typed, confirm_kill_or_fail, denied, not_found, choose_expected,
  confirm_other_user, kill_local, kill_on_peer, choose_remote, kill_at, results_of, code_of,
  do_kill, confirm_all, do_kill_all,
}

-- the operation only looks, or `C` holds
unfoldable IsGuarded : {A : Type 0} → Type 0 → Op A → Type 0
IsGuarded C m = (s : State) → Traced IsHarmless s (m s).1 ⊎ C

module _ (C : Type 0) where
  IsGuarded-Emits : {A : Type 0} (m : Op A) → Emits IsHarmless m → IsGuarded C m
  unfolding IsGuarded Emits
  IsGuarded-Emits m looks s = inl (looks s)

  after :
      {A B : Type 0} (s : State) (r : Outcome A × State) (f : A → Op B)
      → Traced IsHarmless s r.1 ⊎ C
      → ((a : A) → IsGuarded C (f a))
      → Traced IsHarmless s (bind_to r f).1 ⊎ C
  unfolding IsGuarded
  after s r f (inr c) rest = inr c
  after s (fails e, t) f (inl run) rest = inl run
  after s (gives a, t) f (inl run) rest = elim (rest a t) [
    | inl later ↦ inl (Traced-trans IsHarmless s t _ run later)
    | inr c ↦ inr c
  ]

  IsGuarded-bind :
      {A B : Type 0} (m : Op A) (f : A → Op B)
      → IsGuarded C m
      → ((a : A) → IsGuarded C (f a))
      → IsGuarded C (m >>= f)
  unfolding IsGuarded ◌>>=◌
  IsGuarded-bind m f first rest s = after s (m s) f (first s) rest

  IsGuarded-then :
      {B : Type 0} (m : Op (Unit {0})) (n : Op B)
      → IsGuarded C m
      → IsGuarded C n
      → IsGuarded C (m >> n)
  unfolding ◌>>◌
  IsGuarded-then m n first rest = IsGuarded-bind m (λ done. n) first λ done. rest

  IsGuarded-if :
      {A : Type 0} (b : Bool) (m n : Op A)
      → IsGuarded C m
      → IsGuarded C n
      → IsGuarded C (if b then m else n)
  IsGuarded-if true m n first second = first
  IsGuarded-if false m n first second = second

ruleset guarded = (IsGuarded-Emits, IsGuarded-bind, IsGuarded-then, IsGuarded-if)

or_false : (a b : Bool) → a ≡ false → b ≡ false → (a || b) ≡ false
or_false true b h k = cc
or_false false b h k = k

not-true : (b : Bool) → not b ≡ true → b ≡ false
not-true true h = cc
not-true false h = refl

-- nothing follows a confirmation that was not given
confirm-IsGuarded :
    {B : Type 0} (C : Type 0) (skip json_output tty typed : Bool) (no_json no_tty : String)
    (next : Op B)
    → skip ≡ false
    → (tty ≡ true → typed ≡ true → C)
    → IsGuarded C (confirm_or_fail skip json_output tty typed no_json no_tty >> next)
unfolding confirm_or_fail ◌>>◌ ◌>>=◌ fail_op refuse_op IsGuarded
confirm-IsGuarded C true json_output tty typed no_json no_tty next h c s = cc
confirm-IsGuarded C false true tty typed no_json no_tty next h c s = inl (Traced-refl IsHarmless s)
confirm-IsGuarded C false false false typed no_json no_tty next h c s =
    inl (Traced-refl IsHarmless s)
confirm-IsGuarded C false false true false no_json no_tty next h c s =
    inl (Traced-refl IsHarmless s)
confirm-IsGuarded C false false true true no_json no_tty next h c s = inr (c refl refl)

module _ (env : Env) (front : Front) where
  -- the word was typed at a prompt of a terminal
  abbrev pub IsTyped : String → Type 0
  IsTyped word =
      (prompt : String) × (front.tty ≡ true) × ((env.py.strip (front.input prompt) =s word) ≡ true)

module _ (env : Env) (front : Front) (args : ParsedArgs) (given : args.force ≡ false)
    (wet : args.dry_run ≡ false) where
  kill_confirmed :
      {B : Type 0} (prompt : String) (next : Op B)
      → IsGuarded (IsTyped env front "kill") (confirm_kill_or_fail env front prompt args >> next)
  unfolding confirm_kill_or_fail
  kill_confirmed prompt next =
      confirm-IsGuarded (IsTyped env front "kill") (args.force || args.dry_run) args.json_output
        front.tty (typed env front (prompt +s " Type 'kill' to confirm: ") "kill") _ _ next
        (or_false args.force args.dry_run given wet) λ tty right. (_, tty, right)

  not_found-Emits :
      (target_user : String) (failure : Failure)
      → Emits IsHarmless (not_found env front args target_user failure)
  not_found-Emits target_user failure = search emits

  choose_expected-Emits :
      (target_user : String) (expected : Option SessionIdentity)
      → Emits IsHarmless (choose_expected env front args target_user expected)
  unfolding choose_expected
  choose_expected-Emits target_user none = search (emits, not_found-Emits) depth 12
  choose_expected-Emits target_user (some expected) = search emits

  denied-Emits : (target_user : String) → Emits IsHarmless (denied env front args target_user)
  unfolding denied
  denied-Emits target_user = search emits

  other_confirmed :
      {B : Type 0} (launch_user target_user : String) (expected : SessionIdentity) (next : Op B)
      → (target_user =s launch_user) ≡ false
      → IsGuarded
          (IsTyped env front "kill")
          (confirm_other_user env front args launch_user target_user expected >> next)
  unfolding confirm_other_user
  other_confirmed launch_user target_user expected next other = rw other (kill_confirmed _ next)

  kill_local-IsGuarded :
      (launch_user target_user : String)
      → (target_user =s launch_user) ≡ false
      → IsGuarded (IsTyped env front "kill") (kill_local env front args launch_user target_user)
  unfolding kill_local
  kill_local-IsGuarded launch_user target_user other =
      search (guarded, choose_expected-Emits, other_confirmed) depth 12

  choose_remote-Emits :
      (peer : Peer) (expected : Option SessionIdentity)
      → Emits IsHarmless (choose_remote env front peer args expected)
  unfolding choose_remote
  choose_remote-Emits peer none = search emits
  choose_remote-Emits peer (some expected) = search emits

  kill_on_peer-IsGuarded :
      (peer : Option Peer) (host : String)
      → IsGuarded (IsTyped env front "kill") (kill_on_peer env front args peer host)
  unfolding kill_on_peer
  kill_on_peer-IsGuarded none host = search (guarded, emits) depth 12
  kill_on_peer-IsGuarded (some peer) host =
      search (kill_confirmed, guarded, emits, choose_remote-Emits) depth 16

  kill_at-IsGuarded :
      (launch_user target_user : String) (host : Option String)
      → (is_given host || not (target_user =s launch_user)) ≡ true
      → IsGuarded (IsTyped env front "kill") (kill_at env front args launch_user target_user host)
  unfolding kill_at
  kill_at-IsGuarded launch_user target_user (some host) other =
      kill_on_peer-IsGuarded (find_host front.remote_hosts host) host
  kill_at-IsGuarded launch_user target_user none other =
      let is_other = not-true (target_user =s launch_user) other in
      search (guarded, denied-Emits, kill_local-IsGuarded) depth 12

  -- `kill` with a host, or for a user that is not the launch user, without `--force` and not in a dry
  -- run: it sends no removal, stops no workload, removes no record and asks no other host for one,
  -- unless there is a terminal and "kill" was typed at a prompt on it.
  pub do_kill-IsTyped :
      (launch_user : String) (s : State)
      → (is_given args.host || not (text_or args.user launch_user =s launch_user)) ≡ true
      → Traced IsHarmless s (do_kill env front args launch_user s).1 ⊎ IsTyped env front "kill"
  unfolding do_kill IsGuarded
  do_kill-IsTyped launch_user s other =
      IsGuarded-if (IsTyped env front "kill") _ _ _
        (IsGuarded-Emits (IsTyped env front "kill") _ (Emits-fail IsHarmless _ _ _))
        (kill_at-IsGuarded launch_user (text_or args.user launch_user) args.host other) s

  no_targets-Emits : Emits IsHarmless (results_of (kill_snapshot env args.dry_run none []))
  unfolding kill_snapshot kill_each snapshot_event Emits
  no_targets-Emits s = Traced-advance IsHarmless env.out _ s refl

  all_confirmed :
      (targets : List SessionIdentity)
      → IsGuarded (IsTyped env front "kill-all") (
          confirm_all env front args targets
          >> (results_of (kill_snapshot env args.dry_run none targets) >>= λ results.
              give (code_of (bulk_is_ok results))))
  unfolding confirm_all
  all_confirmed [] = search (guarded, emits, no_targets-Emits) depth 12
  all_confirmed (target ∷ targets) =
      confirm-IsGuarded (IsTyped env front "kill-all") (args.dry_run || args.force) args.json_output
        front.tty (typed env front _ "kill-all") _ _ _ (or_false args.dry_run args.force wet given)
        λ tty right. (_, tty, right)

  -- `kill-all` without `--force` and not in a dry run: it sends no removal, stops no workload and
  -- removes no record, unless there is a terminal and "kill-all" was typed at a prompt on it.
  pub do_kill_all-IsTyped :
      (launch_user : String) (s : State)
      → Traced IsHarmless s (do_kill_all env front args launch_user s).1
        ⊎ IsTyped env front "kill-all"
  unfolding do_kill_all IsGuarded
  do_kill_all-IsTyped launch_user s =
      IsGuarded-bind (IsTyped env front "kill-all") _ _
        (IsGuarded-Emits (IsTyped env front "kill-all") _ (Emits-lift IsHarmless _))
        (λ rows. all_confirmed (map identity rows)) s
