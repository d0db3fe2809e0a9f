-- ===== src/Kill/Gone.antt =====
-- A removal is reported only where tmux has answered that the exact session is gone.
use uxon.Prelude.{
  ◌≡◌, refl, sym, ap, subst, String, Bool, true, false, Option, List, [], ◌∷◌, one_of,
}
use uxon.Session.Identity.{SessionIdentity, KillResult}
use uxon.Kill.World.{Call, Outcome, gives, fails, State, Op, give, fail_op, bind_to, ◌>>=◌}
use uxon.Kill.World.Grows.{Traced, Emits, Emits-at, Traced-refl, Traced-trans, Traced-advance}
use uxon.Session.Info.{SessionInfo, identity}
use uxon.Kill.Target.{Env, exact_identity_exists, conditional_kill}
use uxon.Kill.Teardown.{Preparation, prepare_runtime_teardown}
use uxon.Kill.Finish.{finish_killed_session}
use uxon.Kill.Expected.{
  find_target, unless_still, remove_found, remove_session, cleanup_outcome_of, kill_target, settle,
  settle_target, kill_event, kill_expected,
}
use uxon.Kill.Harmless.{
  IsHarmless, exact_identity_exists-Emits, find_target-Emits, prepare_runtime_teardown-Emits,
}
use uxon.Kill.Calls.{conditional_kill-Emits, finish_killed_session-Emits}

-- every call
abbrev pub Any : Call → Type 0
Any c = Unit

abbrev pub reports_removal : KillResult → Bool
reports_removal result = one_of result.action ("killed" ∷ "already_absent" ∷ [])

module _ {A B : Type 0} where
  -- Both steps of a sequence that gave something gave something.
  pub bind_to-gives :
      (r : Outcome A × State) (f : A → Op B) (b : B) (u : State)
      → bind_to r f ≡ (gives b, u)
      → (a : A) × (t : State) × (r ≡ (gives a, t)) × (f a t ≡ (gives b, u))
  bind_to-gives (gives a, t) f b u e = (a, t, refl, e)
  bind_to-gives (fails failure, t) f b u e = cc

pub state_of :
    {A : Type 0} (a b : Outcome A) (s t : State) → ◌≡◌ {A = Outcome A × State} (a, s) (b, t) → s ≡ t
state_of a b s t e = ap (λ r. r.1) e

module _ (env : Env) where
  harmless-Any : (c : Call) → IsHarmless c → Any c
  harmless-Any c h = tt

  -- between two states, tmux was asked for the session and answered that it is gone
  abbrev pub FoundGone : SessionIdentity → State → State → Type 0
  FoundGone current s s' =
      (t : State) × (t' : State) × Traced Any s t
      × (exact_identity_exists env true current t ≡ (gives false, t'))
      × Traced Any t' s'

  -- a state from which tmux answered that the session is gone
  abbrev GoneAt : SessionIdentity → State → State → Type 0
  GoneAt current s u =
      (t : State) × Traced Any s t × (exact_identity_exists env true current t ≡ (gives false, u))

  unless_still-gone :
      (current : SessionIdentity) (answer : Bool × String) (still removed : Bool) (s t u : State)
      → Traced Any s t
      → exact_identity_exists env true current t ≡ (gives still, u)
      → (v : State) → unless_still env answer still u ≡ (gives removed, v)
      → GoneAt current s v
  unfolding unless_still fail_op give
  unless_still-gone current answer true removed s t u run asked v e = cc
  unless_still-gone current answer false removed s t u run asked v e = (
    t,
    run,
    subst (λ w. exact_identity_exists env true current t ≡ (gives false, w)) (state_of _ _ u v e)
        asked,
  )

  remove_found-gone :
      (current : SessionIdentity) (exists removed : Bool) (s t u : State)
      → exact_identity_exists env true current s ≡ (gives exists, t)
      → remove_found env current exists t ≡ (gives removed, u)
      → GoneAt current s u
  unfolding remove_found give ◌>>=◌
  remove_found-gone current false removed s t u asked e = (
    s,
    Traced-refl Any s,
    subst (λ w. exact_identity_exists env true current s ≡ (gives false, w)) (state_of _ _ t u e)
        asked,
  )
  remove_found-gone current true removed s t u asked e =
      let (answer, t1, killed, rest) =
        bind_to-gives (conditional_kill env current t) _ removed u e in
      let (still, t2, again, last) =
        bind_to-gives (exact_identity_exists env true current t1) _ removed u rest in
      unless_still-gone current answer still removed s t1 t2
        (Traced-trans Any s t t1
          (Emits-at Any _ _ s t (exact_identity_exists-Emits Any harmless-Any env true current)
            asked)
          (Emits-at Any _ _ t t1 (conditional_kill-Emits Any harmless-Any env (λ argv. tt) current)
            killed))
        again u last

  remove_session-gone :
      (current : SessionIdentity) (removed : Bool) (s u : State)
      → remove_session env current s ≡ (gives removed, u)
      → GoneAt current s u
  unfolding remove_session ◌>>=◌
  remove_session-gone current removed s u e =
      let (exists, t, asked, rest) =
        bind_to-gives (exact_identity_exists env true current s) _ removed u e in
      remove_found-gone current exists removed s t u asked rest

  abbrev identity_given : SessionIdentity → Outcome KillResult → SessionIdentity
  identity_given other (gives r) = r.identity
  identity_given other (fails f) = other

  abbrev removal_given : Outcome KillResult → Bool
  removal_given (gives r) = reports_removal r
  removal_given (fails f) = false

  finish_traced :
      (target : SessionInfo) (teardown : Preparation) (removed : Bool) (r : KillResult)
      (t u : State)
      → (finish_killed_session env target teardown (identity target).user >>= λ cleanup.
            give (cleanup_outcome_of (identity target) removed cleanup))
          t
        ≡ (gives r, u)
      → (r.identity ≡ identity target) × Traced Any t u
  unfolding ◌>>=◌ give cleanup_outcome_of
  finish_traced target teardown removed r t u e =
      let (cleanup, v, finished, last) =
        bind_to-gives (finish_killed_session env target teardown (identity target).user t) _ r u
          e in
      let run =
        Emits-at Any _ _ t v
          (finish_killed_session-Emits Any harmless-Any env (λ argv. tt) (λ a b c. tt) target
            teardown (identity target).user)
          finished in
      (
        ap (λ o. identity_given (identity target) o.0) (sym last),
        subst (λ w. Traced Any t w) (state_of _ _ v u last) run,
      )

  kill_target-gone :
      (dry_run : Bool) (target : SessionInfo) (r : KillResult) (s u : State)
      → kill_target env dry_run target s ≡ (gives r, u)
      → reports_removal r ≡ true
      → FoundGone r.identity s u
  unfolding kill_target ◌>>=◌ give
  kill_target-gone true target r s u e removal =
      let not_reported : false ≡ reports_removal r = ap (λ o. removal_given o.0) e in cc
  kill_target-gone false target r s u e removal =
      let (teardown, t, prepared_here, rest) =
        bind_to-gives (prepare_runtime_teardown env target s) _ r u e in
      let (removed, v, removed_here, last) =
        bind_to-gives (remove_session env (identity target) t) _ r u rest in
      let (w, before, asked) = remove_session-gone (identity target) removed t v removed_here in
      let (same, after) = finish_traced target teardown removed r v u last in
      subst (λ i. FoundGone i s u) (sym same)
        (
          w,
          v,
          Traced-trans Any s t w
              (Emits-at Any _ _ s t (prepare_runtime_teardown-Emits Any harmless-Any env target)
                prepared_here)
              before,
          asked,
          after,
        )

  kill_settled-gone :
      (dry_run : Bool) (expected : SessionIdentity) (found : Outcome SessionInfo) (s t : State)
      → Traced Any s t
      → reports_removal (settle_target env dry_run expected (found, t)).0.1 ≡ true
      → let (outcome, u) = settle_target env dry_run expected (found, t) in
        FoundGone outcome.1.identity s u
  unfolding settle
  kill_settled-gone dry_run expected (fails failure) s t run removal = cc
  kill_settled-gone dry_run expected (gives target) s t run removal =
      after_outcome (kill_target env dry_run target t) refl removal
    where
      after_outcome :
          (r : Outcome KillResult × State)
          → kill_target env dry_run target t ≡ r
          → reports_removal (settle (identity target) r).0 ≡ true
          → FoundGone (settle (identity target) r).0.identity s (settle (identity target) r).1
      after_outcome (fails failure, u) e removal = cc
      after_outcome (gives r, u) e removal =
          let (w, v, before, asked, after) = kill_target-gone dry_run target r t u e removal in
          (w, v, Traced-trans Any s t w run before, asked, after)

  -- A result that says "killed" or "already_absent" is only given where, during this very call, tmux
  -- was asked for the exact identity that the result names and answered that it is gone.
  pub kill_expected-FoundGone :
      (force dry_run : Bool) (allowed_users : Option (List String)) (expected : SessionIdentity)
      (s : State)
      → reports_removal (kill_expected env force dry_run allowed_users expected s).0 ≡ true
      → let (result, s') = kill_expected env force dry_run allowed_users expected s in
        FoundGone result.identity s s'
  unfolding kill_expected Emits
  kill_expected-FoundGone force dry_run allowed_users expected s removal =
      let found = find_target env allowed_users expected s in
      let run = find_target-Emits Any harmless-Any env allowed_users expected s in
      let (w, v, before, asked, after) =
        kill_settled-gone dry_run expected found.0 s found.1 run removal in
      let settled = settle_target env dry_run expected found in
      (
        w,
        v,
        before,
        asked,
        Traced-trans Any v settled.1 _ after
            (Traced-advance Any env.out (kill_event force dry_run settled.0) settled.1 tt),
      )
