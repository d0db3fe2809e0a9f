-- ===== src/Kill/Answers.antt =====
-- What the steps of `kill_expected` of src/uxon/app/kill.py answered, and the result that says so.
use uxon.Prelude.{◌≡◌, refl, sym, ap, ◌∙◌, ◌⊎◌, inl, inr, String, Bool, true, false, Option, List}
use uxon.Session.Identity.{SessionIdentity, KillResult}
use uxon.Kill.World.{Failure, message, type_name, Outcome, gives, fails, State, give, ◌>>=◌}
use uxon.Session.Info.{SessionInfo, identity}
use uxon.Kill.Target.{Env, ◌or◌}
use uxon.Kill.Teardown.{CleanupResult, Preparation, prepare_runtime_teardown}
use uxon.Kill.Finish.{finish_killed_session}
use uxon.Kill.Expected.{
  find_target, remove_session, would_kill, cleanup_outcome_of, kill_failed, kill_target, settle,
  settle_target,
}
use uxon.Kill.Gone.{bind_to-gives}

abbrev pub value_or : KillResult → Outcome KillResult → KillResult
value_or other (gives r) = r
value_or other (fails f) = other

module _ (env : Env) where
  -- the text of a failure in a result
  abbrev pub error_text : Failure → String
  error_text failure = message failure or type_name failure

  -- what the steps of a removal answered, one after another from this state, is what the result says
  abbrev pub Finished : SessionInfo → State → KillResult → Type 0
  Finished target s r =
      let current = identity target in
      (teardown : Preparation) × (removed : Bool) × (cleanup : CleanupResult) × (s1 : State)
      × (s2 : State) × (s3 : State) × (prepare_runtime_teardown env target s ≡ (gives teardown, s1))
      × (remove_session env current s1 ≡ (gives removed, s2))
      × (finish_killed_session env target teardown current.user s2 ≡ (gives cleanup, s3))
      × (r ≡ cleanup_outcome_of current removed cleanup)

  -- what became of a session that was found
  abbrev pub Attempted : Bool → SessionInfo → State → KillResult → Type 0
  Attempted dry_run target s r =
      ((dry_run ≡ true) × (r ≡ would_kill (identity target)))
      ⊎ (((failure : Failure) × (u : State) × (kill_target env dry_run target s
              ≡ (fails failure, u))
            × (r ≡ kill_failed (identity target) (error_text failure)))
          ⊎ ((dry_run ≡ false) × Finished target s r))

  -- what `kill_expected` did, from this state
  abbrev pub Answers : Bool → Option (List String) → SessionIdentity → State → KillResult → Type 0
  Answers dry_run allowed_users expected s r =
      ((failure : Failure) × (t : State) × (find_target env allowed_users expected s
          ≡ (fails failure, t))
        × (r ≡ kill_failed expected (error_text failure)))
      ⊎ ((target : SessionInfo) × (t : State) × (find_target env allowed_users expected s
            ≡ (gives target, t))
          × Attempted dry_run target t r)

  kill_target-dry :
      (target : SessionInfo) (s : State)
      → kill_target env true target s ≡ (gives (would_kill (identity target)), s)
  unfolding kill_target give
  kill_target-dry target s = refl

  kill_target-Finished :
      (target : SessionInfo) (r : KillResult) (s u : State)
      → kill_target env false target s ≡ (gives r, u)
      → Finished target s r
  unfolding kill_target ◌>>=◌ give
  kill_target-Finished target r s u e =
      let (teardown, s1, prepared_here, rest) =
        bind_to-gives (prepare_runtime_teardown env target s) _ r u e in
      let (removed, s2, removed_here, rest') =
        bind_to-gives (remove_session env (identity target) s1) _ r u rest in
      let (cleanup, s3, finished, last) =
        bind_to-gives (finish_killed_session env target teardown (identity target).user s2) _ r u
          rest' in
      (
        teardown,
        removed,
        cleanup,
        s1,
        s2,
        s3,
        prepared_here,
        removed_here,
        finished,
        sym (ap (λ o. value_or r o.0) last),
      )

  settle-Attempted :
      (dry_run : Bool) (target : SessionInfo) (s : State) (r : Outcome KillResult × State)
      → kill_target env dry_run target s ≡ r
      → Attempted dry_run target s (settle (identity target) r).0
  unfolding settle
  settle-Attempted dry_run target s (fails failure, u) e = inr (inl (failure, u, e, refl))
  settle-Attempted true target s (gives result, u) e =
      inl (refl, sym (ap (λ o. value_or result o.0) (sym (kill_target-dry target s) ∙ e)))
  settle-Attempted false target s (gives result, u) e =
      inr (inr (refl, kill_target-Finished target result s u e))

  pub settle_target-Answers :
      (dry_run : Bool) (allowed_users : Option (List String)) (expected : SessionIdentity)
      (s : State) (found : Outcome SessionInfo × State)
      → find_target env allowed_users expected s ≡ found
      → Answers dry_run allowed_users expected s (settle_target env dry_run expected found).0.1
  unfolding settle
  settle_target-Answers dry_run allowed_users expected s (fails failure, t) e =
      inl (failure, t, e, refl)
  settle_target-Answers dry_run allowed_users expected s (gives target, t) e =
      inr (target, t, e, settle-Attempted dry_run target t (kill_target env dry_run target t) refl)
