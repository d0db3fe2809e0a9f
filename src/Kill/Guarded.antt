-- ===== src/Kill/Guarded.antt =====
-- What must hold before a workload is stopped or a record removed.
use uxon.Prelude.{
  ◌≡◌, refl, ◌⊎◌, inl, inr, String, Bool, true, false, Option, none, some, List, ◌++◌, ◌=s◌,
  Bool-cases, if◌then◌else◌,
}
use uxon.Session.Json.{Fields}
use uxon.Kill.World.{Call, sent_stop, Outcome, gives, fails, State, bind_to, ◌>>=◌}
use uxon.Kill.World.Grows.{Traced, Emits, Traced-refl, Traced-trans}
use uxon.Session.Info.{SessionInfo, identity}
use uxon.Kill.Target.{Runtime, RuntimeIdentity, Env, exact_identity_exists}
use uxon.Kill.Teardown.{
  RuntimeTeardown, Preparation, same_runtime, stop_if_same, run_with, run_runtime_teardown,
  current_runtime_identity,
}
use uxon.Kill.Finish.{
  record_now, record_agrees, already_cleaned, complete, complete_if_same, finish_if_gone,
  finish_after, finish_killed_session,
}
use uxon.Kill.Harmless.{
  IsHarmless, exact_identity_exists-Emits, skip_stop-Emits, current_runtime_identity-Emits,
}

module _ (env : Env) where
  -- the record that the target was read from is there and says the same
  abbrev pub RecordAgrees : SessionInfo → State → Type 0
  RecordAgrees target s =
      (payload : Fields) × (record_now env target s ≡ some payload)
      × (record_agrees target payload ≡ true)

  -- the session was looked for and is not there, and what was captured of it still holds
  abbrev pub IsCleared : SessionInfo → State → Type 0
  IsCleared target s =
      (t : State) × (exact_identity_exists env true (identity target) s ≡ (gives false, t))
      × Traced IsHarmless s t
      × ((target.launch_record_verified ≡ false) ⊎ RecordAgrees target t)

  keep_harmless : (c : Call) → IsHarmless c → IsHarmless c
  keep_harmless c h = h

  record_cases :
      (target : SessionInfo) (teardown : Preparation) (user : String) (s : State)
      (found : Option Fields)
      → record_now env target s ≡ found
      → Traced IsHarmless s (complete_if_same env target teardown user found s).1
        ⊎ RecordAgrees target s
  unfolding complete_if_same
  record_cases target teardown user s none e =
      elim (Bool-cases (already_cleaned env target teardown s)) [
        | inl is ↦ rw is (inl (Traced-refl IsHarmless s))
        | inr is_not ↦ rw is_not (inl (Traced-refl IsHarmless s))
      ]
  record_cases target teardown user s (some payload) e =
      elim (Bool-cases (record_agrees target payload)) [
        | inl is ↦ inr (payload, e, is)
        | inr is_not ↦ rw is_not (inl (Traced-refl IsHarmless s))
      ]

  verified_cases :
      (target : SessionInfo) (teardown : Preparation) (user : String) (s : State) (verified : Bool)
      → target.launch_record_verified ≡ verified
      → Traced IsHarmless s
          (if verified
            then complete_if_same env target teardown user (record_now env target s) s
            else complete env target teardown user s).1
        ⊎ ((target.launch_record_verified ≡ false) ⊎ RecordAgrees target s)
  verified_cases target teardown user s false e = inr (inl e)
  verified_cases target teardown user s true e =
      elim (record_cases target teardown user s (record_now env target s) refl) [
        | inl still ↦ inl still
        | inr agrees ↦ inr (inr agrees)
      ]

  finish_cases :
      (target : SessionInfo) (teardown : Preparation) (user : String) (s : State)
      (r : Outcome Bool × State)
      → exact_identity_exists env true (identity target) s ≡ r
      → Traced IsHarmless s r.1
      → Traced IsHarmless s (finish_after env target teardown user r).1 ⊎ IsCleared target s
  unfolding finish_after finish_if_gone
  finish_cases target teardown user s (gives true, t) e first = inl first
  finish_cases target teardown user s (fails failure, t) e first = inl first
  finish_cases target teardown user s (gives false, t) e first =
      elim (verified_cases target teardown user t target.launch_record_verified refl) [
        | inl still ↦ inl (Traced-trans IsHarmless s t _ first still)
        | inr cleared ↦ inr (t, e, first, cleared)
      ]

  -- The end of a removal stops no workload and removes no record, unless tmux has just answered
  -- that the exact session is gone and, for a target read from a record, the record is still there
  -- and still agrees with every captured field.
  pub finish_killed_session-IsCleared :
      (target : SessionInfo) (teardown : Preparation) (user : String) (s : State)
      → Traced IsHarmless s (finish_killed_session env target teardown user s).1
        ⊎ IsCleared target s
  unfolding finish_killed_session Emits
  finish_killed_session-IsCleared target teardown user s =
      let asked : Traced IsHarmless s (exact_identity_exists env true (identity target) s).1 =
        exact_identity_exists-Emits IsHarmless keep_harmless env true (identity target) s in
      finish_cases target teardown user s (exact_identity_exists env true (identity target) s) refl
        asked

  -- what a stop may call beside what is harmless: the stop command of the teardown, after a prefix
  abbrev pub IsStopOf : RuntimeTeardown → Call → Type 0
  IsStopOf teardown c =
      IsHarmless c ⊎ ((prefix : List String) × (c ≡ sent_stop (prefix ++ teardown.stop_cmd)))

  -- the runtime is configured as it was, and its resource is the one that was launched
  abbrev pub IsSameRuntime : RuntimeTeardown → State → Type 0
  IsSameRuntime teardown s =
      (profile : Runtime) × (env.cfg.runtimes teardown.runtime ≡ some profile)
      × ((profile.fingerprint =s teardown.runtime_fingerprint) ≡ true)
      × (live : RuntimeIdentity) × (t : State) × (current_runtime_identity env teardown s
          ≡ (gives (some live), t))
      × (same_runtime teardown live ≡ true)

  live_cases :
      (teardown : RuntimeTeardown) (profile : Runtime) (user name : String) (s : State)
      (r : Outcome (Option RuntimeIdentity) × State)
      → current_runtime_identity env teardown s ≡ r
      → Traced IsHarmless s r.1
      → Traced IsHarmless s (bind_to r (stop_if_same env teardown profile user name)).1
        ⊎ ((live : RuntimeIdentity) × (t : State) × (current_runtime_identity env teardown s
              ≡ (gives (some live), t))
            × (same_runtime teardown live ≡ true))
  unfolding stop_if_same Emits
  live_cases teardown profile user name s (fails failure, t) e first = inl first
  live_cases teardown profile user name s (gives none, t) e first = inl (
      Traced-trans IsHarmless s t _ first
        (skip_stop-Emits IsHarmless keep_harmless env teardown user name _ _ t))
  live_cases teardown profile user name s (gives (some live), t) e first =
      elim (Bool-cases (same_runtime teardown live)) [
        | inl is ↦ inr (live, t, e, is)
        | inr is_not ↦ rw is_not (
            inl (
              Traced-trans IsHarmless s t _ first
                (skip_stop-Emits IsHarmless keep_harmless env teardown user name _ _ t)))
      ]

  profile_cases :
      (teardown : RuntimeTeardown) (user name : String) (s : State) (profile : Option Runtime)
      → env.cfg.runtimes teardown.runtime ≡ profile
      → Traced IsHarmless s (run_with env teardown user name profile s).1 ⊎ IsSameRuntime teardown s
  unfolding run_with Emits ◌>>=◌
  profile_cases teardown user name s none e =
      inl (skip_stop-Emits IsHarmless keep_harmless env teardown user name _ _ s)
  profile_cases teardown user name s (some profile) e =
      elim (Bool-cases (profile.fingerprint =s teardown.runtime_fingerprint)) [
        | inr is_not ↦
            rw is_not (inl (skip_stop-Emits IsHarmless keep_harmless env teardown user name _ _ s))
        | inl is ↦
            let live =
              live_cases teardown profile user name s (current_runtime_identity env teardown s) refl
                (current_runtime_identity-Emits IsHarmless keep_harmless env teardown s) in
            elim live [
              | inl still ↦ rw is (inl still)
              | inr (found, t, at, same) ↦ inr (profile, e, is, found, t, at, same)
            ]
      ]

  -- A teardown that was prepared calls nothing but what is harmless, unless the runtime still has
  -- the fingerprint of the launch and the live resource still has the id and the epoch of the launch.
  pub run_runtime_teardown-IsSameRuntime :
      (teardown : RuntimeTeardown) (user name : String) (s : State)
      → Traced IsHarmless s (run_runtime_teardown env teardown user name s).1
        ⊎ IsSameRuntime teardown s
  unfolding run_runtime_teardown
  run_runtime_teardown-IsSameRuntime teardown user name s =
      profile_cases teardown user name s (env.cfg.runtimes teardown.runtime) refl
