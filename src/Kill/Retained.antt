-- ===== src/Kill/Retained.antt =====
-- When `finish_killed_session` of src/uxon/app/kill.py may remove the launch record.
use uxon.Prelude.{
  ◌≡◌, refl, ◌⊎◌, inl, inr, String, Bool, true, false, not, Option, none, some, Bool-cases,
  if-Holds, if◌then◌else◌,
}
use uxon.Session.Json.{Fields}
use uxon.Kill.World.{
  Call, queried, probed, collected, sent_kill, identified, sent_stop, deleted, sent_ssh, recovered,
  audited, Failure, message, Outcome, gives, fails, State, Op, give, bind_to, rescue_from, rescue,
  ◌>>=◌, ◌>>◌,
}
use uxon.Kill.World.Grows.{Traced, Emits, Traced-refl, Traced-trans}
use uxon.Session.Info.{SessionInfo, identity}
use uxon.Kill.Target.{Env, exact_identity_exists}
use uxon.Kill.Teardown.{
  RuntimeTeardown, CleanupResult, cleaned, refused, Preparation, nothing, prepared, skipped,
  run_runtime_teardown,
}
use uxon.Kill.Finish.{
  cleanup_launch_record, stop_and_clean, complete, complete_if_same, finish_if_gone, finish_after,
  finish_killed_session, record_now, record_agrees, already_cleaned,
}
use uxon.Kill.Harmless.{IsHarmless, exact_identity_exists-Emits}
use uxon.Kill.Calls.{run_runtime_teardown-Emits}

abbrev pub kept : Call → Bool
kept (deleted socket session_id nonce) = false
kept (sent_kill argv) = true
kept (sent_stop argv) = true
kept (sent_ssh argv) = true
kept (queried argv) = true
kept (probed user socket) = true
kept (collected user socket session_id) = true
kept (identified runtime resource user) = true
kept recovered = true
kept (audited event fields) = true

-- every call but the removal of a record
abbrev pub IsKept : Call → Type 0
IsKept c = kept c ≡ true

harmless-IsKept : (c : Call) → IsHarmless c → IsKept c
harmless-IsKept (queried argv) h = refl
harmless-IsKept (probed user socket) h = refl
harmless-IsKept (collected user socket session_id) h = refl
harmless-IsKept (sent_kill argv) h = refl
harmless-IsKept (identified runtime resource user) h = refl
harmless-IsKept (sent_stop argv) h = refl
harmless-IsKept (deleted socket session_id nonce) h = h
harmless-IsKept (sent_ssh argv) h = refl
harmless-IsKept recovered h = refl
harmless-IsKept (audited event fields) h = refl

rescue_from-state :
    {A : Type 0} (r : Outcome A × State) (answer : Failure → A)
    → (rescue_from r λ failure. give (answer failure)).1 ≡ r.1
unfolding give
rescue_from-state (gives a, s) answer = refl
rescue_from-state (fails failure, s) answer = refl

module _ (env : Env) (target : SessionInfo) (user : String) where
  -- the workload needs no stop, or it was stopped since the state, with success
  abbrev pub IsStopped : Preparation → State → Type 0
  IsStopped nothing s = Unit
  IsStopped (skipped result) s = ⊥
  IsStopped (prepared teardown) s =
      (t : State) × (t' : State) × (result : CleanupResult) × Traced IsKept s t
      × (run_runtime_teardown env teardown user target.name t ≡ (gives result, t'))
      × (result.ok ≡ true)

  -- a state from which on nothing was removed, or the workload was stopped
  abbrev KeptOrStopped : Preparation → State → State → Type 0
  KeptOrStopped teardown s s' = Traced IsKept s s' ⊎ IsStopped teardown s

  rebase :
      (teardown : Preparation) (s t u : State)
      → Traced IsKept s t
      → KeptOrStopped teardown t u
      → KeptOrStopped teardown s u
  rebase teardown s t u run (inl still) = inl (Traced-trans IsKept s t u run still)
  rebase nothing s t u run (inr stopped) = inr tt
  rebase (skipped result) s t u run (inr stopped) = elim stopped [ ]
  rebase (prepared teardown) s t u run (inr (v, v', result, before, is, ok)) =
      inr (v, v', result, Traced-trans IsKept s t v run before, is, ok)

  ok_cases :
      (teardown : RuntimeTeardown) (s t : State) (r : CleanupResult) (m : Op CleanupResult)
      → run_runtime_teardown env teardown user target.name s ≡ (gives r, t)
      → Traced IsKept s t
      → (ok : Bool) → r.ok ≡ ok
      → KeptOrStopped (prepared teardown) s ((if not ok then give r else m) t).1
  unfolding give
  ok_cases teardown s t r m e run true is = inr (s, t, r, Traced-refl IsKept s, e, is)
  ok_cases teardown s t r m e run false is = inl run

  run_cases :
      (teardown : RuntimeTeardown) (s : State) (r : Outcome CleanupResult × State)
      (m : Op CleanupResult)
      → run_runtime_teardown env teardown user target.name s ≡ r
      → Traced IsKept s r.1
      → KeptOrStopped
          (prepared teardown)
          s
          (bind_to r λ result. if not result.ok then give result else m).1
  run_cases teardown s (fails failure, t) m e run = inl run
  run_cases teardown s (gives r, t) m e run = ok_cases teardown s t r m e run r.ok refl

  complete-KeptOrStopped :
      (teardown : Preparation) (s : State)
      → KeptOrStopped teardown s (complete env target teardown user s).1
  unfolding complete stop_and_clean rescue ◌>>=◌ give Emits
  complete-KeptOrStopped nothing s = inr tt
  complete-KeptOrStopped (skipped result) s = inl (Traced-refl IsKept s)
  complete-KeptOrStopped (prepared teardown) s =
      let stops =
        run_runtime_teardown-Emits IsKept harmless-IsKept env (λ argv. refl) teardown user
          target.name s in
      let ended =
        run_cases teardown s (run_runtime_teardown env teardown user target.name s)
          (cleanup_launch_record env target >> give cleaned) refl stops in
      rw
        (rescue_from-state (stop_and_clean env target (prepared teardown) user s)
          λ failure. refused (message failure))
        ended

  payload_cases :
      (teardown : Preparation) (s : State) (found : Option Fields)
      → KeptOrStopped teardown s (complete_if_same env target teardown user found s).1
  unfolding complete_if_same
  payload_cases teardown s none = elim (Bool-cases (already_cleaned env target teardown s)) [
    | inl is ↦ rw is (inl (Traced-refl IsKept s))
    | inr is_not ↦ rw is_not (inl (Traced-refl IsKept s))
  ]
  payload_cases teardown s (some payload) = elim (Bool-cases (record_agrees target payload)) [
    | inl is ↦ rw is (complete-KeptOrStopped teardown s)
    | inr is_not ↦ rw is_not (inl (Traced-refl IsKept s))
  ]

  finish_if_gone-KeptOrStopped :
      (teardown : Preparation) (s : State) (exists : Bool)
      → KeptOrStopped teardown s (finish_if_gone env target teardown user exists s).1
  unfolding finish_if_gone
  finish_if_gone-KeptOrStopped teardown s true = inl (Traced-refl IsKept s)
  finish_if_gone-KeptOrStopped teardown s false =
      if-Holds (λ (r : Outcome CleanupResult × State). KeptOrStopped teardown s r.1)
        target.launch_record_verified (payload_cases teardown s (record_now env target s))
        (complete-KeptOrStopped teardown s)

  finish_after-KeptOrStopped :
      (teardown : Preparation) (s : State) (r : Outcome Bool × State)
      → Traced IsKept s r.1
      → KeptOrStopped teardown s (finish_after env target teardown user r).1
  unfolding finish_after
  finish_after-KeptOrStopped teardown s (gives exists, t) run =
      rebase teardown s t _ run (finish_if_gone-KeptOrStopped teardown t exists)
  finish_after-KeptOrStopped teardown s (fails failure, t) run = inl run

  -- The end of a removal removes no launch record where the teardown could not be prepared, and where
  -- one was prepared it removes none unless the teardown was run before and succeeded.
  pub finish_killed_session-IsStopped :
      (teardown : Preparation) (s : State)
      → Traced IsKept s (finish_killed_session env target teardown user s).1 ⊎ IsStopped teardown s
  unfolding finish_killed_session Emits
  finish_killed_session-IsStopped teardown s =
      finish_after-KeptOrStopped teardown s (exact_identity_exists env true (identity target) s)
        (exact_identity_exists-Emits IsKept harmless-IsKept env true (identity target) s)
