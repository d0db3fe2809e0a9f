-- ===== src/Kill/Report.antt =====
-- What `kill_expected` of src/uxon/app/kill.py returns, whatever happens.
use uxon.Prelude.{
  ◌≡◌, refl, sym, ap, ◌⊎◌, inl, inr, String, Bool, true, false, Option, none, some, List, [], ◌∷◌,
  truthy, Bool-cases,
}
use uxon.Session.Json.{Fields}
use uxon.Session.Identity.{SessionIdentity, matches, KillResult}
use uxon.Launch.Record.Reloaded.{same_text_here}
use uxon.Kill.World.{
  Failure, exited, timed_out, os_error, os, blocking_io, broken_pipe, child_process,
  connection_refused, file_exists, file_not_found, interrupted, is_a_directory, not_a_directory,
  permission, process_lookup, timeout, message, type_name, class_name, Outcome, gives, fails, State,
  OsError, Op, give, fail_op, bind_to, ◌>>=◌, ◌>>◌,
}
use uxon.Kill.World.Grows.{Traced, Emits, Traced-trans, Traced-advance}
use uxon.Session.Info.{SessionInfo, identity}
use uxon.Kill.Target.{Env, validate_session_context, ◌or◌}
use uxon.Kill.Teardown.{CleanupResult, prepare_runtime_teardown}
use uxon.Kill.Finish.{finish_killed_session}
use uxon.Kill.Expected.{
  row_of, with_record, same_execution, target_with, target_for_identity, find_target,
  collect_snapshot, captured_record, remove_session, would_kill, cleanup_outcome_of, kill_failed,
  kill_target, settle, settle_target, kill_event, kill_expected,
}
use uxon.Kill.Harmless.{IsHarmless, find_target-Emits}
use uxon.Kill.Gone.{bind_to-gives}
use uxon.Kill.Answers.{value_or, Answers, settle_target-Answers}

pub matches_refl : (a : SessionIdentity) → matches a a ≡ true
unfolding matches
matches_refl a =
    rw
      (
        same_text_here a.user,
        same_text_here a.session_id,
        same_text_here a.created,
        same_text_here a.launch_nonce,
        same_text_here a.socket_path,
        same_text_here a.execution_backend,
        same_text_here a.execution_fingerprint,
      )
      refl

row_of-matches :
    (expected : SessionIdentity) (rows : List SessionInfo)
    → matches expected (identity (row_of expected rows)) ≡ true
unfolding row_of identity
row_of-matches expected [] = matches_refl expected
row_of-matches expected (row ∷ rows) =
    let later = row_of-matches expected rows in
    elim (Bool-cases (matches expected (identity row))) [
      | inl is ↦ rw is is
      | inr is_not ↦ rw is_not later
    ]

class_name-truthy : (error : OsError) → truthy (class_name error) ≡ true
unfolding class_name
class_name-truthy os = refl
class_name-truthy blocking_io = refl
class_name-truthy broken_pipe = refl
class_name-truthy child_process = refl
class_name-truthy connection_refused = refl
class_name-truthy file_exists = refl
class_name-truthy file_not_found = refl
class_name-truthy interrupted = refl
class_name-truthy is_a_directory = refl
class_name-truthy not_a_directory = refl
class_name-truthy permission = refl
class_name-truthy process_lookup = refl
class_name-truthy timeout = refl

type_name-truthy : (failure : Failure) → truthy (type_name failure) ≡ true
unfolding type_name
type_name-truthy (exited code msg) = refl
type_name-truthy (timed_out msg) = refl
type_name-truthy (os_error error msg) = class_name-truthy error

or-truthy : (a b : String) → truthy b ≡ true → truthy (a or b) ≡ true
or-truthy a b h = elim (Bool-cases (truthy a)) [ inl is ↦ rw is is | inr is_not ↦ rw is_not h ]

-- the forms of a result that names this session
abbrev pub HasForm : Bool → SessionIdentity → KillResult → Type 0
HasForm dry_run current r =
    ((dry_run ≡ true) × (r ≡ would_kill current))
    ⊎ (((error : String) × (truthy error ≡ true) × (r ≡ kill_failed current error))
        ⊎ ((removed : Bool) × (cleanup : CleanupResult) × (r
              ≡ cleanup_outcome_of current removed cleanup)))

-- a result that names the session that was captured
abbrev pub IsReport : Bool → SessionIdentity → KillResult → Type 0
IsReport dry_run expected r =
    (current : SessionIdentity) × (matches expected current ≡ true) × HasForm dry_run current r

module _ (env : Env) where
  -- what an operation gives is of the session
  abbrev IsCaptured : SessionIdentity → Outcome SessionInfo → Type 0
  IsCaptured expected (gives target) = matches expected (identity target) ≡ true
  IsCaptured expected (fails f) = Unit

  target_with-IsCaptured :
      (expected : SessionIdentity) (target : SessionInfo) (payload : Option Fields) (s : State)
      → matches expected (identity target) ≡ true
      → IsCaptured expected (target_with env true expected target payload s).0
  unfolding target_with fail_op give with_record identity
  target_with-IsCaptured expected target none s same = tt
  target_with-IsCaptured expected target (some payload) s same =
      elim (Bool-cases (same_execution env expected payload)) [
        | inl is ↦ rw is same
        | inr is_not ↦ rw is_not tt
      ]

  bind_to-IsCaptured :
      {A : Type 0} (expected : SessionIdentity) (r : Outcome A × State) (f : A → Op SessionInfo)
      → ((a : A) (t : State) → IsCaptured expected (f a t).0)
      → IsCaptured expected (bind_to r f).0
  bind_to-IsCaptured expected (gives a, t) f h = h a t
  bind_to-IsCaptured expected (fails e, t) f h = tt

  find_target-IsCaptured :
      (allowed_users : Option (List String)) (expected : SessionIdentity) (s : State)
      → IsCaptured expected (find_target env allowed_users expected s).0
  unfolding find_target target_for_identity ◌>>=◌ ◌>>◌
  find_target-IsCaptured allowed_users expected s = bind_to-IsCaptured expected _ _ λ done t.
      bind_to-IsCaptured expected (validate_session_context env true expected t) _ λ done t.
        bind_to-IsCaptured expected (collect_snapshot env expected t) _ λ rows t.
          bind_to-IsCaptured expected (captured_record env expected t)
            (λ payload. target_with env true expected (row_of expected rows) payload)
            λ payload t.
              target_with-IsCaptured expected (row_of expected rows) payload t
                (row_of-matches expected rows)

  kill_target-HasForm :
      (dry_run : Bool) (target : SessionInfo) (r : KillResult) (s u : State)
      → kill_target env dry_run target s ≡ (gives r, u)
      → HasForm dry_run (identity target) r
  unfolding kill_target ◌>>=◌ give
  kill_target-HasForm true target r s u e = inl (refl, sym (ap (λ o. value_or r o.0) e))
  kill_target-HasForm false target r s u e =
      let (teardown, t, prepared_here, rest) =
        bind_to-gives (prepare_runtime_teardown env target s) _ r u e in
      let (removed, v, removed_here, rest') =
        bind_to-gives (remove_session env (identity target) t) _ r u rest in
      let (cleanup, w, finished, last) =
        bind_to-gives (finish_killed_session env target teardown (identity target).user v) _ r u
          rest' in
      inr (inr (removed, cleanup, sym (ap (λ o. value_or r o.0) last)))

  settle-HasForm :
      (dry_run : Bool) (current : SessionIdentity) (r : Outcome KillResult × State)
      → ((result : KillResult) → r.0 ≡ gives result → HasForm dry_run current result)
      → HasForm dry_run current (settle current r).0
  unfolding settle
  settle-HasForm dry_run current (gives result, s) h = h result refl
  settle-HasForm dry_run current (fails failure, s) h =
      inr
        (inl (_, or-truthy (message failure) (type_name failure) (type_name-truthy failure), refl))

  settle_target-IsReport :
      (dry_run : Bool) (expected : SessionIdentity) (found : Outcome SessionInfo × State)
      → IsCaptured expected found.0
      → IsReport dry_run expected (settle_target env dry_run expected found).0.1
  settle_target-IsReport dry_run expected (fails failure, s) h = (
    expected,
    matches_refl expected,
    settle-HasForm dry_run expected (fails failure, s) λ r e. cc,
  )
  settle_target-IsReport dry_run expected (gives target, s) h = (
    identity target,
    h,
    settle-HasForm dry_run (identity target) (kill_target env dry_run target s) λ r e.
        kill_target-HasForm dry_run target r s (kill_target env dry_run target s).1
          (ap (λ o. (o, (kill_target env dry_run target s).1)) e),
  )

  -- Whatever fails, `kill_expected` returns a result, and the result names the session that was
  -- captured, in all but its display name: "would-kill" without an error, and this in a dry run
  -- only; or "failed" with an error text that is not empty; or "killed" or "already_absent". It is
  -- "failed" where the search for the session failed or a step of the removal did, with the text of
  -- this failure; else, outside a dry run, the preparation, the removal and the end of the removal all
  -- answered, one after another, and it says what the last two answered.
  pub kill_expected-IsReport :
      (force dry_run : Bool) (allowed_users : Option (List String)) (expected : SessionIdentity)
      (s : State)
      → let r = (kill_expected env force dry_run allowed_users expected s).0 in
        IsReport dry_run expected r × Answers env dry_run allowed_users expected s r
  unfolding kill_expected
  kill_expected-IsReport force dry_run allowed_users expected s =
      let found = find_target env allowed_users expected s in
      (
        settle_target-IsReport dry_run expected found
            (find_target-IsCaptured allowed_users expected s),
        settle_target-Answers env dry_run allowed_users expected s found refl,
      )

  settle_target-dry :
      (expected : SessionIdentity) (s : State) (found : Outcome SessionInfo × State)
      → Traced IsHarmless s found.1
      → Traced IsHarmless s (settle_target env true expected found).1
  unfolding settle kill_target give
  settle_target-dry expected s (gives target, t) run = run
  settle_target-dry expected s (fails failure, t) run = run

  -- A dry run of `kill_expected` sends no removal to tmux, stops no workload, removes no launch record
  -- and runs nothing on another host, however it ends.
  pub kill_expected-dry :
      (force : Bool) (allowed_users : Option (List String)) (expected : SessionIdentity) (s : State)
      → Traced IsHarmless s (kill_expected env force true allowed_users expected s).1
  unfolding kill_expected Emits
  kill_expected-dry force allowed_users expected s =
      let found = find_target env allowed_users expected s in
      let settled = settle_target env true expected found in
      Traced-trans IsHarmless s settled.1 _
        (settle_target-dry expected s found
          (find_target-Emits IsHarmless (λ c h. h) env allowed_users expected s))
        (Traced-advance IsHarmless env.out (kill_event force true settled.0) settled.1 refl)
