-- ===== src/Kill/Snapshot.antt =====
-- src/uxon/app/kill.py: `kill_snapshot`, which removes a fixed set of sessions, one after the other.
use uxon.Prelude.{
  ℕ, String, Bool, true, Option, List, [], ◌∷◌, ◌=s◌, map, length, keep, join, if◌then◌else◌,
}
use uxon.Session.Json.{obj}
use uxon.Session.Identity.{SessionIdentity, KillResult, bulk_is_ok, killed_count}
use uxon.Kill.World.{Call, audited, State, advance}
use uxon.Kill.Target.{Env}
use uxon.Kill.Expected.{flag, kill_expected}
use uxon.Kill.Answers.{Answers}
use uxon.Kill.Report.{IsReport, kill_expected-IsReport}
use uxon.Kill.Remote.{to_dict}

abbrev pub action_count : String → List KillResult → ℕ
action_count action results = length (keep (λ r. r.action =s action) results)

module _ (env : Env) where
  -- the values of the event as text; `users` is the sorted list of the set of the targets' users
  unfoldable pub snapshot_event : Bool → List SessionIdentity → List KillResult → Call
  unfolding bulk_is_ok killed_count to_dict
  snapshot_event dry_run targets results = audited "session.kill_all" (
      ("outcome", if bulk_is_ok results then "ok" else "error")
      ∷ ("target_users", join "," (env.py.sorted_set (map (λ t. t.user) targets)))
      ∷ ("attempted_count", env.py.show (if dry_run then 0 else length targets))
      ∷ ("killed_count", env.py.show (killed_count results))
      ∷ ("already_absent_count", env.py.show (action_count "already_absent" results))
      ∷ ("failed_count", env.py.show (action_count "failed" results))
      ∷ (
        "cleanup_failed_count",
        env.py.show (length (keep (λ r. r.cleanup_outcome =s "error") results)),
      )
      ∷ ("dry_run", flag dry_run)
      ∷ ("sessions", join "," (map (λ r. env.json.dumps (obj (to_dict r))) results))
      ∷ [])

  -- the results in the order of the targets; `force` has its default
  unfoldable pub kill_each :
      Bool → Option (List String) → List SessionIdentity → State → List KillResult × State
  unfolding kill_expected
  kill_each dry_run allowed_users [] s = ([], s)
  kill_each dry_run allowed_users (target ∷ targets) s =
      let (result, s') = kill_expected env true dry_run allowed_users target s in
      let (results, s'') = kill_each dry_run allowed_users targets s' in (result ∷ results, s'')

  unfoldable pub kill_snapshot :
      Bool → Option (List String) → List SessionIdentity → State → List KillResult × State
  unfolding kill_each snapshot_event
  kill_snapshot dry_run allowed_users targets s =
      let (results, s') = kill_each dry_run allowed_users targets s in
      (results, advance env.out (snapshot_event dry_run targets results) s')

module _ (env : Env) where
  -- one result for each target, in order, each of an attempt from the state that the one before left
  abbrev pub AreReports :
      Bool → Option (List String) → List SessionIdentity → List KillResult → State → Type 0
  AreReports dry_run allowed_users [] [] s = Unit
  AreReports dry_run allowed_users [] (r ∷ rs) s = ⊥
  AreReports dry_run allowed_users (t ∷ ts) [] s = ⊥
  AreReports dry_run allowed_users (t ∷ ts) (r ∷ rs) s =
      IsReport dry_run t r
      × Answers env dry_run allowed_users t s r
      × AreReports dry_run allowed_users ts rs (kill_expected env true dry_run allowed_users t s).1

  kill_each-AreReports :
      (dry_run : Bool) (allowed_users : Option (List String)) (targets : List SessionIdentity)
      (s : State)
      → AreReports dry_run allowed_users targets (kill_each env dry_run allowed_users targets s).0 s
  unfolding kill_each
  kill_each-AreReports dry_run allowed_users [] s = tt
  kill_each-AreReports dry_run allowed_users (target ∷ targets) s =
      let (report, answers) = kill_expected-IsReport env true dry_run allowed_users target s in
      (
        report,
        answers,
        kill_each-AreReports dry_run allowed_users targets
            (kill_expected env true dry_run allowed_users target s).1,
      )

  -- `kill_snapshot` attempts every target, whatever became of the ones before: its results are one for
  -- each target, in the order of the targets, each names its target in all but the display name, and
  -- says what an attempt at this target answered that began in the state the attempt before left.
  pub kill_snapshot-AreReports :
      (dry_run : Bool) (allowed_users : Option (List String)) (targets : List SessionIdentity)
      (s : State)
      → AreReports dry_run allowed_users targets
          (kill_snapshot env dry_run allowed_users targets s).0
          s
  unfolding kill_snapshot
  kill_snapshot-AreReports dry_run allowed_users targets s =
      kill_each-AreReports dry_run allowed_users targets s
