-- ===== src/Examples/Removals.antt =====
-- The removal of the one session of `Kills`: alone, with all, and from another host.
use uxon.Prelude.{◌≡◌, refl, ◌⊎◌, truthy, Bool, true, false, none, some, [], ◌∷◌, ◌=s◌}
use uxon.Session.Json.{Json, raw, obj, value}
use uxon.Session.Identity.{is_ok, invalid_fields}
use uxon.Cli.Args.{ParsedArgs, args_for}
use uxon.Kill.World.{Call, State, ◌>>=◌, ◌>>◌, give, fail_op, lift, refuse_op, rescue, ask, tell}
use uxon.Kill.World.Grows.{Traced}
use uxon.Kill.Target.{Env}
use uxon.Kill.Teardown.{prepared, run_runtime_teardown}
use uxon.Kill.Finish.{finish_killed_session}
use uxon.Kill.Expected.{kill_expected}
use uxon.Kill.Harmless.{IsHarmless}
use uxon.Kill.Gone.{FoundGone, reports_removal, kill_expected-FoundGone}
use uxon.Kill.Guarded.{
  IsCleared, IsSameRuntime, finish_killed_session-IsCleared, run_runtime_teardown-IsSameRuntime,
}
use uxon.Kill.Retained.{IsKept, IsStopped, finish_killed_session-IsStopped}
use uxon.Kill.Answers.{Answers}
use uxon.Kill.Report.{IsReport, kill_expected-IsReport, kill_expected-dry}
use uxon.Kill.Snapshot.{AreReports, kill_snapshot, kill_snapshot-AreReports}
use uxon.Kill.Remote.{kill_payload, kill_envelope, result_of_reply}
use uxon.Kill.Remote.RoundTrip.{exit_code, remote_kill-RoundTrip}
use uxon.Kill.Remote.Believed.{IsAnswer, result_of_reply-IsAnswer}
use uxon.Kill.Command.{do_kill, do_kill_all}
use uxon.Kill.Command.Confirmed.{IsTyped, do_kill-IsTyped, do_kill_all-IsTyped}
use uxon.Examples.Kills.{expected, env, start, result, front, target, teardown, printed}

is_removal : reports_removal result ≡ true
unfolding kill_expected ◌>>=◌ ◌>>◌ give fail_op lift refuse_op rescue ask tell invalid_fields
is_removal = refl

kill_expected-FoundGone_example :
    FoundGone env result.identity start (kill_expected env true false none expected start).1
kill_expected-FoundGone_example =
    kill_expected-FoundGone env true false none expected start is_removal

-- the state in which the session is gone
abbrev gone : State
gone = record { calls = Call.sent_kill [] ∷ []; store = start.store }

finish_killed_session-IsCleared_example :
    Traced IsHarmless gone (finish_killed_session env target (prepared teardown) "ann" gone).1
    ⊎ IsCleared env target gone
finish_killed_session-IsCleared_example =
    finish_killed_session-IsCleared env target (prepared teardown) "ann" gone

run_runtime_teardown-IsSameRuntime_example :
    Traced IsHarmless gone (run_runtime_teardown env teardown "ann" "uxon-a" gone).1
    ⊎ IsSameRuntime env teardown gone
run_runtime_teardown-IsSameRuntime_example =
    run_runtime_teardown-IsSameRuntime env teardown "ann" "uxon-a" gone

finish_killed_session-IsStopped_example :
    Traced IsKept gone (finish_killed_session env target (prepared teardown) "ann" gone).1
    ⊎ IsStopped env target "ann" (prepared teardown) gone
finish_killed_session-IsStopped_example =
    finish_killed_session-IsStopped env target "ann" (prepared teardown) gone

kill_expected-IsReport_example :
    IsReport false expected result × Answers env false none expected start result
kill_expected-IsReport_example = kill_expected-IsReport env true false none expected start

kill_expected-dry_example :
    Traced IsHarmless start (kill_expected env true true none expected start).1
kill_expected-dry_example = kill_expected-dry env true none expected start

kill_snapshot-AreReports_example :
    AreReports env false none
      (expected ∷ expected ∷ [])
      (kill_snapshot env false none (expected ∷ expected ∷ []) start).0
      start
kill_snapshot-AreReports_example =
    kill_snapshot-AreReports env false none (expected ∷ expected ∷ []) start

abbrev bool : Bool → Json
bool true = raw "true"
bool false = raw "false"

-- a host that reads what the other printed
abbrev here : Env
here = record {
  json = record {
    loads = λ t. value (obj (kill_envelope "1" (kill_payload bool "/s" "ann" false result)));
    dumps = λ v. "";
  };
  host = env.host;
  process = env.process;
  py = env.py;
  cfg = env.cfg;
  out = env.out;
  server = env.server;
  sessions = env.sessions;
  live = env.live;
}

is_named : truthy result.identity.name ≡ true
unfolding kill_expected ◌>>=◌ ◌>>◌ give fail_op lift refuse_op rescue ask tell invalid_fields
is_named = refl

is_zero : "0" ≡ exit_code result
unfolding kill_expected ◌>>=◌ ◌>>◌ give fail_op lift refuse_op rescue ask tell invalid_fields is_ok
is_zero = refl

remote_kill-RoundTrip_example :
    result_of_reply here front.shell true expected (printed "response") ≡ result
remote_kill-RoundTrip_example =
    remote_kill-RoundTrip env here front.shell true true none expected start (printed "response")
      bool "/s" "1" is_named refl is_zero

is_success : is_ok (result_of_reply here front.shell true expected (printed "response")) ≡ true
unfolding kill_expected ◌>>=◌ ◌>>◌ give fail_op lift refuse_op rescue ask tell invalid_fields is_ok
    result_of_reply kill_envelope kill_payload
is_success = refl

result_of_reply-IsAnswer_example :
    (("0" =s "0") ≡ true) × IsAnswer expected (here.json.loads "response")
result_of_reply-IsAnswer_example =
    result_of_reply-IsAnswer here front.shell true expected (printed "response") is_success

-- `uxon kill 1 --user ann`, and `uxon kill-all`
abbrev kill_args : ParsedArgs
kill_args = record (args_for "kill") { target_id = some "1"; user = some "ann" }

do_kill-IsTyped_example :
    Traced IsHarmless start (do_kill env front kill_args "bob" start).1 ⊎ IsTyped env front "kill"
do_kill-IsTyped_example = do_kill-IsTyped env front kill_args refl refl "bob" start refl

do_kill_all-IsTyped_example :
    Traced IsHarmless start (do_kill_all env front kill_args "ann" start).1
    ⊎ IsTyped env front "kill-all"
do_kill_all-IsTyped_example = do_kill_all-IsTyped env front kill_args refl refl "ann" start
