-- ===== src/Kill/World.antt =====
-- src/uxon/app/kill.py as code with an outside: what it runs, and what the other processes do to the
-- store of launch records in the meantime. A call is recorded when it is made, the newest first, and
-- what is outside answers by all the calls so far.
pub mod Grows
use uxon.Prelude.{ℕ, String, Bool, true, false, List, [], ◌∷◌, Result, ok, err, usage, failed}
use uxon.Launch.Store.{Store}

-- what leaves the program
pub data Call : Type 0 where
  -- list-sessions
  queried : List String → Call
  -- probe_tmux_server: the user and the socket
  probed : String → String → Call
  -- collect_session_snapshot_for_user: the user, the socket and the session's id
  collected : String → String → String → Call
  -- the guarded kill-session
  sent_kill : List String → Call
  -- current_runtime_identity_for_profile: the runtime, its resource and the launch user
  identified : String → String → String → Call
  -- the stop command of a runtime
  sent_stop : List String → Call
  -- delete_verified_record: the socket, the session's id and its nonce
  deleted : String → String → String → Call
  -- ssh to a peer
  sent_ssh : List String → Call
  -- recover_wedged_master
  recovered : Call
  -- an event and its fields
  audited : String → List (String × String) → Call

-- `CompletedProcess`, the return code as decimal text
pub record Completed : Type 0 where
  pub returncode : String
  pub stdout : String
  pub stderr : String

-- `OSError` and the classes below it
pub data OsError : Type 0 where
  os : OsError
  blocking_io : OsError
  broken_pipe : OsError
  child_process : OsError
  connection_refused : OsError
  file_exists : OsError
  file_not_found : OsError
  interrupted : OsError
  is_a_directory : OsError
  not_a_directory : OsError
  permission : OsError
  process_lookup : OsError
  timeout : OsError

-- the name of the class
unfoldable pub class_name : OsError → String
class_name os = "OSError"
class_name blocking_io = "BlockingIOError"
class_name broken_pipe = "BrokenPipeError"
class_name child_process = "ChildProcessError"
class_name connection_refused = "ConnectionRefusedError"
class_name file_exists = "FileExistsError"
class_name file_not_found = "FileNotFoundError"
class_name interrupted = "InterruptedError"
class_name is_a_directory = "IsADirectoryError"
class_name not_a_directory = "NotADirectoryError"
class_name permission = "PermissionError"
class_name process_lookup = "ProcessLookupError"
class_name timeout = "TimeoutError"

-- what is raised: `SystemExit` of `fail`; `TimeoutExpired`; an `OSError`
pub data Failure : Type 0 where
  exited : ℕ → String → Failure
  timed_out : String → Failure
  os_error : OsError → String → Failure

-- getattr(exc, "uxon_msg", str(exc))
unfoldable pub message : Failure → String
message (exited code msg) = msg
message (timed_out msg) = msg
message (os_error error msg) = msg

-- type(exc).__name__
unfoldable pub type_name : Failure → String
unfolding class_name
type_name (exited code msg) = "SystemExit"
type_name (timed_out msg) = "TimeoutExpired"
type_name (os_error error msg) = class_name error

pub data Outcome (A : Type 0) : Type 0 where
  gives : A → Outcome A
  fails : Failure → Outcome A

pub record State : Type 0 where
  -- the calls so far
  pub calls : List Call
  pub store : Store

-- the other processes, after a call: the history begins with the call that they answer
pub record Outside : Type 0 where
  pub reply : List Call → Outcome Completed
  pub meanwhile : List Call → Store → Store

abbrev pub Op : Type 0 → Type 0
Op A = State → Outcome A × State

abbrev pub advance : Outside → Call → State → State
advance out c s =
    let calls = c ∷ s.calls in record { calls = calls; store = out.meanwhile calls s.store }

module _ {A : Type 0} where
  unfoldable pub give : A → Op A
  give a s = (gives a, s)

  -- fail(msg, code)
  unfoldable pub fail_op : ℕ → String → Op A
  fail_op code msg s = (fails (exited code msg), s)

  -- a function of the program that may fail, and changes nothing
  unfoldable pub lift : Outcome A → Op A
  lift o s = (o, s)

abbrev pub of_result : {A : Type 0} → Result A → Outcome A
of_result (ok a) = gives a
of_result (err usage) = fails (exited 0 "")
of_result (err (failed code msg)) = fails (exited code msg)

abbrev pub bind_to : {A B : Type 0} → Outcome A × State → (A → Op B) → Outcome B × State
bind_to (gives a, s) f = f a s
bind_to (fails e, s) f = (fails e, s)

infixl 10 ◌>>=◌ ◌>>◌
unfoldable pub ◌>>=◌ : {A B : Type 0} → Op A → (A → Op B) → Op B
m >>= f = λ s. bind_to (m s) f

unfoldable pub ◌>>◌ : {B : Type 0} → Op (Unit {0}) → Op B → Op B
unfolding ◌>>=◌
m >> k = m >>= λ _. k

-- if bad: fail(msg, code)
unfoldable pub refuse_op : Bool → ℕ → String → Op (Unit {0})
unfolding give fail_op
refuse_op false code msg = give tt
refuse_op true code msg = fail_op code msg

-- try: ... except
abbrev pub rescue_from : {A : Type 0} → Outcome A × State → (Failure → Op A) → Outcome A × State
rescue_from (gives a, s) handler = (gives a, s)
rescue_from (fails e, s) handler = handler e s

unfoldable pub rescue : {A : Type 0} → Op A → (Failure → Op A) → Op A
rescue m handler = λ s. rescue_from (m s) handler

-- run_query(argv)
unfoldable pub ask : Outside → Call → Op Completed
ask out c s = let s' = advance out c s in (out.reply s'.calls, s')

-- a call whose answer is not looked at
unfoldable pub tell : Outside → Call → Op (Unit {0})
tell out c s = (gives tt, advance out c s)
