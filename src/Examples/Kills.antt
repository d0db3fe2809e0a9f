-- ===== src/Examples/Kills.antt =====
-- A host with one session, its runtime and its record, and a tmux that answers as the calls so far ask.
use uxon.Prelude.{
  ◌≡◌, refl, String, Bool, true, false, none, some, List, [], ◌∷◌, ◌=s◌, ◌==◌, any, if◌then◌else◌,
}
use uxon.Session.Json.{str, raw, obj, Fields, end, field, value, malformed, JsonLib}
use uxon.Session.Identity.{SessionIdentity, KillResult, invalid_fields}
use uxon.Launch.Directory.{Meta, Process}
use uxon.Launch.Store.{Store}
use uxon.Launch.Record.{younger, Host}
use uxon.Kill.World.{
  Call, sent_kill, Completed, Outcome, gives, State, ◌>>=◌, ◌>>◌, give, fail_op, lift, refuse_op,
  rescue, ask, tell,
}
use uxon.Session.Info.{SessionInfo}
use uxon.Kill.Target.{Config, formatted, Python, absent, Env}
use uxon.Kill.Teardown.{RuntimeTeardown, teardown_of}
use uxon.Kill.Expected.{described, with_record, kill_expected}
use uxon.Kill.Command.{Front}

abbrev pub nonce : String
nonce = "abcdefghijklmnop"

abbrev pub expected : SessionIdentity
expected = record {
  user = "ann";
  name = "uxon-a";
  session_id = "$1";
  created = "77";
  launch_nonce = nonce;
  socket_path = "/s";
  execution_backend = "sudo";
  execution_fingerprint = "f1";
}

abbrev pub payload : Fields
payload = field "version" (raw "4") (
    field "socket_path" (str "/s") (
      field "launch_nonce" (str nonce) (
        field "launch_user" (str "ann") (
          field "status" (str "finalized") (
            field "tmux_session_id" (str "$1") (
              field "tmux_session_created" (str "77") (
                field "execution_backend" (str "sudo") (
                  field "execution_fingerprint" (str "f1") (
                    field "runtime" (str "box") (
                      field "runtime_kind" (str "command") (
                        field "runtime_fingerprint" (str "g1") (
                          field "runtime_resource" (str "box1") (
                            field "runtime_dir" (str "/w") (
                              field "project_slug" (str "w") (
                                field "runtime_id" (str "i1") (
                                  field "runtime_epoch" (str "e1") (
                                    field "profile" (str "p")
                                      (field "agent" (str "a") end))))))))))))))))))

abbrev json : JsonLib
json = record {
  loads = λ t. if t =s "record" then value (obj payload) else malformed "no JSON";
  dumps = λ v. "record";
}

abbrev host : Host
host = record {
  sha256_hex = λ t. "a1";
  number = λ n. raw "4";
  is_number = λ n v. n == 4;
  age = λ current retention v. younger;
  shown = λ v. "";
  has_json_suffix = λ t. true;
}

abbrev process : Process
process = record {
  euid = 1000;
  egid = 1000;
  groups = [];
  groups_of = λ user. some [];
  unlink_error = λ name. none;
  can_list = true;
  can_replace_cursor = true;
}

abbrev directory : Meta
directory = record { is_link = false; is_dir = true; uid = 1000; gid = 1000; mode = 448 }

abbrev store : Store
store = record {
  is_absolute = true;
  root = directory;
  components = some directory ∷ [];
  acl = false;
  files =
      (
        "a1.json",
        record {
          is_link = false;
          is_regular = true;
          uid = 1000;
          gid = 1000;
          mode = 384;
          text = "record";
        },
      )
      ∷ [];
}

abbrev pub py : Python
py = record {
  repr = λ t. t;
  strip = λ t. t;
  splitlines = λ t. if t =s "" then [] else t ∷ [];
  split_tab = λ t. "$1" ∷ "77" ∷ nonce ∷ [];
  has_part = λ a b. false;
  quote = λ t. t;
  sorted = λ ts. ts;
  sorted_set = λ ts. ts;
  show = λ n. "n";
  cut = λ n t. t;
  format = λ t values. formatted t;
}

abbrev cfg : Config
cfg = record {
  socket_path = λ user. gives "/s";
  backend = λ user. gives (record { id = "sudo"; fingerprint = "f1" });
  prefix = λ user. gives [];
  runtimes = λ id.
      some (record {
        id = "box";
        fingerprint = "g1";
        stop_command = "stop" ∷ [];
        stop_timeout = "10";
      });
  shared_records = false;
}

abbrev is_kill : Call → Bool
is_kill (sent_kill argv) = true
is_kill other = false

abbrev pub printed : String → Completed
printed text = record { returncode = "0"; stdout = text; stderr = "" }

-- the session is listed until it is removed
abbrev pub reply : List Call → Outcome Completed
reply [] = gives (printed "")
reply (sent_kill argv ∷ calls) = gives (printed "uxon-kill-matched")
reply (call ∷ calls) =
    if any is_kill calls then gives (printed "") else gives (printed "$1\t77\tabcdefghijklmnop")

abbrev pub env : Env
env = record {
  json = json;
  host = host;
  process = process;
  py = py;
  cfg = cfg;
  out = record { reply = reply; meanwhile = λ calls s. s };
  server = λ o. gives (record { state = absent; error = "" });
  sessions = λ o. gives [];
  live = λ o. gives (some (record { id = "i1"; epoch = "e1" }));
}

abbrev pub start : State
start = record { calls = []; store = store }

abbrev pub result : KillResult
result = (kill_expected env true false none expected start).0

is_killed : (result.action =s "killed") ≡ true
unfolding kill_expected ◌>>=◌ ◌>>◌ give fail_op lift refuse_op rescue ask tell invalid_fields
is_killed = refl

is_cleaned : (result.cleanup_outcome =s "ok") ≡ true
unfolding kill_expected ◌>>=◌ ◌>>◌ give fail_op lift refuse_op rescue ask tell invalid_fields
is_cleaned = refl

abbrev pub front : Front
front = record {
  shell = record { quote = λ t. t; split = λ t. t ∷ [] };
  tty = true;
  input = λ prompt. "no";
  reachable = λ user. true;
  sessions = λ user. gives (described expected ∷ []);
  resolve = λ text rows. gives (described expected);
  remote_hosts = [];
  multiplexed = true;
  remote_identity = λ peer text user. gives expected;
  new_id = "c1";
}

-- the target, once its record was read
abbrev pub target : SessionInfo
target = with_record env (described expected) payload

abbrev pub teardown : RuntimeTeardown
teardown = teardown_of env target ("stop" ∷ [])
