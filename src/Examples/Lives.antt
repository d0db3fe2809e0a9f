-- ===== src/Examples/Lives.antt =====
-- A launch in an empty private store.
use uxon.Prelude.{
  ◌≡◌, refl, Bool, true, false, String, none, some, [], ◌∷◌, ◌&&◌, ◌=s◌, if◌then◌else◌, ◌==◌,
}
use uxon.Session.Json.{raw, obj, Fields, get, get_str, value, malformed, JsonLib}
use uxon.Launch.Directory.{Meta, Process, returns}
use uxon.Launch.Store.{Files, Store, find, with_files, ensure_store_ready}
use uxon.Launch.Record.{
  younger, Host, PendingLaunchRecord, TmuxSessionMetadata, RuntimeIdentity, has_text, record_name,
  base_payload, pending_payload, finalized_payload, create_pending_record, finalize_pending_record,
  read_verified_record,
}
use uxon.Launch.Record.Reloaded.{KeepsFields}
use uxon.Launch.Record.Life.{create-finalize-read}

abbrev host : Host
host = record {
  sha256_hex = λ t. "a1";
  number = λ n. raw (if n == 4 then "4" else "1000");
  is_number = λ n v. elim v [ raw t ↦ (n == 4) && (t =s "4") | other ↦ false ];
  age = λ current retention v. younger;
  shown = λ v. "";
  has_json_suffix = λ t. true;
}

abbrev launch : PendingLaunchRecord
launch = record {
  socket_path = "/s";
  session_name = "ann-uxon";
  launch_nonce = "n1";
  launch_profile = "codex";
  agent = "codex";
  launch_user = "ann";
  execution_backend = "local";
  execution_fingerprint = "";
  runtime = "direct";
  runtime_kind = "direct";
  runtime_fingerprint = "";
  runtime_resource = "";
  runtime_dir = "";
  project_slug = "uxon";
}

abbrev metadata : TmuxSessionMetadata
metadata = record { session_id = "$1"; created = "77"; name = "ann-uxon"; launch_nonce = "n1" }

abbrev identity : RuntimeIdentity
identity = record { id = ""; cgroup = ""; epoch = "" }

abbrev pending : Fields
pending = pending_payload host 1000 launch

abbrev final : Fields
final = finalized_payload host 1001 launch metadata identity

abbrev json : JsonLib
json = record {
  loads = λ t.
      if t =s "p"
      then value (obj pending)
      else if t =s "f"
      then value (obj final)
      else malformed "no JSON";
  dumps = λ v. elim v [
    | obj fields ↦ if has_text "status" "pending" fields then "p" else "f"
    | other ↦ ""
  ];
}

abbrev process : Process
process = record {
  euid = 1000;
  egid = 1000;
  groups = [];
  groups_of = λ user. some [];
  unlink_error = λ name. none;
  can_list = true;
  can_replace_cursor = true;
}

abbrev directory : Meta
directory = record { is_link = false; is_dir = true; uid = 1000; gid = 1000; mode = 448 }

abbrev store : Store
store = record {
  is_absolute = true;
  root = directory;
  components = some directory ∷ [];
  acl = false;
  files = [];
}

always_ready :
    (create : Bool) (files : Files)
    → ensure_store_ready process false "ann" create (with_files store files)
      ≡ (returns directory, with_files store files)
unfolding ensure_store_ready
always_ready create files = refl

keeps_pending : KeepsFields json pending
unfolding has_text get_str get base_payload
keeps_pending = (pending, refl, λ key. refl)

keeps_final : KeepsFields json final
unfolding has_text get_str get base_payload
keeps_final = (final, refl, λ key. refl)

no_file : find (record_name host "/s" "n1") store.files ≡ none
unfolding find
no_file = refl

create-finalize-read_example :
    let created = create_pending_record json host process false 1000 launch store in
    let finalized =
      finalize_pending_record json host process false 1001 launch metadata identity created.1 in
    (created.0 ≡ returns tt)
    × (finalized.0 ≡ returns tt)
    × ((payload : Fields) × (read_verified_record json host process false true "ann" "/s" metadata
            finalized.1
          ≡ some payload)
        × ((key : String) → get key payload ≡ get key final))
create-finalize-read_example =
    create-finalize-read json host process false directory launch metadata identity store
      always_ready 1000 1001 keeps_pending keeps_final refl no_file refl refl refl refl
