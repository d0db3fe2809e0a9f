-- ===== src/Examples/Records.antt =====
-- A private store with the records of two sessions, one of them old.
use uxon.Prelude.{
  ℕ, ◌≡◌, ◌⊎◌, refl, true, false, not, String, none, some, [], ◌∷◌, ◌&&◌, ◌||◌, ◌=s◌, if◌then◌else◌,
  ◌==◌, length, ◌≤◌, ◌+◌, ltb, arith, truthy,
}
use uxon.Session.Json.{Json, str, raw, obj, Fields, end, field, value, malformed, JsonLib}
use uxon.Launch.Directory.{Meta, Process, returns, exits, not_unlinked}
use uxon.Launch.Store.{File, Store, find, ensure_store_ready, is_trusted, shared_gid}
use uxon.Launch.Record.{
  Host, younger, not_younger, TmuxSessionMetadata, has_text, has_version, record_version,
  record_name, read_verified_record, delete_verified_record,
}
use uxon.Launch.Record.Verified.{Accepted, read_verified_record-some, delete_verified_record-cases}
use uxon.Launch.Collect.{
  is_live, age_of, gc_cursor_name, read_gc_cursor, json_names, max_gc_records,
  garbage_collect_records,
}
use uxon.Launch.Collect.Safe.{Expired, garbage_collect_records-Spared}
use uxon.Launch.Collect.Batch.{Escape}
use uxon.Launch.Collect.Complete.{garbage_collect_records-gone}

abbrev old_payload : Fields
old_payload = field "version" (raw "4") (
    field "socket_path" (str "/s") (
      field "launch_nonce" (str "n1") (
        field "launch_user" (str "ann") (
          field "status" (str "finalized") (
            field "tmux_session_id" (str "$1")
              (field "tmux_session_created" (str "77") (field "finalized_at" (raw "1000") end)))))))

abbrev json : JsonLib
json = record {
  loads = λ t. if t =s "old" then value (obj old_payload) else malformed "no JSON";
  dumps = λ v. "new";
}

abbrev number_of : Json → ℕ
number_of (raw t) = if t =s "4" then 4 else if t =s "1000" then 1000 else 0
number_of other = 0

abbrev host : Host
host = record {
  sha256_hex = λ t. if t =s "/s\0n1" then "a1" else "b2";
  number = λ n. raw "1000";
  is_number = λ n v. n == number_of v;
  age =
      λ current retention v. if ltb current (number_of v + retention) then younger else not_younger;
  shown = λ v. "";
  has_json_suffix = λ t. (t =s "a1.json") || (t =s "b2.json");
}

abbrev process : Process
process = record {
  euid = 1000;
  egid = 1000;
  groups = [];
  groups_of = λ user. some [];
  unlink_error = λ name. none;
  can_list = true;
  can_replace_cursor = true;
}

abbrev directory : Meta
directory = record { is_link = false; is_dir = true; uid = 1000; gid = 1000; mode = 448 }

abbrev old_file : File
old_file = record {
  is_link = false;
  is_regular = true;
  uid = 1000;
  gid = 1000;
  mode = 384;
  text = "old";
}

abbrev store : Store
store = record {
  is_absolute = true;
  root = directory;
  components = some directory ∷ [];
  acl = false;
  files = ("b2.json", old_file) ∷ ("a1.json", old_file) ∷ [];
}

abbrev metadata : TmuxSessionMetadata
metadata = record { session_id = "$1"; created = "77"; name = "ann-uxon"; launch_nonce = "n1" }

abbrev cursor_key : String → String
cursor_key user = "0"

is_read :
    read_verified_record json host process false true "ann" "/s" metadata store ≡ some old_payload
unfolding read_verified_record
is_read = refl

read_verified_record-some_example :
    (dir : Meta) × ((ensure_store_ready process false "ann" false store).0 ≡ returns dir)
    × Accepted json process true
        (shared_gid false dir)
        (find (record_name host "/s" "n1") store.files)
        old_payload
    × (has_text "status" "finalized" old_payload ≡ true)
    × (has_version host record_version old_payload ≡ true)
    × (has_text "socket_path" "/s" old_payload ≡ true)
    × (has_text "launch_nonce" "n1" old_payload ≡ true)
    × (has_text "tmux_session_id" "$1" old_payload ≡ true)
    × (has_text "tmux_session_created" "77" old_payload ≡ true)
    × (not (truthy "ann" && not (has_text "launch_user" "ann" old_payload)) ≡ true)
read_verified_record-some_example =
    read_verified_record-some json host process false true "ann" "/s" metadata store old_payload
      is_read

delete_verified_record-cases_example :
    let (answer, s') = delete_verified_record json host process false "ann" "/s" metadata store in
    ((answer ≡ returns false) × (s' ≡ store))
    ⊎ (((answer ≡ returns true) × (find (record_name host "/s" "n1") s'.files ≡ none))
        ⊎ ((text : String) × (process.unlink_error (record_name host "/s" "n1") ≡ some text)
            × (answer ≡ exits (not_unlinked text))
            × (s' ≡ store)))
delete_verified_record-cases_example =
    delete_verified_record-cases json host process false "ann" "/s" metadata store

not_cursor : ("a1.json" =s gc_cursor_name cursor_key "ann") ≡ false
unfolding gc_cursor_name
not_cursor = refl

abbrev after_collection : Store
after_collection =
    (garbage_collect_records json host process false cursor_key 900000 [] "ann" store).1

garbage_collect_records-Spared_example :
    (find "a1.json" after_collection.files ≡ find "a1.json" store.files)
    ⊎ ((find "a1.json" after_collection.files ≡ none)
        × ((f : File) × (find "a1.json" store.files ≡ some f)
            × Expired json host 900000 [] "ann" f))
garbage_collect_records-Spared_example =
    garbage_collect_records-Spared json host process false cursor_key 900000 [] "ann" "a1.json"
      not_cursor store

is_ready : ensure_store_ready process false "ann" true store ≡ (returns directory, store)
unfolding ensure_store_ready
is_ready = refl

no_cursor :
    read_gc_cursor json host process false none (gc_cursor_name cursor_key "ann") store.files
    ≡ some ""
unfolding read_gc_cursor gc_cursor_name
no_cursor = refl

few : length (json_names host store.files) ≤ max_gc_records
unfolding json_names
few = omega arith

there : find "a1.json" store.files ≡ some old_file
unfolding find
there = refl

trusted : (not old_file.is_link && is_trusted process true none old_file) ≡ true
unfolding is_trusted
trusted = refl

expired : Expired json host 900000 [] "ann" old_file
unfolding has_text is_live age_of
expired = (old_payload, refl, refl, refl, refl)

garbage_collect_records-gone_example :
    Escape json host process false none 900000 [] "ann" store.files
    ⊎ (find "a1.json" after_collection.files ≡ none)
garbage_collect_records-gone_example =
    garbage_collect_records-gone json host process false cursor_key 900000 [] "ann" store store
      directory "" "a1.json" old_file refl is_ready refl no_cursor few refl not_cursor there trusted
      expired refl
