-- ===== src/Launch/Record.antt =====
-- src/uxon/infra/launch_records.py: the life of one record, from its creation before tmux starts to
-- its removal. The clock is in whole seconds; the timestamp of a record is any value of JSON.
pub mod Verified
pub mod Reloaded
pub mod Life
use uxon.Prelude.{
  ℕ, String, Bool, true, false, not, Option, none, some, List, [], ◌∷◌, ◌&&◌, ◌||◌, ◌=s◌, ◌+s◌, any,
  truthy, if◌then◌else◌,
}
use uxon.Session.Json.{Json, str, Fields, end, field, get, get_str, JsonLib}
use uxon.Launch.Directory.{
  Meta, unexpected_session, nonce_mismatch, not_pending, not_unlinked, pending_not_unlinked,
  not_found, Answer, returns, exits, raises, Process,
}
use uxon.Launch.Store.{
  File, Files, find, unlink, with_files, Store, Op, ensure_store_ready, shared_gid, read_json,
  write_new_json, replace_json,
}

-- `current - float(value) < retention`, which is false where the value is NaN
pub data AgeTest : Type 0 where
  younger : AgeTest
  not_younger : AgeTest
  -- TypeError or ValueError of `float`, and its OverflowError
  no_number : AgeTest
  too_large : AgeTest

-- Python's `hashlib` and its numbers
pub record Host : Type 0 where
  pub sha256_hex : String → String
  -- a number as a value of JSON, and `value == n`
  pub number : ℕ → Json
  pub is_number : ℕ → Json → Bool
  -- the test of `current`, `retention` and a value
  pub age : ℕ → ℕ → Json → AgeTest
  -- `str(value)` of what is not a text
  pub shown : Json → String
  -- `Path(name).suffix == ".json"`
  pub has_json_suffix : String → Bool

pub record PendingLaunchRecord : Type 0 where
  pub socket_path : String
  pub session_name : String
  pub launch_nonce : String
  pub launch_profile : String
  pub agent : String
  pub launch_user : String
  pub execution_backend : String
  pub execution_fingerprint : String
  pub runtime : String
  pub runtime_kind : String
  pub runtime_fingerprint : String
  pub runtime_resource : String
  pub runtime_dir : String
  pub project_slug : String

pub record TmuxSessionMetadata : Type 0 where
  pub session_id : String
  pub created : String
  pub name : String
  pub launch_nonce : String

-- _RECORD_VERSION
abbrev pub record_version : ℕ
record_version = 4

-- the name of the file of a record
unfoldable pub record_name : Host → String → String → String
record_name host socket_path launch_nonce =
    host.sha256_hex (socket_path +s "\0" +s launch_nonce) +s ".json"

-- what `_base_payload` returns, before the fields that follow it
unfoldable pub base_payload : Host → ℕ → PendingLaunchRecord → Fields → Fields
base_payload host now r rest = field "version" (host.number record_version) (
    field "socket_path" (str r.socket_path) (
      field "session_name" (str r.session_name) (
        field "launch_nonce" (str r.launch_nonce) (
          field "profile" (str r.launch_profile) (
            field "agent" (str r.agent) (
              field "launch_user" (str r.launch_user) (
                field "execution_backend" (str r.execution_backend) (
                  field "execution_fingerprint" (str r.execution_fingerprint) (
                    field "runtime" (str r.runtime) (
                      field "runtime_kind" (str r.runtime_kind) (
                        field "runtime_fingerprint" (str r.runtime_fingerprint) (
                          field "runtime_resource" (str r.runtime_resource) (
                            field "runtime_dir" (str r.runtime_dir) (
                              field "project_slug" (str r.project_slug)
                                (field "created_at" (host.number now) rest)))))))))))))))

abbrev pub pending_payload : Host → ℕ → PendingLaunchRecord → Fields
pending_payload host now r = base_payload host now r (field "status" (str "pending") end)

-- what `finalize_pending_record` is told of the runtime
pub record RuntimeIdentity : Type 0 where
  pub id : String
  pub cgroup : String
  pub epoch : String

abbrev pub finalized_payload :
    Host → ℕ → PendingLaunchRecord → TmuxSessionMetadata → RuntimeIdentity → Fields
finalized_payload host now r m i = base_payload host now r (
    field "status" (str "finalized") (
      field "tmux_session_id" (str m.session_id) (
        field "tmux_session_created" (str m.created) (
          field "tmux_session_name" (str m.name) (
            field "runtime_id" (str i.id) (
              field "runtime_cgroup" (str i.cgroup) (
                field "runtime_epoch" (str i.epoch)
                  (field "finalized_at" (host.number now) end))))))))

-- payload.get(key) == text
unfoldable pub has_text : String → String → Fields → Bool
unfolding get_str
has_text key text payload = elim (get_str key payload) [ none ↦ false | some t ↦ t =s text ]

-- a text that is not empty
unfoldable pub is_filled : Fields → String → Bool
unfolding get_str
is_filled payload key = elim (get_str key payload) [ none ↦ false | some t ↦ truthy t ]

-- payload.get("version") == _RECORD_VERSION
unfoldable pub has_version : Host → ℕ → Fields → Bool
unfolding get
has_version host n payload = elim (get "version" payload) [
  | none ↦ false
  | some v ↦ host.is_number n v
]

-- what a store that is ready goes on with
abbrev pub with_ready {ℓ} : {A : Type ℓ} → Answer Meta × Store → (Meta → Op A) → Answer A × Store
with_ready (returns dir, s) f = f dir s
with_ready (exits e, s) f = (exits e, s)
with_ready (raises e, s) f = (raises e, s)

abbrev pub required_of_command : List String
required_of_command = "runtime_dir" ∷ "project_slug" ∷ "launch_user" ∷ "profile" ∷ "agent" ∷ []

-- what `read_finalized_record` asks of the payload
unfoldable pub is_finalized_for : Host → String → String → Fields → Bool
unfolding has_text is_filled has_version
is_finalized_for host socket_path launch_nonce payload =
    has_text "status" "finalized" payload
    && has_version host record_version payload
    && not (
        has_text "runtime_kind" "command" payload
        && any (λ key. not (is_filled payload key)) required_of_command)
    && has_text "socket_path" socket_path payload
    && has_text "launch_nonce" launch_nonce payload

-- the function goes on with a payload that was read
abbrev pub accept_payload : (Fields → Bool) → Answer Fields → Option Fields
accept_payload good (returns payload) = if good payload then some payload else none
accept_payload good (exits e) = none
accept_payload good (raises e) = none

module _ (json : JsonLib) (host : Host) (p : Process) (shared : Bool) where
  unfoldable pub create_pending_record : ℕ → PendingLaunchRecord → Op (Unit {0})
  unfolding ensure_store_ready write_new_json record_name base_payload
  create_pending_record now r s =
      with_ready (ensure_store_ready p shared r.launch_user true s) λ dir s.
        write_new_json json p shared dir (record_name host r.socket_path r.launch_nonce)
          (pending_payload host now r) s

  -- the end of `finalize_pending_record`, from the payload that was read
  abbrev pub finish_pending : Answer Fields → Store → Op (Unit {0})
  finish_pending (returns pending) done s =
      if has_text "status" "pending" pending then (returns tt, done) else (exits not_pending, s)
  finish_pending (exits e) done s = (exits e, s)
  finish_pending (raises e) done s = (raises e, s)

  unfoldable pub finalize_pending_record :
      ℕ → PendingLaunchRecord → TmuxSessionMetadata → RuntimeIdentity → Op (Unit {0})
  unfolding ensure_store_ready read_json replace_json record_name base_payload has_text
  finalize_pending_record now r m i s =
      if not (m.name =s r.session_name)
      then (exits unexpected_session, s)
      else if not (m.launch_nonce =s r.launch_nonce)
      then (exits nonce_mismatch, s)
      else with_ready (ensure_store_ready p shared r.launch_user true s) λ dir s.
        let name = record_name host r.socket_path r.launch_nonce in
        let pending = read_json json p (not shared) (shared_gid shared dir) name s.files in
        let done = replace_json json p shared dir name (finalized_payload host now r m i) s in
        finish_pending pending done s

  abbrev pub discarded : Option File → Option String → String → Store → Answer (Unit {0}) × Store
  discarded none error name s = (returns tt, s)
  discarded (some f) none name s = (returns tt, with_files s (unlink name s.files))
  discarded (some f) (some text) name s = (exits (pending_not_unlinked text), s)

  -- a record that is not there is not an error
  unfoldable pub fail_pending_record : PendingLaunchRecord → Op (Unit {0})
  unfolding ensure_store_ready find unlink record_name
  fail_pending_record r s = with_ready (ensure_store_ready p shared r.launch_user true s) λ dir s.
      let name = record_name host r.socket_path r.launch_nonce in
      discarded (find name s.files) (p.unlink_error name) name s

  -- reading makes no directory, so it leaves the store alone
  unfoldable pub read_finalized_record : Bool → String → String → String → Store → Option Fields
  unfolding ensure_store_ready read_json record_name is_finalized_for
  read_finalized_record require_owner launch_user socket_path launch_nonce s =
      elim (ensure_store_ready p shared launch_user false s).0 [
        | returns dir ↦ accept_payload (is_finalized_for host socket_path launch_nonce) (
            read_json json p (require_owner && not shared) (shared_gid shared dir)
              (record_name host socket_path launch_nonce) s.files)
        | other ↦ none
      ]

  -- what `read_verified_record` asks of the payload
  unfoldable pub is_of_session : String → TmuxSessionMetadata → Fields → Bool
  unfolding has_text
  is_of_session launch_user m payload =
      not (truthy launch_user && not (has_text "launch_user" launch_user payload))
      && has_text "tmux_session_id" m.session_id payload
      && has_text "tmux_session_created" m.created payload

  abbrev pub of_session : String → TmuxSessionMetadata → Option Fields → Option Fields
  of_session launch_user m none = none
  of_session launch_user m (some payload) =
      if is_of_session launch_user m payload then some payload else none

  unfoldable pub read_verified_record :
      Bool → String → String → TmuxSessionMetadata → Store → Option Fields
  unfolding read_finalized_record is_of_session
  read_verified_record require_owner launch_user socket_path m s =
      if truthy m.launch_nonce
      then of_session launch_user m
          (read_finalized_record require_owner launch_user socket_path m.launch_nonce s)
      else none

  unfoldable pub record_is_absent : String → String → TmuxSessionMetadata → Store → Bool
  unfolding ensure_store_ready find record_name
  record_is_absent launch_user socket_path m s =
      truthy m.launch_nonce && elim (ensure_store_ready p shared launch_user false s).0 [
        | returns dir ↦ elim (find (record_name host socket_path m.launch_nonce) s.files) [
          | none ↦ true
          | some f ↦ false
        ]
        | other ↦ false
      ]

  -- nothing else removes the file between the reading and the removal
  abbrev pub unlinked : Option String → String → Store → Answer Bool × Store
  unlinked none name s = (returns true, with_files s (unlink name s.files))
  unlinked (some text) name s = (exits (not_unlinked text), s)

  unfoldable pub delete_verified_record : String → String → TmuxSessionMetadata → Op Bool
  unfolding read_verified_record record_is_absent unlink record_name
  delete_verified_record launch_user socket_path m s =
      elim (read_verified_record (not shared) launch_user socket_path m s) [
        | none ↦ (returns (record_is_absent launch_user socket_path m s), s)
        | some payload ↦
            let name = record_name host socket_path m.launch_nonce in
            unlinked (p.unlink_error name) name s
      ]
