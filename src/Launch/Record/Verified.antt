-- ===== src/Launch/Record/Verified.antt =====
-- What a verified record is, and what its removal removes.
use uxon.Prelude.{
  ℕ, ◌≡◌, refl, ap, subst, ◌⊎◌, inl, inr, String, Bool, true, false, not, Option, none, some, ◌&&◌,
  Bool-cases, Option-cases, truthy, any,
}
use uxon.Session.Json.{obj, str, raw, Fields, Decoded, value, malformed, JsonLib}
use uxon.Launch.Directory.{Process, Meta, not_unlinked, Answer, returns, exits, raises}
use uxon.Launch.Store.{
  File, find, Store, read_json, read_found, object_of, is_trusted, shared_gid, ensure_store_ready,
}
use uxon.Launch.Collect.Batch.{find-unlink_same}
use uxon.Launch.Record.{
  Host, TmuxSessionMetadata, record_version, record_name, has_text, has_version, is_filled,
  required_of_command, is_finalized_for, accept_payload, read_finalized_record, is_of_session,
  of_session, read_verified_record, record_is_absent, unlinked, delete_verified_record,
}

all_three : (a b c : Bool) → (a && b && c) ≡ true → (a ≡ true) × (b ≡ true) × (c ≡ true)
all_three true true c h = (refl, refl, h)
all_three true false c h = cc
all_three false b c h = cc

all_five :
    (a b c d e : Bool)
    → (a && b && c && d && e) ≡ true
    → (a ≡ true) × (b ≡ true) × (d ≡ true) × (e ≡ true)
all_five true true true d e h =
    let (_, is_d, is_e) = all_three true d e h in (refl, refl, is_d, is_e)
all_five true true false d e h = cc
all_five true false c d e h = cc
all_five false b c d e h = cc

finalized_for :
    (host : Host) (socket_path launch_nonce : String) (payload : Fields)
    → is_finalized_for host socket_path launch_nonce payload ≡ true
    → (has_text "status" "finalized" payload ≡ true)
      × (has_version host record_version payload ≡ true)
      × (has_text "socket_path" socket_path payload ≡ true)
      × (has_text "launch_nonce" launch_nonce payload ≡ true)
unfolding is_finalized_for
finalized_for host socket_path launch_nonce payload h =
    all_five (has_text "status" "finalized" payload) (has_version host record_version payload)
      (not (
        has_text "runtime_kind" "command" payload
        && any (λ key. not (is_filled payload key)) required_of_command))
      (has_text "socket_path" socket_path payload) (has_text "launch_nonce" launch_nonce payload) h

absent-cases :
    (named : Bool) (a : Answer Meta) (o : Option File)
    → (named && elim a [ returns dir ↦ elim o [ none ↦ true | some f ↦ false ] | other ↦ false ])
      ≡ true
    → o ≡ none
absent-cases false a o h = cc
absent-cases true (returns dir) none h = refl
absent-cases true (returns dir) (some f) h = cc
absent-cases true (exits e) o h = cc
absent-cases true (raises e) o h = cc

-- A file that `_read_json` accepts, with what it holds.
abbrev pub Accepted : JsonLib → Process → Bool → Option ℕ → Option File → Fields → Type 0
Accepted json p require_owner gid o payload =
    (f : File) × (o ≡ some f)
    × ((not f.is_link && is_trusted p require_owner gid f) ≡ true)
    × (json.loads f.text ≡ value (obj payload))

object_of-value :
    (d : Decoded) (payload : Fields) → object_of d ≡ returns payload → d ≡ value (obj payload)
object_of-value (value (obj fields)) payload h = cc
object_of-value (value (str t)) payload h = cc
object_of-value (value (raw t)) payload h = cc
object_of-value (malformed e) payload h = cc

read_found-Accepted :
    (json : JsonLib) (p : Process) (require_owner : Bool) (gid : Option ℕ) (o : Option File)
    (payload : Fields)
    → read_found json p require_owner gid o ≡ returns payload
    → Accepted json p require_owner gid o payload
unfolding read_found
read_found-Accepted json p require_owner gid none payload h = cc
read_found-Accepted json p require_owner gid (some f) payload h =
    elim (Bool-cases (not f.is_link && is_trusted p require_owner gid f)) [
      | inl good ↦ (f, refl, good, object_of-value (json.loads f.text) payload (rw good at h))
      | inr bad ↦ let no = rw bad at h in cc
    ]

accept_payload-some :
    (good : Fields → Bool) (a : Answer Fields) (payload : Fields)
    → accept_payload good a ≡ some payload
    → (a ≡ returns payload) × (good payload ≡ true)
accept_payload-some good (returns x) payload h = elim (Bool-cases (good x)) [
  | inl is ↦
      let same : x ≡ payload = (let h' = rw is at h in cc) in
      (ap returns same, subst (λ y. good y ≡ true) same is)
  | inr is_not ↦ let no = rw is_not at h in cc
]
accept_payload-some good (exits e) payload h = cc
accept_payload-some good (raises e) payload h = cc

of_session-some :
    (json : JsonLib) (host : Host) (p : Process) (shared : Bool) (launch_user : String)
    (m : TmuxSessionMetadata) (o : Option Fields) (payload : Fields)
    → of_session json host p shared launch_user m o ≡ some payload
    → (o ≡ some payload) × (is_of_session json host p shared launch_user m payload ≡ true)
of_session-some json host p shared launch_user m none payload h = cc
of_session-some json host p shared launch_user m (some x) payload h =
    elim (Bool-cases (is_of_session json host p shared launch_user m x)) [
      | inl is ↦
          let same : x ≡ payload = (let h' = rw is at h in cc) in
          (
            ap some same,
            subst (λ y. is_of_session json host p shared launch_user m y ≡ true) same is,
          )
      | inr is_not ↦ let no = rw is_not at h in cc
    ]

ready-some :
    (good : Meta → Option Fields) (a : Answer Meta) (payload : Fields)
    → (elim a [ returns dir ↦ good dir | other ↦ none ]) ≡ some payload
    → (dir : Meta) × (a ≡ returns dir) × (good dir ≡ some payload)
ready-some good (returns dir) payload h = (dir, refl, h)
ready-some good (exits e) payload h = cc
ready-some good (raises e) payload h = cc

module _ (json : JsonLib) (host : Host) (p : Process) (shared : Bool) where
  read_finalized_record-some :
      (require_owner : Bool) (launch_user socket_path launch_nonce : String) (s : Store)
      (payload : Fields)
      → read_finalized_record json host p shared require_owner launch_user socket_path launch_nonce
          s
        ≡ some payload
      → (dir : Meta) × ((ensure_store_ready p shared launch_user false s).0 ≡ returns dir)
        × Accepted json p
            (require_owner && not shared)
            (shared_gid shared dir)
            (find (record_name host socket_path launch_nonce) s.files)
            payload
        × (is_finalized_for host socket_path launch_nonce payload ≡ true)
  unfolding read_finalized_record read_json
  read_finalized_record-some require_owner launch_user socket_path launch_nonce s payload h =
      let name = record_name host socket_path launch_nonce in
      let owner = require_owner && not shared in
      let good = is_finalized_for host socket_path launch_nonce in
      let (dir, is_ready, got) =
        ready-some
          (λ dir. accept_payload good (read_json json p owner (shared_gid shared dir) name s.files))
          (ensure_store_ready p shared launch_user false s).0 payload h in
      let (read, fits) =
        accept_payload-some good (read_json json p owner (shared_gid shared dir) name s.files)
          payload got in
      (
        dir,
        is_ready,
        read_found-Accepted json p owner (shared_gid shared dir) (find name s.files) payload read,
        fits,
      )

  -- A record that `read_verified_record` returns is what a file of a ready store holds, under the name
  -- for the socket and the nonce, and this file passed the checks on its kind, its owner or group and
  -- its mode; the record is finalized, of the current version, and has the socket and the nonce asked
  -- for, the identity and creation of the live session, and the launch user where one is given.
  pub read_verified_record-some :
      (require_owner : Bool) (launch_user socket_path : String) (m : TmuxSessionMetadata)
      (s : Store) (payload : Fields)
      → read_verified_record json host p shared require_owner launch_user socket_path m s
        ≡ some payload
      → (dir : Meta) × ((ensure_store_ready p shared launch_user false s).0 ≡ returns dir)
        × Accepted json p
            (require_owner && not shared)
            (shared_gid shared dir)
            (find (record_name host socket_path m.launch_nonce) s.files)
            payload
        × (has_text "status" "finalized" payload ≡ true)
        × (has_version host record_version payload ≡ true)
        × (has_text "socket_path" socket_path payload ≡ true)
        × (has_text "launch_nonce" m.launch_nonce payload ≡ true)
        × (has_text "tmux_session_id" m.session_id payload ≡ true)
        × (has_text "tmux_session_created" m.created payload ≡ true)
        × (not (truthy launch_user && not (has_text "launch_user" launch_user payload)) ≡ true)
  unfolding read_verified_record is_finalized_for is_of_session
  read_verified_record-some require_owner launch_user socket_path m s payload h =
      elim (Bool-cases (truthy m.launch_nonce)) [
        | inr is_not ↦ let no = rw is_not at h in cc
        | inl is ↦
            let (got, of) =
              of_session-some json host p shared launch_user m
                (read_finalized_record json host p shared require_owner launch_user socket_path
                  m.launch_nonce s)
                payload (rw is at h) in
            let (dir, is_ready, file, fits) =
              read_finalized_record-some require_owner launch_user socket_path m.launch_nonce s
                payload got in
            let (status, version, socket, nonce) =
              finalized_for host socket_path m.launch_nonce payload fits in
            let (user, id, created) =
              all_three
                (not (truthy launch_user && not (has_text "launch_user" launch_user payload)))
                (has_text "tmux_session_id" m.session_id payload)
                (has_text "tmux_session_created" m.created payload) of in
            (dir, is_ready, file, status, version, socket, nonce, id, created, user)
      ]

  absent-none :
      (launch_user socket_path : String) (m : TmuxSessionMetadata) (s : Store)
      → record_is_absent json host p shared launch_user socket_path m s ≡ true
      → find (record_name host socket_path m.launch_nonce) s.files ≡ none
  unfolding record_is_absent
  absent-none launch_user socket_path m s h =
      absent-cases (truthy m.launch_nonce) (ensure_store_ready p shared launch_user false s).0
        (find (record_name host socket_path m.launch_nonce) s.files) h

  unlinked-Removal :
      (error : Option String) (name : String) (s : Store)
      → let (answer, s') = unlinked json host p shared error name s in
        ((answer ≡ returns true) × (find name s'.files ≡ none))
        ⊎ ((text : String) × (error ≡ some text) × (answer ≡ exits (not_unlinked text)) × (s' ≡ s))
  unlinked-Removal none name s = inl (refl, find-unlink_same name s.files)
  unlinked-Removal (some text) name s = inr (text, refl, refl, refl)

  -- A removal answers false and leaves the store as it was; or answers true and there is no file for
  -- the socket and the nonce any more; or `unlink` of this file raises an OSError, with whose text the
  -- removal fails, and the store is as it was.
  pub delete_verified_record-cases :
      (launch_user socket_path : String) (m : TmuxSessionMetadata) (s : Store)
      → let name = record_name host socket_path m.launch_nonce in
        let (answer, s') = delete_verified_record json host p shared launch_user socket_path m s in
        ((answer ≡ returns false) × (s' ≡ s))
        ⊎ (((answer ≡ returns true) × (find name s'.files ≡ none))
            ⊎ ((text : String) × (p.unlink_error name ≡ some text)
                × (answer ≡ exits (not_unlinked text))
                × (s' ≡ s)))
  unfolding delete_verified_record
  delete_verified_record-cases launch_user socket_path m s =
      let name = record_name host socket_path m.launch_nonce in
      elim (Option-cases
        (read_verified_record json host p shared (not shared) launch_user socket_path m s)) [
          | inr (payload, got) ↦
              rw (delete_verified_record, got) (inr (unlinked-Removal (p.unlink_error name) name s))
          | inl nothing ↦
              rw (delete_verified_record, nothing)
                (elim (Bool-cases
                  (record_is_absent json host p shared launch_user socket_path m s)) [
                    | inl is ↦ inr (inl (ap returns is, absent-none launch_user socket_path m s is))
                    | inr is_not ↦ inl (ap returns is_not, refl)
                  ])
        ]
