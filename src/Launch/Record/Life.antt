-- ===== src/Launch/Record/Life.antt =====
-- A record from its creation to the time that it is read.
use uxon.Prelude.{
  ℕ, ◌≡◌, refl, sym, ap, subst, ◌∙◌, String, Bool, true, false, not, none, some, List, [], ◌∷◌,
  ◌=s◌, ◌&&◌, any, truthy,
}
use text.Mathlib.TextEquality.{eq_iff}
use uxon.Session.Json.{obj, Fields, get, get_str, value, JsonLib}
use uxon.Launch.Directory.{Process, Meta, returns}
use uxon.Launch.Store.{
  Files, find, unlink, with_files, Store, read_json, read_found, shared_gid, ensure_store_ready,
  new_file, write_new_json, replace_json,
}
use uxon.Launch.Record.{
  Host, PendingLaunchRecord, TmuxSessionMetadata, RuntimeIdentity, record_version, record_name,
  base_payload, pending_payload, finalized_payload, has_text, has_version, is_filled,
  is_finalized_for, create_pending_record, finalize_pending_record, read_finalized_record,
  is_of_session, read_verified_record,
}
use uxon.Launch.Record.Reloaded.{
  same_text_here, KeepsFields, read_found-new_file, find_head, has_text-same, is_finalized_for-same,
}

no_conflict : (x : Bool) → (not (x && not true) && true && true) ≡ true
no_conflict true = refl
no_conflict false = refl

-- the texts that a launch by a command needs
abbrev pub needed : PendingLaunchRecord → List String
needed r = r.runtime_dir ∷ r.project_slug ∷ r.launch_user ∷ r.launch_profile ∷ r.agent ∷ []

module _ (json : JsonLib) (host : Host) (p : Process) (shared : Bool) (dir : Meta)
    (r : PendingLaunchRecord) (m : TmuxSessionMetadata) (i : RuntimeIdentity) where
  finalized-fits :
      (now : ℕ)
      → host.is_number record_version (host.number record_version) ≡ true
      → ((r.runtime_kind =s "command") && any (λ t. not (truthy t)) (needed r)) ≡ false
      → is_finalized_for host r.socket_path r.launch_nonce (finalized_payload host now r m i) ≡ true
  unfolding is_finalized_for has_text has_version is_filled get_str get base_payload
  finalized-fits now version complete =
      rw (version, complete, same_text_here r.socket_path, same_text_here r.launch_nonce) refl

  finalized-of_session :
      (now : ℕ)
      → is_of_session json host p shared r.launch_user m (finalized_payload host now r m i) ≡ true
  unfolding is_of_session has_text get_str get base_payload
  finalized-of_session now =
      rw (same_text_here r.launch_user, same_text_here m.session_id, same_text_here m.created)
        (no_conflict (truthy r.launch_user))

  is_of_session-same :
      (loaded fields : Fields)
      → ((key : String) → get key loaded ≡ get key fields)
      → is_of_session json host p shared r.launch_user m loaded
        ≡ is_of_session json host p shared r.launch_user m fields
  unfolding is_of_session
  is_of_session-same loaded fields same =
      rw
        (
          is_of_session,
          has_text-same host loaded fields same "launch_user" r.launch_user,
          has_text-same host loaded fields same "tmux_session_id" m.session_id,
          has_text-same host loaded fields same "tmux_session_created" m.created,
        )
        refl

  pending-pending : (now : ℕ) → has_text "status" "pending" (pending_payload host now r) ≡ true
  unfolding has_text get_str get base_payload
  pending-pending now = refl

  read_json-new_file :
      (name : String) (fields loaded : Fields) (files : Files)
      → json.loads (json.dumps (obj fields)) ≡ value (obj loaded)
      → read_json json p
          (not shared)
          (shared_gid shared dir)
          name
          ((name, new_file json p shared dir fields) ∷ files)
        ≡ returns loaded
  unfolding read_json
  read_json-new_file name fields loaded files kept =
      ap (read_found json p (not shared) (shared_gid shared dir))
        (find_head name (new_file json p shared dir fields) files)
      ∙ read_found-new_file json p shared dir fields loaded kept

  module _ (s : Store)
      (ready : (create : Bool) (files : Files)
        → ensure_store_ready p shared r.launch_user create (with_files s files)
          ≡ (returns dir, with_files s files))
      (now : ℕ) where
    abbrev name_of : String
    name_of = record_name host r.socket_path r.launch_nonce

    abbrev with_record : Fields → Files → Store
    with_record fields files = with_files s ((name_of, new_file json p shared dir fields) ∷ files)

    create-ok :
        find name_of s.files ≡ none
        → create_pending_record json host p shared now r s
          ≡ (returns tt, with_record (pending_payload host now r) s.files)
    unfolding create_pending_record write_new_json
    create-ok fresh = rw (create_pending_record, ready true s.files, write_new_json, fresh) refl

    finalize-ok :
        (earlier : ℕ) (loaded : Fields)
        → (m.name =s r.session_name) ≡ true
        → (m.launch_nonce =s r.launch_nonce) ≡ true
        → json.loads (json.dumps (obj (pending_payload host earlier r))) ≡ value (obj loaded)
        → ((key : String) → get key loaded ≡ get key (pending_payload host earlier r))
        → let s1 = with_record (pending_payload host earlier r) s.files in
          finalize_pending_record json host p shared now r m i s1
          ≡ (returns tt, with_record (finalized_payload host now r m i) (unlink name_of s1.files))
    unfolding finalize_pending_record replace_json
    finalize-ok earlier loaded named nonced kept same =
        let s1 = with_record (pending_payload host earlier r) s.files in
        let read =
          read_json-new_file name_of (pending_payload host earlier r) loaded s.files kept in
        let is_pending =
          has_text-same host loaded (pending_payload host earlier r) same "status" "pending"
          ∙ pending-pending earlier in
        rw (finalize_pending_record, named, nonced, ready true s1.files, read, is_pending) refl

    read_finalized-ok :
        (loaded : Fields) (others : Files)
        → host.is_number record_version (host.number record_version) ≡ true
        → ((r.runtime_kind =s "command") && any (λ t. not (truthy t)) (needed r)) ≡ false
        → json.loads (json.dumps (obj (finalized_payload host now r m i))) ≡ value (obj loaded)
        → ((key : String) → get key loaded ≡ get key (finalized_payload host now r m i))
        → read_finalized_record json host p shared true r.launch_user r.socket_path r.launch_nonce
            (with_record (finalized_payload host now r m i) others)
          ≡ some loaded
    unfolding read_finalized_record
    read_finalized-ok loaded others version complete kept same =
        let final = finalized_payload host now r m i in
        let files = (name_of, new_file json p shared dir final) ∷ others in
        let read = read_json-new_file name_of final loaded others kept in
        let fits =
          is_finalized_for-same host loaded final same r.socket_path r.launch_nonce
          ∙ finalized-fits now version complete in
        rw (read_finalized_record, ready false files, read, fits) refl

    read_verified-ok :
        (loaded : Fields) (others : Files)
        → (m.launch_nonce =s r.launch_nonce) ≡ true
        → truthy r.launch_nonce ≡ true
        → host.is_number record_version (host.number record_version) ≡ true
        → ((r.runtime_kind =s "command") && any (λ t. not (truthy t)) (needed r)) ≡ false
        → json.loads (json.dumps (obj (finalized_payload host now r m i))) ≡ value (obj loaded)
        → ((key : String) → get key loaded ≡ get key (finalized_payload host now r m i))
        → read_verified_record json host p shared true r.launch_user r.socket_path m
            (with_record (finalized_payload host now r m i) others)
          ≡ some loaded
    unfolding read_verified_record
    read_verified-ok loaded others nonced not_empty version complete kept same =
        let final = finalized_payload host now r m i in
        let nonce_is = sym ((eq_iff m.launch_nonce r.launch_nonce).0 nonced) in
        let named = subst (λ n. truthy n ≡ true) nonce_is not_empty in
        let read =
          subst
            (λ n.
              read_finalized_record json host p shared true r.launch_user r.socket_path n
                (with_record final others)
              ≡ some loaded)
            nonce_is (read_finalized-ok loaded others version complete kept same) in
        let of_it = is_of_session-same loaded final same ∙ finalized-of_session now in
        rw (read_verified_record, named, read, of_it) refl

  -- The life of a record. A launch creates its pending record, finalizes it with the metadata of its
  -- tmux session, and then `read_verified_record` for this session returns what was finalized, field
  -- by field. Conditions: the store is ready for the launch user with any files in it, no file has
  -- the record's name, tmux reports the session name and the nonce of the launch, the nonce is not
  -- empty, a launch by a command has the texts that it needs, the JSON library keeps the fields of the
  -- two payloads, and a number reads back as equal to itself.
  pub create-finalize-read :
      (s : Store)
      → ((create : Bool) (files : Files)
          → ensure_store_ready p shared r.launch_user create (with_files s files)
            ≡ (returns dir, with_files s files))
      → (now later : ℕ) → KeepsFields json (pending_payload host now r)
      → KeepsFields json (finalized_payload host later r m i)
      → host.is_number record_version (host.number record_version) ≡ true
      → find (record_name host r.socket_path r.launch_nonce) s.files ≡ none
      → (m.name =s r.session_name) ≡ true
      → (m.launch_nonce =s r.launch_nonce) ≡ true
      → truthy r.launch_nonce ≡ true
      → ((r.runtime_kind =s "command") && any (λ t. not (truthy t)) (needed r)) ≡ false
      → let created = create_pending_record json host p shared now r s in
        let finalized = finalize_pending_record json host p shared later r m i created.1 in
        (created.0 ≡ returns tt)
        × (finalized.0 ≡ returns tt)
        × ((payload : Fields) × (read_verified_record json host p shared true r.launch_user
                r.socket_path m finalized.1
              ≡ some payload)
            × ((key : String) → get key payload ≡ get key (finalized_payload host later r m i)))
  create-finalize-read s ready now later keeps_pending keeps_final version fresh named nonced
        not_empty complete =
      let (pending, kept, same) = keeps_pending in
      let (final, kept', same') = keeps_final in
      let created = create-ok s ready now fresh in
      let finalized = finalize-ok s ready later now pending named nonced kept same in
      let others =
        unlink (record_name host r.socket_path r.launch_nonce)
          (with_record s ready now (pending_payload host now r) s.files).files in
      let read =
        read_verified-ok s ready later final others nonced not_empty version complete kept' same' in
      (
        ap (λ x. x.0) created,
        ap (λ st. (finalize_pending_record json host p shared later r m i st).0)
              (ap (λ x. x.1) created)
            ∙ ap (λ x. x.0) finalized,
        (
          final,
          ap (λ st. read_verified_record json host p shared true r.launch_user r.socket_path m st)
                (ap (λ st. (finalize_pending_record json host p shared later r m i st).1)
                    (ap (λ x. x.1) created)
                  ∙ ap (λ x. x.1) finalized)
              ∙ read,
          same',
        ),
      )
