-- ===== src/Launch/Collect/Safe.antt =====
-- What a collection may remove.
use uxon.Prelude.{
  ℕ, ◌≡◌, ◌⊎◌, inl, inr, refl, ap, subst, ◌∙◌, String, Bool, true, false, not, Option, none, some,
  List, [], ◌∷◌, ◌=s◌, ◌&&◌, Bool-cases, if-Holds, truthy,
}
use uxon.Session.Json.{obj, str, raw, Fields, Decoded, value, malformed, JsonLib}
use uxon.Launch.Directory.{Process, Meta, Answer, returns, exits, raises, ensure_private_dir}
use uxon.Launch.Store.{
  File, Files, find, Store, read_json, read_found, object_of, is_trusted, shared_gid,
  ensure_store_ready, made, with_files, replace_json,
}
use uxon.Launch.Record.{
  Host, AgeTest, younger, not_younger, no_number, too_large, has_text, with_ready,
}
use uxon.Launch.Collect.{
  Live, is_live, age_of, by_age, verdict, Verdict, stays, goes, escapes, verdict_of, unless_kept,
  file_verdict, collect, finish_batch, collect_listed, gc_cursor_name, collect_from, collect_batch,
  cursor_payload, last_name, garbage_collect_records, batch_after, json_names, read_gc_cursor,
}
use uxon.Launch.Collect.Batch.{collect-find, find-unlink_other}

-- A record of the user, of a session that does not run, and not younger than its retention.
abbrev pub Expired : JsonLib → Host → ℕ → List Live → String → File → Type 0
Expired json host current live launch_user f =
    (payload : Fields) × (json.loads f.text ≡ value (obj payload))
    × (has_text "launch_user" launch_user payload ≡ true)
    × (is_live host live payload ≡ false)
    × (age_of host current payload ≡ not_younger)

by_age-goes :
    (running : Bool) (age : AgeTest)
    → by_age running age ≡ goes
    → (running ≡ false) × (age ≡ not_younger)
by_age-goes running younger h = cc
by_age-goes false not_younger h = (refl, refl)
by_age-goes true not_younger h = cc
by_age-goes running no_number h = cc
by_age-goes running too_large h = cc

module _ (json : JsonLib) (host : Host) (p : Process) (shared : Bool) (gid : Option ℕ) (current : ℕ)
    (live : List Live) (launch_user : String) where
  verdict-Expired :
      (f : File) (payload : Fields)
      → json.loads f.text ≡ value (obj payload)
      → verdict host current live launch_user payload ≡ goes
      → Expired json host current live launch_user f
  unfolding verdict
  verdict-Expired f payload loaded due =
      elim (Bool-cases (has_text "launch_user" launch_user payload)) [
        | inl user ↦
            let (idle, old) =
              by_age-goes (is_live host live payload) (age_of host current payload)
                (rw user at due) in
            (payload, loaded, user, idle, old)
        | inr other ↦ let no = rw other at due in cc
      ]

  object_of-Expired :
      (f : File) (d : Decoded)
      → json.loads f.text ≡ d
      → verdict_of json host p shared current live launch_user (object_of d) ≡ goes
      → Expired json host current live launch_user f
  object_of-Expired f (value (obj payload)) loaded due = verdict-Expired f payload loaded due
  object_of-Expired f (value (str t)) loaded due = cc
  object_of-Expired f (value (raw t)) loaded due = cc
  object_of-Expired f (malformed e) loaded due = cc

  read_found-Expired :
      (o : Option File)
      → verdict_of json host p shared current live launch_user
          (read_found json p (not shared) gid o)
        ≡ goes
      → (f : File) × (o ≡ some f) × Expired json host current live launch_user f
  unfolding read_found
  read_found-Expired none due = cc
  read_found-Expired (some f) due =
      elim (Bool-cases (not f.is_link && is_trusted p (not shared) gid f)) [
        | inl good ↦ (f, refl, object_of-Expired f (json.loads f.text) refl (rw good at due))
        | inr bad ↦ let no = rw bad at due in cc
      ]

  unless_kept-goes :
      (error : Option String) (v : Verdict)
      → unless_kept json host p shared error v ≡ goes
      → v ≡ goes
  unless_kept-goes none v h = h
  unless_kept-goes (some e) stays h = cc
  unless_kept-goes (some e) goes h = cc
  unless_kept-goes (some e) escapes h = cc

  collect-Expired :
      (name : String) (names : List String) (files : Files)
      → let files' = (collect json host p shared gid current live launch_user names files).0 in
        (find name files' ≡ find name files)
        ⊎ ((find name files' ≡ none)
            × ((f : File) × (find name files ≡ some f)
                × Expired json host current live launch_user f))
  unfolding file_verdict read_json
  collect-Expired name names files =
      elim (collect-find json host p shared gid current live launch_user name names files) [
        | inl there ↦ inl there
        | inr (gone, due) ↦ inr (
          gone,
          read_found-Expired (find name files) (unless_kept-goes (p.unlink_error name) _ due),
        )
      ]

made-files : (s : Store) (r : Answer (List Meta)) → (made s r).1.files ≡ s.files
made-files s (returns ms) = refl
made-files s (exits e) = refl
made-files s (raises e) = refl

ensure_store_ready-files :
    (p : Process) (shared : Bool) (launch_user : String) (create : Bool) (s : Store)
    → (ensure_store_ready p shared launch_user create s).1.files ≡ s.files
unfolding ensure_store_ready
ensure_store_ready-files p shared launch_user create s =
    if-Holds (λ (r : Answer Meta × Store). r.1.files ≡ s.files) (not s.is_absolute) refl
      (if-Holds (λ (r : Answer Meta × Store). r.1.files ≡ s.files) shared refl
        (made-files s (ensure_private_dir p create s.components)))

pub replace_json-find :
    (json : JsonLib) (p : Process) (shared : Bool) (dir : Meta) (a b : String) (payload : Fields)
    (s : Store)
    → (a =s b) ≡ false
    → find a (replace_json json p shared dir b payload s).files ≡ find a s.files
unfolding replace_json find
replace_json-find json p shared dir a b payload s other =
    rw other (find-unlink_other a b s.files other)

module _ (json : JsonLib) (host : Host) (p : Process) (shared : Bool) (key : String → String)
    (current : ℕ) (live : List Live) (launch_user name : String)
    (other : (name =s gc_cursor_name key launch_user) ≡ false) where
  abbrev Spared : Store → Store → Type 0
  Spared before after =
      (find name after.files ≡ find name before.files)
      ⊎ ((find name after.files ≡ none)
          × ((f : File) × (find name before.files ≡ some f)
              × Expired json host current live launch_user f))

  pub finish_batch-files :
      (payload : Fields) (dir : Meta) (removed : Answer ℕ) (s : Store)
      → find name
          (finish_batch json host p shared
            (gc_cursor_name key launch_user)
            payload
            dir
            removed
            s).1.files
        ≡ find name s.files
  finish_batch-files payload dir (returns n) s =
      if-Holds (λ (t : Store). find name t.files ≡ find name s.files) p.can_replace_cursor
        (replace_json-find json p shared dir name (gc_cursor_name key launch_user) payload s other)
        refl
  finish_batch-files payload dir (exits e) s = refl
  finish_batch-files payload dir (raises e) s = refl

  collect_batch-Spared :
      (dir : Meta) (names : List String) (s : Store)
      → Spared s (collect_batch json host p shared key current live launch_user dir names s).1
  collect_batch-Spared dir [] s = inl refl
  collect_batch-Spared dir (n ∷ names) s =
      let (files, removed) =
        collect json host p shared (shared_gid shared dir) current live launch_user (n ∷ names)
          s.files in
      let kept =
        finish_batch-files (cursor_payload json host p shared (last_name n names)) dir removed
          (with_files s files) in
      elim (collect-Expired json host p shared (shared_gid shared dir) current live launch_user name
        (n ∷ names) s.files) [
          | inl there ↦ inl (kept ∙ there)
          | inr (gone, due) ↦ inr (kept ∙ gone, due)
        ]

  collect_from-Spared :
      (dir : Meta) (cursor : Option String) (s : Store)
      → Spared s (collect_from json host p shared key current live launch_user dir cursor s).1
  collect_from-Spared dir none s = inl refl
  collect_from-Spared dir (some last) s =
      collect_batch-Spared dir (batch_after (json_names host s.files) last) s

  collect_listed-Spared :
      (listed : Bool) (dir : Meta) (s : Store)
      → Spared s (collect_listed json host p shared listed key current live launch_user dir s).1
  collect_listed-Spared false dir s = inl refl
  collect_listed-Spared true dir s =
      collect_from-Spared dir
        (read_gc_cursor json host p shared (shared_gid shared dir) (gc_cursor_name key launch_user)
          s.files)
        s

  ready-Spared :
      (before : Store) (r : Answer Meta) (s : Store)
      → s.files ≡ before.files
      → Spared before
          (with_ready
            (r, s)
            (λ dir s.
              collect_listed json host p shared p.can_list key current live launch_user dir s)).1
  ready-Spared before (returns dir) s same =
      let after =
        (collect_listed json host p shared p.can_list key current live launch_user dir s).1 in
      subst
        (λ files.
          (find name after.files ≡ find name files)
          ⊎ ((find name after.files ≡ none)
              × ((f : File) × (find name files ≡ some f)
                  × Expired json host current live launch_user f)))
        same (collect_listed-Spared p.can_list dir s)
  ready-Spared before (exits e) s same = inl (ap (find name) same)
  ready-Spared before (raises e) s same = inl (ap (find name) same)

  -- Whatever a collection answers, every file, except the cursor of this user, is as it was before,
  -- or it is gone and held a record of this launch user, of a session that does not run, for which
  -- `current - timestamp < retention` was computed and is false: it is at least as old as its
  -- retention, or its timestamp is NaN.
  pub garbage_collect_records-Spared :
      (s : Store)
      → Spared s (garbage_collect_records json host p shared key current live launch_user s).1
  unfolding garbage_collect_records
  garbage_collect_records-Spared s =
      let (r, s') = ensure_store_ready p shared launch_user true s in
      let same = ensure_store_ready-files p shared launch_user true s in
      if-Holds (λ (r : Answer ℕ × Store). Spared s r.1) (truthy launch_user)
        (ready-Spared s r s' same) (inl refl)
