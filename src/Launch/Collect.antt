-- ===== src/Launch/Collect.antt =====
-- src/uxon/infra/launch_records.py: `garbage_collect_records`, which removes the old records of one
-- launch user, at most 1024 records at a time, from where the last collection stopped.
pub mod Batch
pub mod Safe
pub mod Complete
use uxon.Prelude.{
  ℕ, zero, suc, ◌+◌, ◌-◌, String, Bool, true, false, not, Option, none, some, List, [], ◌∷◌, ◌++◌,
  ◌&&◌, ◌||◌, ◌=s◌, ◌+s◌, ltb, leb, ◌==◌, codes, take, drop, keep, any, truthy, if◌then◌else◌, map,
  length,
}
use uxon.Session.Json.{Json, str, Fields, end, field, get, get_str, JsonLib}
use uxon.Launch.Directory.{
  Meta, no_launch_user, not_found, overflow, Answer, returns, exits, raises, Process,
}
use uxon.Launch.Store.{
  File, Files, unlink, with_files, Store, Op, ensure_store_ready, shared_gid, read_json,
  replace_json,
}
use uxon.Launch.Record.{
  Host, AgeTest, younger, not_younger, no_number, too_large, has_text, with_ready,
}

-- _STALE_FINALIZED_SECONDS, _STALE_PENDING_SECONDS, _MAX_GC_RECORDS, _GC_CURSOR_VERSION
abbrev pub stale_finalized_seconds : ℕ
stale_finalized_seconds = 604800

abbrev pub stale_pending_seconds : ℕ
stale_pending_seconds = 600

abbrev pub max_gc_records : ℕ
max_gc_records = 1024

abbrev pub gc_cursor_version : ℕ
gc_cursor_version = 1

-- a session that runs: its socket, its name and its nonce
pub record Live : Type 0 where
  pub socket : String
  pub name : String
  pub nonce : String

-- str(payload.get(key, ""))
unfoldable pub text_at : Host → String → Fields → String
unfolding get
text_at host key payload = elim (get key payload) [
  | none ↦ ""
  | some (str s) ↦ s
  | some v ↦ host.shown v
]

-- (socket_path, launch_nonce) in live_nonces
unfoldable pub is_live : Host → List Live → Fields → Bool
unfolding text_at
is_live host live payload =
    any
      (λ l.
        (l.socket =s text_at host "socket_path" payload)
        && (l.nonce =s text_at host "launch_nonce" payload))
      live

unfoldable pub retention : Fields → ℕ
unfolding has_text
retention payload =
    if has_text "status" "pending" payload then stale_pending_seconds else stale_finalized_seconds

-- current - timestamp < retention, where the timestamp is
-- float(payload.get("finalized_at", payload.get("created_at", current)))
unfoldable pub age_of : Host → ℕ → Fields → AgeTest
unfolding get retention
age_of host current payload = elim (get "finalized_at" payload) [
  | some v ↦ host.age current (retention payload) v
  | none ↦ elim (get "created_at" payload) [
    | some v ↦ host.age current (retention payload) v
    | none ↦ if ltb (current - current) (retention payload) then younger else not_younger
  ]
]

-- what the loop does with a file: goes on, unlinks it, or ends with the OverflowError
pub data Verdict : Type 0 where
  stays : Verdict
  goes : Verdict
  escapes : Verdict

abbrev pub by_age : Bool → AgeTest → Verdict
by_age running younger = stays
by_age running not_younger = if running then stays else goes
by_age running no_number = stays
by_age running too_large = escapes

-- what the loop does with a record of this payload
unfoldable pub verdict : Host → ℕ → List Live → String → Fields → Verdict
unfolding has_text is_live age_of
verdict host current live launch_user payload =
    if has_text "launch_user" launch_user payload
    then by_age (is_live host live payload) (age_of host current payload)
    else stays

-- the order of texts
unfoldable pub text_leb : List ℕ → List ℕ → Bool
text_leb [] ys = true
text_leb (x ∷ xs) [] = false
text_leb (x ∷ xs) (y ∷ ys) = ltb x y || ((x == y) && text_leb xs ys)

unfoldable pub insert_name : String → List String → List String
unfolding text_leb
insert_name x [] = x ∷ []
insert_name x (y ∷ ys) =
    let rest = insert_name x ys in if text_leb (codes x) (codes y) then x ∷ y ∷ ys else y ∷ rest

-- the names of the `.json` files, sorted
unfoldable pub json_names : Host → Files → List String
unfolding insert_name
json_names host [] = []
json_names host ((n, f) ∷ files) =
    let rest = json_names host files in if host.has_json_suffix n then insert_name n rest else rest

-- bisect_right(names, last), on sorted names
unfoldable pub bisect_right : List String → String → ℕ
unfolding text_leb
bisect_right [] last = 0
bisect_right (n ∷ ns) last =
    let rest = bisect_right ns last in if text_leb (codes n) (codes last) then suc rest else 0

-- the batch of a collection that starts after `last`, which is empty at first
unfoldable pub batch_after : List String → String → List String
unfolding bisect_right
batch_after names last =
    let start = if truthy last then bisect_right names last else 0 in
    take max_gc_records (drop start names ++ take start names)

-- batch[-1]
abbrev pub last_name : String → List String → String
last_name x [] = x
last_name x (y ∷ ys) = last_name y ys

-- directory / f".gc-cursor-{key}", where the key is the start of a digest
unfoldable pub gc_cursor_name : (String → String) → String → String
gc_cursor_name key launch_user = ".gc-cursor-" +s key launch_user

module _ (json : JsonLib) (host : Host) (p : Process) (shared : Bool) where
  abbrev pub cursor_of : Answer Fields → Option String
  cursor_of (returns payload) = elim (get "version" payload) [
    | none ↦ none
    | some v ↦ if host.is_number gc_cursor_version v then get_str "last_name" payload else none
  ]
  cursor_of (raises not_found) = some ""
  cursor_of other = none

  -- `_read_gc_cursor`; it gives `none` for a cursor that cannot be trusted
  unfoldable pub read_gc_cursor : Option ℕ → String → Files → Option String
  unfolding read_json get get_str
  read_gc_cursor gid name files = cursor_of (read_json json p (not shared) gid name files)

  abbrev pub verdict_of : ℕ → List Live → String → Answer Fields → Verdict
  verdict_of current live launch_user (returns payload) =
      verdict host current live launch_user payload
  verdict_of current live launch_user other = stays

  -- a file whose `unlink` raises an OSError stays
  abbrev pub unless_kept : Option String → Verdict → Verdict
  unless_kept none v = v
  unless_kept (some e) stays = stays
  unless_kept (some e) goes = stays
  unless_kept (some e) escapes = escapes

  -- what the loop does with the file of this name
  unfoldable pub file_verdict : Option ℕ → ℕ → List Live → String → String → Files → Verdict
  unfolding read_json verdict
  file_verdict gid current live launch_user name files =
      unless_kept (p.unlink_error name)
        (verdict_of current live launch_user (read_json json p (not shared) gid name files))

  abbrev pub one_more : Answer ℕ → Answer ℕ
  one_more (returns n) = returns (suc n)
  one_more (exits e) = exits e
  one_more (raises e) = raises e

  -- the loop over the batch: the files that are left, and how many were removed
  unfoldable pub collect :
      Option ℕ → ℕ → List Live → String → List String → Files → Files × Answer ℕ
  unfolding file_verdict unlink
  collect gid current live launch_user [] files = (files, returns 0)
  collect gid current live launch_user (name ∷ names) files =
      let removed = collect gid current live launch_user names (unlink name files) in
      let kept = collect gid current live launch_user names files in
      elim (file_verdict gid current live launch_user name files) [
        | stays ↦ kept
        | goes ↦ (removed.0, one_more removed.1)
        | escapes ↦ (files, raises overflow)
      ]

  -- the payload of the cursor
  abbrev pub cursor_payload : String → Fields
  cursor_payload name =
      field "version" (host.number gc_cursor_version) (field "last_name" (str name) end)

  -- after the loop; an OSError of the cursor is passed over
  abbrev pub finish_batch : String → Fields → Meta → Answer ℕ → Op ℕ
  finish_batch cursor payload dir (returns n) s = (
    returns n,
    if p.can_replace_cursor then replace_json json p shared dir cursor payload s else s,
  )
  finish_batch cursor payload dir (exits e) s = (exits e, s)
  finish_batch cursor payload dir (raises e) s = (raises e, s)

  abbrev pub collect_batch : (String → String) → ℕ → List Live → String → Meta → List String → Op ℕ
  collect_batch key current live launch_user dir [] s = (returns 0, s)
  collect_batch key current live launch_user dir (name ∷ names) s =
      let (files, removed) =
        collect (shared_gid shared dir) current live launch_user (name ∷ names) s.files in
      finish_batch (gc_cursor_name key launch_user) (cursor_payload (last_name name names)) dir
        removed (with_files s files)

  -- where the cursor cannot be trusted, nothing is collected
  abbrev pub collect_from : (String → String) → ℕ → List Live → String → Meta → Option String → Op ℕ
  collect_from key current live launch_user dir none s = (returns 0, s)
  collect_from key current live launch_user dir (some last) s =
      collect_batch key current live launch_user dir (batch_after (json_names host s.files) last) s

  -- where the directory cannot be listed, nothing is collected
  abbrev pub collect_listed : Bool → (String → String) → ℕ → List Live → String → Meta → Op ℕ
  collect_listed false key current live launch_user dir s = (returns 0, s)
  collect_listed true key current live launch_user dir s =
      collect_from key current live launch_user dir
        (read_gc_cursor (shared_gid shared dir) (gc_cursor_name key launch_user) s.files) s

  unfoldable pub garbage_collect_records : (String → String) → ℕ → List Live → String → Op ℕ
  unfolding ensure_store_ready json_names batch_after read_gc_cursor collect replace_json
      gc_cursor_name
  garbage_collect_records key current live launch_user s =
      if truthy launch_user
      then with_ready (ensure_store_ready p shared launch_user true s)
          (λ dir s. collect_listed p.can_list key current live launch_user dir s)
      else (exits no_launch_user, s)
