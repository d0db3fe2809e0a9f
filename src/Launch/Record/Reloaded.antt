-- ===== src/Launch/Record/Reloaded.antt =====
-- A file that was just written, as it is read back.
use uxon.Prelude.{ℕ, ◌≡◌, refl, ap, String, Bool, true, false, not, some, ◌∷◌, ◌=s◌, ◌==◌, arith}
use text.Mathlib.TextEquality.{eq_iff}
use uxon.Session.Json.{obj, Fields, get, get_str, value, JsonLib}
use uxon.Launch.Directory.{Process, Meta, returns}
use uxon.Launch.Store.{File, Files, find, read_found, object_of, is_trusted, shared_gid, new_file}
use uxon.Launch.Record.{Host, record_version, has_text, has_version, is_filled, is_finalized_for}

pub same_text_here : (a : String) → (a =s a) ≡ true
same_text_here a = (eq_iff a a).1 refl

pub same_number : (n : ℕ) → (n == n) ≡ true
same_number n = ground arith

-- What the JSON library does with this object: it may order the fields anew.
abbrev pub KeepsFields : JsonLib → Fields → Type 0
KeepsFields json fields =
    (loaded : Fields) × (json.loads (json.dumps (obj fields)) ≡ value (obj loaded))
    × ((key : String) → get key loaded ≡ get key fields)

pub new_file-trusted :
    (json : JsonLib) (p : Process) (shared : Bool) (dir : Meta) (fields : Fields)
    → is_trusted p (not shared) (shared_gid shared dir) (new_file json p shared dir fields) ≡ true
unfolding is_trusted new_file
new_file-trusted json p true dir fields = rw (same_number dir.gid) refl
new_file-trusted json p false dir fields = rw (same_number p.euid) refl

pub read_found-new_file :
    (json : JsonLib) (p : Process) (shared : Bool) (dir : Meta) (fields loaded : Fields)
    → json.loads (json.dumps (obj fields)) ≡ value (obj loaded)
    → read_found json p
        (not shared)
        (shared_gid shared dir)
        (some (new_file json p shared dir fields))
      ≡ returns loaded
unfolding read_found new_file
read_found-new_file json p shared dir fields loaded kept =
    rw (new_file-trusted json p shared dir fields) (ap object_of kept)

pub find_head : (name : String) (f : File) (files : Files) → find name ((name, f) ∷ files) ≡ some f
unfolding find
find_head name f files = rw (same_text_here name) refl

module _ (host : Host) (loaded fields : Fields)
    (same : (key : String) → get key loaded ≡ get key fields) where
  pub has_text-same : (key text : String) → has_text key text loaded ≡ has_text key text fields
  unfolding has_text get_str
  has_text-same key text = rw (has_text, get_str, same key) refl

  pub is_filled-same : (key : String) → is_filled loaded key ≡ is_filled fields key
  unfolding is_filled get_str
  is_filled-same key = rw (is_filled, get_str, same key) refl

  pub has_version-same : (n : ℕ) → has_version host n loaded ≡ has_version host n fields
  unfolding has_version
  has_version-same n = rw (has_version, same "version") refl

  pub is_finalized_for-same :
      (socket_path launch_nonce : String)
      → is_finalized_for host socket_path launch_nonce loaded
        ≡ is_finalized_for host socket_path launch_nonce fields
  unfolding is_finalized_for
  is_finalized_for-same socket_path launch_nonce =
      rw
        (
          is_finalized_for,
          has_text-same "status" "finalized",
          has_version-same record_version,
          has_text-same "runtime_kind" "command",
          is_filled-same "runtime_dir",
          is_filled-same "project_slug",
          is_filled-same "launch_user",
          is_filled-same "profile",
          is_filled-same "agent",
          has_text-same "socket_path" socket_path,
          has_text-same "launch_nonce" launch_nonce,
        )
        refl
