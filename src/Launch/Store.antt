-- ===== src/Launch/Store.antt =====
-- src/uxon/infra/launch_records.py: the directory of the records and the files in it, and how a file
-- is read and written. The bytes of a file are the text that `json.dumps` gave.
use uxon.Prelude.{
  ℕ, String, Bool, true, false, not, Option, none, some, List, [], ◌∷◌, ◌&&◌, ◌==◌, ◌=s◌, map,
  if◌then◌else◌,
}
use uxon.Session.Json.{obj, Fields, Decoded, value, JsonLib}
use uxon.Launch.Directory.{
  Meta, relative_path, not_found, already_there, untrusted, Answer, returns, exits, raises, ◌then◌,
  Process, open_to_others, record_mode, shared_record_mode, ensure_private_dir, shared_walk,
  shared_directory,
}

pub record File : Type 0 where
  pub is_link : Bool
  pub is_regular : Bool
  pub uid : ℕ
  pub gid : ℕ
  pub mode : ℕ
  pub text : String

abbrev pub Files : Type 0
Files = List (String × File)

-- the path of the directory, and what is below it
pub record Store : Type 0 where
  pub is_absolute : Bool
  -- "/", and the components below it
  pub root : Meta
  pub components : List (Option Meta)
  -- whether the directory has a POSIX access ACL
  pub acl : Bool
  pub files : Files

unfoldable pub find : String → Files → Option File
find name [] = none
find name ((n, f) ∷ rest) = if name =s n then some f else find name rest

-- os.unlink of a file that is there
unfoldable pub unlink : String → Files → Files
unlink name [] = []
unlink name ((n, f) ∷ rest) =
    let others = unlink name rest in if name =s n then others else (n, f) ∷ others

abbrev pub with_files : Store → Files → Store
with_files s files = record {
  is_absolute = s.is_absolute;
  root = s.root;
  components = s.components;
  acl = s.acl;
  files = files;
}

abbrev pub with_components : Store → List (Option Meta) → Store
with_components s components = record {
  is_absolute = s.is_absolute;
  root = s.root;
  components = components;
  acl = s.acl;
  files = s.files;
}

-- what an operation answers, and the store it leaves
abbrev pub Op {ℓ} : Type ℓ → Type ℓ
Op A = Store → Answer A × Store

abbrev pub last_of : Meta → List Meta → Meta
last_of m [] = m
last_of m (x ∷ xs) = last_of x xs

abbrev pub made : Store → Answer (List Meta) → Answer Meta × Store
made s (returns ms) = (returns (last_of s.root ms), with_components s (map some ms))
made s (exits e) = (exits e, s)
made s (raises e) = (raises e, s)

-- `_ensure_store_ready`, and then `os.lstat` of the directory. A component is only made where it and
-- all below it are missing, and what is made passes the checks: a refusal leaves the store alone.
unfoldable pub ensure_store_ready : Process → Bool → String → Bool → Op Meta
unfolding ensure_private_dir shared_walk shared_directory
ensure_store_ready p shared launch_user create s =
    if not s.is_absolute
    then (exits relative_path, s)
    else if shared
    then (
      shared_walk s.components then λ ms.
          shared_directory p s.acl launch_user (last_of s.root ms) then λ _.
          returns (last_of s.root ms),
      s,
    )
    else made s (ensure_private_dir p create s.components)

-- shared_gid of a read: the directory's group where the store is shared
abbrev pub shared_gid : Bool → Meta → Option ℕ
shared_gid shared dir = if shared then some dir.gid else none

-- the checks of the open file in `_read_json`
unfoldable pub is_trusted : Process → Bool → Option ℕ → File → Bool
is_trusted p require_owner gid f =
    f.is_regular && not (require_owner && not (f.uid == p.euid)) && elim gid [
      | none ↦ not (open_to_others f.mode)
      | some g ↦ (f.gid == g) && (f.mode == shared_record_mode)
    ]

abbrev pub object_of : Decoded → Answer Fields
object_of (value (obj payload)) = returns payload
object_of other = raises untrusted

-- what `_read_json` makes of what is there; `O_NOFOLLOW` refuses a link
unfoldable pub read_found : JsonLib → Process → Bool → Option ℕ → Option File → Answer Fields
unfolding is_trusted
read_found json p require_owner gid none = raises not_found
read_found json p require_owner gid (some f) =
    if not f.is_link && is_trusted p require_owner gid f
    then object_of (json.loads f.text)
    else raises untrusted

-- `_read_json`
unfoldable pub read_json : JsonLib → Process → Bool → Option ℕ → String → Files → Answer Fields
unfolding find read_found
read_json json p require_owner gid name files =
    read_found json p require_owner gid (find name files)

-- the file that `_write_new_json` makes
unfoldable pub new_file : JsonLib → Process → Bool → Meta → Fields → File
new_file json p shared dir payload = record {
  is_link = false;
  is_regular = true;
  uid = p.euid;
  gid = if shared then dir.gid else p.egid;
  mode = if shared then shared_record_mode else record_mode;
  text = json.dumps (obj payload);
}

-- `_write_new_json`; `O_EXCL` refuses a name that is taken
unfoldable pub write_new_json : JsonLib → Process → Bool → Meta → String → Fields → Op (Unit {0})
unfolding find new_file
write_new_json json p shared dir name payload s = elim (find name s.files) [
  | none ↦ (returns tt, with_files s ((name, new_file json p shared dir payload) ∷ s.files))
  | some f ↦ (raises already_there, s)
]

-- `_replace_json`: the new file is written under a fresh name and takes the place of the old one
unfoldable pub replace_json : JsonLib → Process → Bool → Meta → String → Fields → Store → Store
unfolding unlink new_file
replace_json json p shared dir name payload s =
    with_files s ((name, new_file json p shared dir payload) ∷ unlink name s.files)
