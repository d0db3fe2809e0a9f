-- ===== src/Launch/Directory.antt =====
-- src/uxon/infra/launch_records.py: whether the directory of the records can be trusted. The path is
-- the list of its components below the root, each with what `os.lstat` says of it, or `none` where
-- it does not exist; the last is the directory itself.
use uxon.Prelude.{
  ℕ, ◌/◌, ◌%◌, String, Bool, true, false, not, Option, none, some, List, [], ◌∷◌, ◌&&◌, ◌||◌, ◌==◌,
  any, truthy, if◌then◌else◌,
}

-- the part of `stat_result` that the code reads
pub record Meta : Type 0 where
  pub is_link : Bool
  pub is_dir : Bool
  pub uid : ℕ
  pub gid : ℕ
  pub mode : ℕ

-- the messages of `fail`
pub data Refusal : Type 0 where
  relative_path : Refusal
  not_provisioned : Refusal
  symlink_component : Refusal
  not_a_directory : Refusal
  foreign_owner : Refusal
  wrong_mode : Refusal
  writable_by_others : Refusal
  not_root_owned : Refusal
  not_in_group : Refusal
  has_acl : Refusal
  unknown_user : Refusal
  user_in_group : Refusal
  unexpected_session : Refusal
  nonce_mismatch : Refusal
  not_pending : Refusal
  no_launch_user : Refusal
  -- with the text of the OSError
  not_unlinked : String → Refusal
  pending_not_unlinked : String → Refusal

-- the exceptions, apart from `SystemExit`: FileNotFoundError; FileExistsError; OverflowError; what else
-- `_read_json` raises (PermissionError, ValueError, OSError)
pub data Raised : Type 0 where
  not_found : Raised
  already_there : Raised
  overflow : Raised
  untrusted : Raised

pub data Answer {ℓ} (A : Type ℓ) : Type ℓ where
  returns : A → Answer A
  exits : Refusal → Answer A
  raises : Raised → Answer A

infixl 10 ◌then◌
abbrev pub ◌then◌ {ℓ κ} : {A : Type ℓ} {B : Type κ} → Answer A → (A → Answer B) → Answer B
returns a then f = f a
exits e then f = exits e
raises e then f = raises e

-- `if bad: fail(why)`, before the rest
abbrev pub unless_bad {ℓ} : {A : Type ℓ} → Bool → Refusal → Answer A → Answer A
unless_bad true why rest = exits why
unless_bad false why rest = rest

-- what the process is, and what the system says of users
pub record Process : Type 0 where
  pub euid : ℕ
  pub egid : ℕ
  pub groups : List ℕ
  -- the groups of an account, which `pwd.getpwnam` and `os.getgrouplist` tell
  pub groups_of : String → Option (List ℕ)
  -- the text of the OSError that `unlink` of a file that is there raises, or `none` where it does not
  pub unlink_error : String → Option String
  -- whether a collection can list the directory, and replace its cursor
  pub can_list : Bool
  pub can_replace_cursor : Bool

-- mode & 0o022, as a truth value
abbrev pub open_to_others : ℕ → Bool
open_to_others mode = (mode / 16 % 2 == 1) || (mode / 2 % 2 == 1)

-- mode & S_ISVTX
abbrev pub is_sticky : ℕ → Bool
is_sticky mode = mode / 512 % 2 == 1

-- 0o700, 0o600, 0o2770, 0o640
abbrev pub store_mode : ℕ
store_mode = 448

abbrev pub record_mode : ℕ
record_mode = 384

abbrev pub shared_store_mode : ℕ
shared_store_mode = 1528

abbrev pub shared_record_mode : ℕ
shared_record_mode = 416

-- current.mkdir(mode=_STORE_MODE), then os.lstat(current)
abbrev pub made_by : Process → Meta
made_by p = record { is_link = false; is_dir = true; uid = p.euid; gid = p.egid; mode = store_mode }

-- the checks of one component; `last` is `current == path`
unfoldable pub private_component : Process → Bool → Meta → Answer (Unit {0})
private_component p last m = unless_bad m.is_link symlink_component (
    unless_bad (not m.is_dir) not_a_directory (
      unless_bad (not ((m.uid == 0) || (m.uid == p.euid))) foreign_owner (
        unless_bad (last && not (m.mode == store_mode)) wrong_mode (
          unless_bad (open_to_others m.mode && not (is_sticky m.mode)) writable_by_others
            (returns tt)))))

-- `_ensure_private_dir` below the root: the components as they are afterwards
abbrev pub component_or_made : Process → Bool → Option Meta → Answer Meta
component_or_made p create (some m) = returns m
component_or_made p true none = returns (made_by p)
component_or_made p false none = raises not_found

abbrev pub is_last : List (Option Meta) → Bool
is_last [] = true
is_last (c ∷ cs) = false

unfoldable pub ensure_private_dir : Process → Bool → List (Option Meta) → Answer (List Meta)
unfolding private_component
ensure_private_dir p create [] = returns []
ensure_private_dir p create (c ∷ cs) =
    let rest = ensure_private_dir p create cs in
    component_or_made p create c then λ m.
    private_component p (is_last cs) m then λ _. rest then λ ms. returns (m ∷ ms)

-- the walk of `_validate_shared_dir`, and the directory that it ends at
unfoldable pub shared_component : Bool → Meta → Answer (Unit {0})
shared_component last m = unless_bad m.is_link symlink_component (
    unless_bad (not m.is_dir) not_a_directory (
      unless_bad (not last && open_to_others m.mode && not (is_sticky m.mode)) writable_by_others
        (returns tt)))

abbrev pub component_there : Option Meta → Answer Meta
component_there (some m) = returns m
component_there none = exits not_provisioned

unfoldable pub shared_walk : List (Option Meta) → Answer (List Meta)
unfolding shared_component
shared_walk [] = returns []
shared_walk (c ∷ cs) =
    let rest = shared_walk cs in
    component_there c then λ m.
    shared_component (is_last cs) m then λ _. rest then λ ms. returns (m ∷ ms)

abbrev pub has_gid : ℕ → List ℕ → Bool
has_gid g gs = any (λ x. x == g) gs

-- `if launch_user:` of `_validate_shared_dir`
unfoldable pub check_launch_user : Process → String → ℕ → Answer (Unit {0})
check_launch_user p launch_user gid =
    if truthy launch_user
    then elim (p.groups_of launch_user) [
      | none ↦ exits unknown_user
      | some gs ↦ unless_bad (has_gid gid gs) user_in_group (returns tt)
    ]
    else returns tt

-- what `_validate_shared_dir` asks of the directory itself; `acl` is `_has_posix_acl(path)`
unfoldable pub shared_directory : Process → Bool → String → Meta → Answer (Unit {0})
unfolding check_launch_user
shared_directory p acl launch_user m =
    unless_bad (not (m.uid == 0) || not (m.mode == shared_store_mode)) not_root_owned (
      unless_bad (not (has_gid m.gid (p.egid ∷ p.groups)) && not (p.euid == 0)) not_in_group
        (unless_bad acl has_acl (check_launch_user p launch_user m.gid)))
