-- ===== src/Dashboard/Buckets.antt =====
-- src/uxon/tui/dashboard/buckets.py, `select_host_buckets`: the rows of the dashboard by host. A row is
-- of any type, with its host (`none` for this one); a configured host is given by its name.
pub mod Grouped
use uxon.Prelude.{
  String, Bool, true, false, Option, none, some, List, [], ◌∷◌, ◌++◌, ◌=s◌, map, if◌then◌else◌,
}

pub record HostBucket (Row : Type 0) : Type 0 where
  pub host_name : Option String
  pub label : String
  pub rows : List Row

abbrev pub bucket : {Row : Type 0} → Option String → String → List Row → HostBucket Row
bucket host_name label rows = record { host_name = host_name; label = label; rows = rows }

-- Python's `==` on the keys of the groups
abbrev pub same_host : Option String → Option String → Bool
same_host none none = true
same_host none (some b) = false
same_host (some a) none = false
same_host (some a) (some b) = a =s b

module _ {Row : Type 0} (host : Row → Option String) where
  -- the dictionary `grouped`: the first entry of a key holds
  abbrev pub Groups : Type 0
  Groups = List (Option String × List Row)

  -- grouped.get(key, ())
  unfoldable pub group_at : Option String → Groups → List Row
  group_at key [] = []
  group_at key (group ∷ groups) = if same_host key group.0 then group.1 else group_at key groups

  -- the loop over cfg.remote_hosts
  unfoldable pub with_hosts : List String → Groups → Groups
  with_hosts [] grouped = grouped
  with_hosts (name ∷ names) grouped = with_hosts names ((some name, []) ∷ grouped)

  -- the loop over the rows, with grouped.setdefault(row.host, []).append(row)
  unfoldable pub with_rows : List Row → Groups → Groups
  unfolding group_at
  with_rows [] grouped = grouped
  with_rows (row ∷ rows) grouped =
      with_rows rows ((host row, group_at (host row) grouped ++ row ∷ []) ∷ grouped)

  unfoldable pub select_host_buckets : List Row → List String → List (HostBucket Row)
  unfolding group_at with_hosts with_rows
  select_host_buckets rows remote_hosts =
      let grouped = with_rows rows (with_hosts remote_hosts ((none, []) ∷ [])) in
      bucket none "local" (group_at none grouped)
      ∷ map (λ name. bucket (some name) name (group_at (some name) grouped)) remote_hosts
