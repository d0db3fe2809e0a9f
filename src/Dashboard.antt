-- ===== src/Dashboard.antt =====
-- src/uxon/tui/dashboard/order.py: where the rows of the dashboard stand. A row is of any type, with
-- its key; `equal` is Python's `==` on rows.
pub mod Stable
pub mod Total
pub mod Placed
pub mod Cold
pub mod Buckets
use uxon.Prelude.{
  ℕ, zero, suc, ◌+◌, String, Bool, true, false, not, Option, none, some, List, [], ◌∷◌, ◌=s◌,
  one_of, map, keep, if◌then◌else◌,
}

module _ {Row : Type 0} (key : Row → String) (equal : Row → Row → Bool) where
  -- by_key.get(k), where a later row replaces an earlier one with its key
  unfoldable pub by_key : String → List Row → Option Row
  by_key k [] = none
  by_key k (row ∷ rows) =
      let later = by_key k rows in
      elim later [ some r ↦ some r | none ↦ if key row =s k then some row else none ]

  -- the first loop: the rows in their persisted order, and the keys that are placed
  abbrev pub known_from :
      (List String → List Row × List String)
      → String
      → Option Row
      → List String
      → List Row × List String
  known_from rest k none placed = rest placed
  known_from rest k (some row) placed =
      if one_of k placed then rest placed else (row ∷ (rest (k ∷ placed)).0, (rest (k ∷ placed)).1)

  unfoldable pub known : List Row → List String → List String → List Row × List String
  unfolding by_key
  known rows [] placed = ([], placed)
  known rows (k ∷ ks) placed = known_from (known rows ks) k (by_key k rows) placed

  -- ordered.insert(i, row)
  unfoldable pub insert : ℕ → Row → List Row → List Row
  insert i row [] = row ∷ []
  insert zero row (r ∷ rs) = row ∷ r ∷ rs
  insert (suc i) row (r ∷ rs) = r ∷ insert i row rs

  -- ordered.index(row); `none` is its ValueError
  unfoldable pub index : Row → List Row → Option ℕ
  index row [] = none
  index row (r ∷ rs) =
      let later = index row rs in
      if equal r row then some 0 else elim later [ none ↦ none | some i ↦ some (suc i) ]

  -- the second loop, from its `ordered` and `insert_pos`
  unfoldable pub arrivals : List String → List String → List Row → List Row → ℕ → Option (List Row)
  unfolding insert index
  arrivals new_keys placed [] ordered insert_pos = some ordered
  arrivals new_keys placed (row ∷ rows) ordered insert_pos =
      let rest = arrivals new_keys placed rows in
      if one_of (key row) new_keys
      then rest (insert insert_pos row ordered) (insert_pos + 1)
      else if one_of (key row) placed
      then elim (index row ordered) [ none ↦ none | some i ↦ rest ordered (i + 1) ]
      else rest ordered insert_pos

  -- {row.key for row in current_rows if row.key not in placed}
  unfoldable pub new_keys_of : List String → List Row → List String
  new_keys_of placed rows = keep (λ k. not (one_of k placed)) (map key rows)

  unfoldable pub place : List String → List Row → Option (List Row)
  unfolding known arrivals new_keys_of
  place persisted_order current_rows =
      let (ordered, placed) = known current_rows persisted_order [] in
      elim (new_keys_of placed current_rows) [
        | [] ↦ some ordered
        | k ∷ ks ↦ arrivals (k ∷ ks) placed current_rows ordered 0
      ]
