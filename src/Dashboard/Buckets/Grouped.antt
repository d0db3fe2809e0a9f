-- ===== src/Dashboard/Buckets/Grouped.antt =====
-- The groups are the rows of each host.
use uxon.Prelude.{
  ◌≡◌, refl, sym, ap, ◌∙◌, String, true, Option, none, some, List, [], ◌∷◌, ◌++◌, map, keep,
  keep_yes, keep_no, append_one, append_none, Bool-cases, inl, inr,
}
use text.Mathlib.TextEquality.{eq_iff}
use uxon.Dashboard.Buckets.{
  HostBucket, bucket, same_host, Groups, group_at, with_hosts, with_rows, select_host_buckets,
}

same_host_eq : (a b : Option String) → same_host a b ≡ true → a ≡ b
same_host_eq none none h = refl
same_host_eq none (some b) h = cc
same_host_eq (some a) none h = cc
same_host_eq (some a) (some b) h = ap some ((eq_iff a b).0 h)

map_same :
    {A B : Type 0} (f g : A → B) → ((a : A) → f a ≡ g a) → (xs : List A) → map f xs ≡ map g xs
map_same f g h [] = refl
map_same f g h (x ∷ xs) = ap (λ b. b ∷ map f xs) (h x) ∙ ap (λ l. g x ∷ l) (map_same f g h xs)

module _ {Row : Type 0} (host : Row → Option String) where
  -- the rows of one host
  abbrev pub rows_of : Option String → List Row → List Row
  rows_of key rows = keep (λ row. same_host key (host row)) rows

  group_at-with_hosts :
      (key : Option String) (names : List String) (grouped : Groups host)
      → group_at host key grouped ≡ []
      → group_at host key (with_hosts host names grouped) ≡ []
  unfolding group_at with_hosts
  group_at-with_hosts key [] grouped h = h
  group_at-with_hosts key (name ∷ names) grouped h = elim (Bool-cases (same_host key (some name))) [
    | inl is ↦ group_at-with_hosts key names ((some name, []) ∷ grouped) (rw is refl)
    | inr is_not ↦ group_at-with_hosts key names ((some name, []) ∷ grouped) (rw is_not h)
  ]

  group_at-with_rows :
      (key : Option String) (rows : List Row) (grouped : Groups host)
      → group_at host key (with_rows host rows grouped)
        ≡ group_at host key grouped ++ rows_of key rows
  unfolding group_at with_rows
  group_at-with_rows key [] grouped = sym (append_none (group_at host key grouped))
  group_at-with_rows key (row ∷ rows) grouped =
      let added = group_at host (host row) grouped ++ row ∷ [] in
      let rest = group_at-with_rows key rows ((host row, added) ∷ grouped) in
      elim (Bool-cases (same_host key (host row))) [
        | inl is ↦
            let it : key ≡ host row = same_host_eq key (host row) is in
            rest
            ∙ rw is (
                append_one (group_at host (host row) grouped) row (rows_of key rows)
                ∙ ap (λ k. group_at host k grouped ++ row ∷ rows_of key rows) (sym it)
                ∙ ap (λ l. group_at host key grouped ++ l)
                    (sym (keep_yes (λ r. same_host key (host r)) row rows is)))
        | inr is_not ↦
            rest
            ∙ rw is_not (
                ap (λ l. group_at host key grouped ++ l)
                  (sym (keep_no (λ r. same_host key (host r)) row rows is_not)))
      ]

  group_of :
      (key : Option String) (rows : List Row) (names : List String)
      → group_at host key (with_rows host rows (with_hosts host names ((none, []) ∷ [])))
        ≡ rows_of key rows
  unfolding group_at
  group_of key rows names =
      group_at-with_rows key rows _
      ∙ ap (λ l. l ++ rows_of key rows) (group_at-with_hosts key names _ (empty key))
    where
      empty : (key : Option String) → group_at host key ((none, []) ∷ []) ≡ []
      empty none = refl
      empty (some name) = refl

  -- There is a bucket for this host and then one for each configured host, in their order, empty or
  -- not. It has the rows of its host, in their order; a row of any other host is in no bucket.
  pub select_host_buckets-rows_of :
      (rows : List Row) (remote_hosts : List String)
      → select_host_buckets host rows remote_hosts
        ≡ bucket none "local" (rows_of none rows)
          ∷ map (λ name. bucket (some name) name (rows_of (some name) rows)) remote_hosts
  unfolding select_host_buckets
  select_host_buckets-rows_of rows remote_hosts =
      let grouped = with_rows host rows (with_hosts host remote_hosts ((none, []) ∷ [])) in
      let others : List (HostBucket Row) =
        map (λ name. bucket (some name) name (group_at host (some name) grouped)) remote_hosts in
      ap (λ l. bucket none "local" l ∷ others) (group_of none rows remote_hosts)
      ∙ ap (λ l. bucket none "local" (rows_of none rows) ∷ l)
          (map_same _ _
            (λ name. ap (bucket (some name) name) (group_of (some name) rows remote_hosts))
            remote_hosts)
