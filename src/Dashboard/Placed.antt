-- ===== src/Dashboard/Placed.antt =====
-- What `place` gives.
use uxon.Prelude.{
  ◌≡◌, refl, sym, ap, ◌∙◌, String, Bool, true, false, not, Option, none, some, List, [], ◌∷◌,
  one_of, map, keep, keep_yes, keep_no, Bool-cases, Option-cases, inl, inr, All, All-map, subst,
  ◌=s◌,
}
use text.Mathlib.TextEquality.{eq_iff}
use uxon.Launch.Collect.Batch.{differs, same_text}
use uxon.Dashboard.{by_key, known, arrivals, new_keys_of, place}
use uxon.Dashboard.Stable.{established, place-established, by_key-key}
use uxon.Dashboard.Total.{
  Found, Holds, Sorted, Anchored, arrivals-Holds, by_key-Resolves, by_key-none, known-Found,
  distinct,
}

one_of-keep :
    (placed keys : List String) (k : String)
    → one_of k keys ≡ true
    → one_of k placed ≡ false
    → one_of k (keep (λ k. not (one_of k placed)) keys) ≡ true
one_of-keep placed [] k h new = cc
one_of-keep placed (x ∷ xs) k h new = elim (Bool-cases (k =s x)) [
  | inl is ↦
      let same : k ≡ x = (eq_iff k x).0 is in
      let new_x : one_of x placed ≡ false = subst (λ x. one_of x placed ≡ false) same new in
      subst (λ l. one_of k l ≡ true)
        (sym (keep_yes (λ k. not (one_of k placed)) x xs (ap not new_x))) (rw (one_of, is) refl)
  | inr other ↦
      let later = one_of-keep placed xs k (rw (one_of, other) at h) new in
      elim (Bool-cases (one_of x placed)) [
        | inl old ↦
            subst (λ l. one_of k l ≡ true)
              (sym (keep_no (λ k. not (one_of k placed)) x xs (ap not old))) later
        | inr fresh ↦
            subst (λ l. one_of k l ≡ true)
              (sym (keep_yes (λ k. not (one_of k placed)) x xs (ap not fresh)))
              (rw (one_of, other) later)
      ]
]

-- keys that are another than k stay new when k is placed
All-fresh :
    (k : String) (placed ks : List String)
    → one_of k ks ≡ false
    → All (λ x. one_of x placed ≡ false) ks
    → All (λ x. one_of x (k ∷ placed) ≡ false) ks
All-fresh k placed [] apart h = tt
All-fresh k placed (x ∷ xs) apart h = elim (Bool-cases (k =s x)) [
  | inl is ↦ let no_text = rw (one_of, is) at apart in cc
  | inr is_not ↦ (
    rw (one_of, differs x k (λ e. let no_text = rw (e, same_text k) at is_not in cc)) h.0,
    All-fresh k placed xs (rw (one_of, is_not) at apart) h.1,
  )
]

module _ {Row : Type 0} (key : Row → String) (equal : Row → Row → Bool) where
  by_key-missing :
      (k : String) (rows : List Row)
      → by_key key equal k rows ≡ none
      → one_of k (map key rows) ≡ false
  unfolding by_key
  by_key-missing k [] h = refl
  by_key-missing k (row ∷ rows) h = elim (Option-cases (by_key key equal k rows)) [
    | inr (r, found) ↦ let no_row = rw found at h in cc
    | inl missing ↦ elim (Bool-cases (key row =s k)) [
      | inl is ↦ let no_row = rw (missing, is) at h in cc
      | inr is_not ↦
          rw
            (
              one_of,
              differs k (key row) (λ e. let no_text = rw (sym e, same_text k) at is_not in cc),
            )
            (by_key-missing k rows missing)
    ]
  ]

  known-keys :
      (rows : List Row) (ks placed : List String)
      → distinct ks ≡ true
      → All (λ k. one_of k placed ≡ false) ks
      → map key (known key equal rows ks placed).0 ≡ keep (λ k. one_of k (map key rows)) ks
  unfolding known distinct
  known-keys rows [] placed h fresh = refl
  known-keys rows (k ∷ ks) placed h fresh = elim (Bool-cases (one_of k ks)) [
    | inl twice ↦ let no_keys = rw twice at h in cc
    | inr alone ↦
        let rest = rw alone at h in
        elim (Option-cases (by_key key equal k rows)) [
          | inl missing ↦
              rw missing (known-keys rows ks placed rest fresh.1)
              ∙ sym (keep_no (λ k. one_of k (map key rows)) k ks (by_key-missing k rows missing))
          | inr (row, found) ↦ elim (Bool-cases (one_of k (map key rows))) [
            | inr absent ↦ let no_row = by_key-none key equal k rows absent in cc
            | inl there ↦
                rw (found, fresh.0)
                  (ap (λ x. x ∷ map key (known key equal rows ks (k ∷ placed)).0)
                      (by_key-key key equal k rows row found)
                    ∙ ap (λ l. k ∷ l)
                        (known-keys rows ks (k ∷ placed) rest
                          (All-fresh k placed ks alone fresh.1)))
                ∙ sym (keep_yes (λ k. one_of k (map key rows)) k ks there)
          ]
        ]
  ]

  -- `placed` holds the keys that the first loop placed
  abbrev pub IsStable : List String → List Row → Option (List Row) → Type 0
  IsStable persisted_order rows result =
      let placed = (known key equal rows persisted_order []).1 in
      (out : List Row) × (result ≡ some out)
      × All (λ r. Found key equal r out) rows
      × (map key (established key equal placed out)
          ≡ keep (λ k. one_of k (map key rows)) persisted_order)

  module _ (reflexive : (r : Row) → equal r r ≡ true) (persisted_order : List String)
      (rows : List Row) (apart : distinct (map key rows) ≡ true) where
    -- the first loop finds the rows whose keys it places
    rows-Anchored :
        let (ordered, placed) = known key equal rows persisted_order [] in
        Anchored key equal placed ordered rows
    rows-Anchored =
        All-map (λ r. by_key key equal (key r) rows ≡ some r)
          (λ r.
            one_of (key r) (known key equal rows persisted_order []).1 ≡ true
            → Found key equal r (known key equal rows persisted_order []).0)
          (λ r own is. known-Found key equal rows r (reflexive r) own persisted_order [] refl is)
          rows (by_key-Resolves key equal rows apart)

    own-one_of :
        (r : Row) → by_key key equal (key r) rows ≡ some r → one_of (key r) (map key rows) ≡ true
    own-one_of r own = elim (Bool-cases (one_of (key r) (map key rows))) [
      | inl is ↦ is
      | inr is_not ↦ let no_row = by_key-none key equal (key r) rows is_not in cc
    ]

    -- a row whose key is not new is placed
    rows-Sorted :
        let placed = (known key equal rows persisted_order []).1 in
        Sorted key equal (new_keys_of key equal placed rows) placed reflexive rows
    unfolding new_keys_of
    rows-Sorted =
        let placed = (known key equal rows persisted_order []).1 in
        All-map (λ r. by_key key equal (key r) rows ≡ some r)
          (λ r.
            one_of (key r) (new_keys_of key equal placed rows) ≡ false
            → one_of (key r) placed ≡ true)
          (λ r own old. elim (Bool-cases (one_of (key r) placed)) [
            | inl is ↦ is
            | inr is_not ↦
                let new = one_of-keep placed (map key rows) (key r) (own-one_of r own) is_not in cc
          ])
          rows (by_key-Resolves key equal rows apart)

    All-both : (P Q : Row → Type 0) (rs : List Row) → All P rs → All (λ r. P r → Q r) rs → All Q rs
    All-both P Q [] h f = tt
    All-both P Q (r ∷ rs) h f = (f.0 h.0, All-both P Q rs h.1 f.1)

    place-Holds :
        Holds key equal
          (known key equal rows persisted_order []).0
          rows
          (place key equal persisted_order rows)
    unfolding place
    place-Holds =
        after (new_keys_of key equal (known key equal rows persisted_order []).1 rows) rows-Sorted
      where
        after :
            (new_keys : List String)
            → let (ordered, placed) = known key equal rows persisted_order [] in
              Sorted key equal new_keys placed reflexive rows
              → Holds key equal ordered rows (elim new_keys [
                | [] ↦ some ordered
                | k ∷ ks ↦ arrivals key equal (k ∷ ks) placed rows ordered 0
              ])
        after [] sorted = (
          _,
          refl,
          λ r found. found,
          All-both (λ r. one_of (key r) (known key equal rows persisted_order []).1 ≡ true) _ rows
              (All-map
                (λ r.
                  false ≡ false → one_of (key r) (known key equal rows persisted_order []).1 ≡ true)
                _ (λ r h. h refl) rows sorted)
              rows-Anchored,
        )
        after (k ∷ ks) sorted =
            arrivals-Holds key equal (k ∷ ks) _ reflexive rows _ 0 rows-Anchored sorted

    -- Let `==` be reflexive on rows, and no key stand twice in the persisted order or among the rows.
    -- Then `place` gives a list of rows. `index` finds each current row in it, and those of its rows
    -- that were placed from the persisted order have, in their order, the persisted keys that a
    -- current row has: new rows stand between them and move none, and departed ones are left out.
    pub place-IsStable :
        distinct persisted_order ≡ true
        → IsStable persisted_order rows (place key equal persisted_order rows)
    place-IsStable once =
        let (out, is, kept, all) = place-Holds in
        (
          out,
          is,
          all,
          ap (map key) (place-established key equal persisted_order rows out is)
              ∙ known-keys rows persisted_order [] once (none_placed persisted_order),
        )
      where
        none_placed : (ks : List String) → All (λ k. one_of k [] ≡ false) ks
        none_placed [] = tt
        none_placed (k ∷ ks) = (refl, none_placed ks)
