-- ===== src/Dashboard/Total.antt =====
-- The second loop finds every anchor.
use uxon.Prelude.{
  ℕ, zero, suc, ◌+◌, ◌≡◌, refl, sym, ap, ◌∙◌, String, Bool, true, false, Option, none, some, List,
  [], ◌∷◌, if◌then◌else◌, one_of, map, some_eq, Bool-cases, if-cases, Option-cases, inl, inr, All,
  subst, ◌=s◌,
}
use text.Mathlib.TextEquality.{eq_iff}
use uxon.Launch.Collect.Batch.{differs, same_text}
use uxon.Dashboard.{by_key, known_from, known, insert, index, arrivals}

-- no key stands twice
unfoldable pub distinct : List String → Bool
distinct [] = true
distinct (k ∷ ks) = if one_of k ks then false else distinct ks

module _ {Row : Type 0} (key : Row → String) (equal : Row → Row → Bool) where
  -- `ordered.index(row)` finds the row
  abbrev pub Found : Row → List Row → Type 0
  Found row ordered = (i : ℕ) × index key equal row ordered ≡ some i

  index_later : (r row : Row) (rs : List Row) → Found row rs → Found row (r ∷ rs)
  unfolding index
  index_later r row rs (i, found) = elim (Bool-cases (equal r row)) [
    | inl is ↦ (0, rw is refl)
    | inr is_not ↦ (suc i, rw (is_not, found) refl)
  ]

  index-insert :
      (i : ℕ) (new row : Row) (ordered : List Row)
      → Found row ordered
      → Found row (insert key equal i new ordered)
  unfolding insert index
  index-insert i new row [] (j, found) = cc
  index-insert zero new row (r ∷ rs) found = index_later new row (r ∷ rs) found
  index-insert (suc i) new row (r ∷ rs) (j, found) = elim (Bool-cases (equal r row)) [
    | inl is ↦ (0, rw is refl)
    | inr is_not ↦ elim (Option-cases (index key equal row rs)) [
      | inl missing ↦ let no_index = rw (is_not, missing) at found in cc
      | inr (n, there) ↦ index_later r row _ (index-insert i new row rs (n, there))
    ]
  ]

  -- the anchors of these rows are found
  abbrev pub Anchored : List String → List Row → List Row → Type 0
  Anchored placed ordered rows =
      All (λ row. one_of (key row) placed ≡ true → Found row ordered) rows

  Anchored-insert :
      (placed : List String) (i : ℕ) (new : Row) (ordered rows : List Row)
      → Anchored placed ordered rows
      → Anchored placed (insert key equal i new ordered) rows
  Anchored-insert placed i new ordered [] h = tt
  Anchored-insert placed i new ordered (row ∷ rows) h =
      (λ is. index-insert i new row ordered (h.0 is), Anchored-insert placed i new ordered rows h.1)

  index-insert_new :
      (i : ℕ) (row : Row) (ordered : List Row)
      → equal row row ≡ true
      → Found row (insert key equal i row ordered)
  unfolding insert index
  index-insert_new zero row [] same = (0, rw same refl)
  index-insert_new (suc i) row [] same = (0, rw same refl)
  index-insert_new zero row (r ∷ rs) same = (0, rw same refl)
  index-insert_new (suc i) row (r ∷ rs) same = index_later r row _ (index-insert_new i row rs same)

  -- the loop ends with these rows in its list, and with all that was there before
  abbrev pub Holds : List Row → List Row → Option (List Row) → Type 0
  Holds ordered rows result =
      (out : List Row) × (result ≡ some out)
      × ((r : Row) → Found r ordered → Found r out)
      × All (λ r. Found r out) rows

  Holds-more :
      (row : Row) (before ordered rows : List Row) (result : Option (List Row))
      → ((r : Row) → Found r before → Found r ordered)
      → Found row ordered
      → Holds ordered rows result
      → Holds before (row ∷ rows) result
  Holds-more row before ordered rows result more found (out, is, kept, all) =
      (out, is, λ r there. kept r (more r there), (kept row found, all))

  module _ (new_keys placed : List String) (reflexive : (r : Row) → equal r r ≡ true) where
    -- a row that is not placed is new
    abbrev pub Sorted : List Row → Type 0
    Sorted rows = All (λ r. one_of (key r) new_keys ≡ false → one_of (key r) placed ≡ true) rows

    pub arrivals-Holds :
        (rows ordered : List Row) (insert_pos : ℕ)
        → Anchored placed ordered rows
        → Sorted rows
        → Holds ordered rows (arrivals key equal new_keys placed rows ordered insert_pos)
    unfolding arrivals
    arrivals-Holds [] ordered insert_pos h sorted = (ordered, refl, λ r found. found, tt)
    arrivals-Holds (row ∷ rows) ordered insert_pos h sorted =
        if-cases (Holds ordered (row ∷ rows)) (one_of (key row) new_keys)
          (λ new.
            let longer = insert key equal insert_pos row ordered in
            Holds-more row ordered longer rows _ (λ r. index-insert insert_pos row r ordered)
              (index-insert_new insert_pos row ordered (reflexive row))
              (arrivals-Holds rows longer (insert_pos + 1)
                (Anchored-insert placed insert_pos row ordered rows h.1) sorted.1))
          (λ old.
            let anchor = sorted.0 old in
            let (i, found) = h.0 anchor in
            rw (anchor, found)
              (Holds-more row ordered ordered rows _ (λ r there. there) (i, found)
                (arrivals-Holds rows ordered (i + 1) h.1 sorted.1)))

  pub by_key-none :
      (k : String) (rows : List Row)
      → one_of k (map key rows) ≡ false
      → by_key key equal k rows ≡ none
  unfolding by_key
  by_key-none k [] h = refl
  by_key-none k (row ∷ rows) h = elim (Bool-cases (k =s key row)) [
    | inl is ↦ let no_key = rw (one_of, is) at h in cc
    | inr is_not ↦
        let other : (key row =s k) ≡ false =
          differs (key row) k (λ e. let no_text = rw (e, same_text k) at is_not in cc) in
        rw (by_key-none k rows (rw (one_of, is_not) at h), other) refl
  ]

  abbrev pub Resolves : List Row → List Row → Type 0
  Resolves all rows = All (λ row. by_key key equal (key row) all ≡ some row) rows

  Resolves-more : (row : Row) (all rows : List Row) → Resolves all rows → Resolves (row ∷ all) rows
  unfolding by_key
  Resolves-more row all [] h = tt
  Resolves-more row all (r ∷ rs) h = (rw h.0 refl, Resolves-more row all rs h.1)

  pub by_key-Resolves : (rows : List Row) → distinct (map key rows) ≡ true → Resolves rows rows
  unfolding by_key distinct
  by_key-Resolves [] h = tt
  by_key-Resolves (row ∷ rows) h = elim (Bool-cases (one_of (key row) (map key rows))) [
    | inl twice ↦ let no_rows = rw twice at h in cc
    | inr alone ↦ (
      rw (by_key-none (key row) rows alone, same_text (key row)) refl,
      Resolves-more row rows rows (by_key-Resolves rows (rw alone at h)),
    )
  ]

  module _ (rows : List Row) (row : Row) (same : equal row row ≡ true)
      (own : by_key key equal (key row) rows ≡ some row) where
    -- one step of the first loop
    known_from-Found :
        (ks : List String) (k : String) (found : Option Row) (placed : List String)
        → ((more : List String)
            → one_of (key row) more ≡ false
            → one_of (key row) (known key equal rows ks more).1 ≡ true
            → Found row (known key equal rows ks more).0)
        → by_key key equal k rows ≡ found
        → one_of (key row) placed ≡ false
        → let r = known_from key equal (known key equal rows ks) k found placed in
          one_of (key row) r.1 ≡ true → Found row r.0
    unfolding index
    known_from-Found ks k none placed later e new = later placed new
    known_from-Found ks k (some r) placed later e new =
        if-cases (λ (s : List Row × List String). one_of (key row) s.1 ≡ true → Found row s.0)
          (one_of k placed) (λ is. later placed new)
          (λ is_not. elim (Bool-cases (key row =s k)) [
            | inl here ↦ λ h.
                let it : row ≡ r =
                  some_eq (
                    sym own
                    ∙ ap (λ x. by_key key equal x rows) ((eq_iff (key row) k).0 here)
                    ∙ e) in
                (0, rw (subst (λ x. equal x row ≡ true) it same) refl)
            | inr other ↦ λ h. index_later r row _ (later (k ∷ placed) (rw (one_of, other) new) h)
          ])

    -- a row that the first loop places is found
    pub known-Found :
        (ks placed : List String)
        → one_of (key row) placed ≡ false
        → one_of (key row) (known key equal rows ks placed).1 ≡ true
        → Found row (known key equal rows ks placed).0
    unfolding known
    known-Found [] placed new h = cc
    known-Found (k ∷ ks) placed new h =
        known_from-Found ks k (by_key key equal k rows) placed (known-Found ks) refl new h
