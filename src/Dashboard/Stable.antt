-- ===== src/Dashboard/Stable.antt =====
-- Established rows keep their order.
use uxon.Prelude.{
  ℕ, zero, suc, ◌+◌, ◌≡◌, refl, sym, ap, ◌∙◌, String, Bool, true, false, not, Option, none, some,
  List, [], ◌∷◌, one_of, map, keep, keep_yes, keep_no, Bool-cases, if-cases, Option-cases, inl, inr,
  All, subst, ◌=s◌, some_eq,
}
use text.Mathlib.TextEquality.{eq_iff}
use uxon.Launch.Collect.Batch.{same_text}
use uxon.Dashboard.{by_key, known_from, known, insert, index, arrivals, new_keys_of, place}

module _ {Row : Type 0} (key : Row → String) (equal : Row → Row → Bool) where
  -- the rows whose keys are placed
  abbrev pub established : List String → List Row → List Row
  established placed rows = keep (λ r. one_of (key r) placed) rows

  abbrev placed_row : List String → Row → Bool
  placed_row placed r = one_of (key r) placed

  established-insert :
      (placed : List String) (i : ℕ) (row : Row) (rows : List Row)
      → one_of (key row) placed ≡ false
      → established placed (insert key equal i row rows) ≡ established placed rows
  unfolding insert
  established-insert placed zero row [] new = keep_no (placed_row placed) row [] new
  established-insert placed (suc i) row [] new = keep_no (placed_row placed) row [] new
  established-insert placed zero row (r ∷ rs) new = keep_no (placed_row placed) row (r ∷ rs) new
  established-insert placed (suc i) row (r ∷ rs) new =
      ap (λ rest. elim (one_of (key r) placed) [ true ↦ r ∷ rest | false ↦ rest ])
        (established-insert placed i row rs new)

  pub one_of-new_keys :
      (placed keys : List String) (k : String)
      → one_of k (keep (λ k. not (one_of k placed)) keys) ≡ true
      → one_of k placed ≡ false
  one_of-new_keys placed [] k h = cc
  one_of-new_keys placed (x ∷ xs) k h = elim (Bool-cases (one_of x placed)) [
    | inl is ↦
        one_of-new_keys placed xs k
          (subst (λ l. one_of k l ≡ true) (keep_no (λ k. not (one_of k placed)) x xs (ap not is)) h)
    | inr is_not ↦ elim (Bool-cases (k =s x)) [
      | inl same ↦ subst (λ k. one_of k placed ≡ false) (sym ((eq_iff k x).0 same)) is_not
      | inr other ↦
          let later =
            subst (λ l. one_of k l ≡ true)
              (keep_yes (λ k. not (one_of k placed)) x xs (ap not is_not)) h in
          one_of-new_keys placed xs k (rw (one_of, other) at later)
    ]
  ]

  arrivals-established :
      (new_keys placed : List String) (rows ordered out : List Row) (insert_pos : ℕ)
      → ((k : String) → one_of k new_keys ≡ true → one_of k placed ≡ false)
      → arrivals key equal new_keys placed rows ordered insert_pos ≡ some out
      → established placed out ≡ established placed ordered
  unfolding arrivals
  arrivals-established new_keys placed [] ordered out insert_pos apart h =
      let same : ordered ≡ out = some_eq h in ap (established placed) (sym same)
  arrivals-established new_keys placed (row ∷ rows) ordered out insert_pos apart h =
      elim (Bool-cases (one_of (key row) new_keys)) [
        | inl new ↦
            arrivals-established new_keys placed rows (insert key equal insert_pos row ordered) out
              (insert_pos + 1) apart (rw new at h)
            ∙ established-insert placed insert_pos row ordered (apart (key row) new)
        | inr old ↦ elim (Bool-cases (one_of (key row) placed)) [
          | inl anchor ↦ elim (Option-cases (index key equal row ordered)) [
            | inl missing ↦ let no = rw (old, anchor, missing) at h in cc
            | inr (i, found) ↦
                arrivals-established new_keys placed rows ordered out (i + 1) apart
                  (rw (old, anchor, found) at h)
          ]
          | inr neither ↦
              arrivals-established new_keys placed rows ordered out insert_pos apart
                (rw (old, neither) at h)
        ]
      ]

  -- the row of a key has this key
  pub by_key-key :
      (k : String) (rows : List Row) (r : Row) → by_key key equal k rows ≡ some r → key r ≡ k
  unfolding by_key
  by_key-key k [] r h = cc
  by_key-key k (row ∷ rows) r h = elim (Option-cases (by_key key equal k rows)) [
    | inr (r', found) ↦
        let same : r' ≡ r = some_eq (rw found at h) in by_key-key k rows r (found ∙ ap some same)
    | inl missing ↦ elim (Bool-cases (key row =s k)) [
      | inl is ↦
          let same : row ≡ r = some_eq (rw (missing, is) at h) in
          ap key (sym same) ∙ (eq_iff (key row) k).0 is
      | inr is_not ↦ let no_row = rw (missing, is_not) at h in cc
    ]
  ]

  pub one_of-head : (k : String) (ks : List String) → one_of k (k ∷ ks) ≡ true
  one_of-head k ks = rw (one_of, same_text k) refl

  pub one_of-tail :
      (x k : String) (ks : List String) → one_of x ks ≡ true → one_of x (k ∷ ks) ≡ true
  one_of-tail x k ks h = elim (Bool-cases (x =s k)) [
    | inl is ↦ rw (one_of, is) refl
    | inr is_not ↦ rw (one_of, is_not) h
  ]

  module _ (rows : List Row) where
    -- one step of the first loop keeps what is placed
    known_from-one_of :
        (rest : List String → List Row × List String) (k : String) (found : Option Row)
        (placed : List String) (x : String)
        → ((more : List String) → one_of x more ≡ true → one_of x (rest more).1 ≡ true)
        → one_of x placed ≡ true
        → one_of x (known_from key equal rest k found placed).1 ≡ true
    known_from-one_of rest k none placed x later h = later placed h
    known_from-one_of rest k (some row) placed x later h =
        if-cases (λ (r : List Row × List String). one_of x r.1 ≡ true) (one_of k placed)
          (λ is. later placed h) (λ is_not. later (k ∷ placed) (one_of-tail x k placed h))

    -- what is placed stays placed
    pub known-one_of :
        (ks placed : List String) (x : String)
        → one_of x placed ≡ true
        → one_of x (known key equal rows ks placed).1 ≡ true
    unfolding known
    known-one_of [] placed x h = h
    known-one_of (k ∷ ks) placed x h =
        known_from-one_of (known key equal rows ks) k (by_key key equal k rows) placed x
          (λ more. known-one_of ks more x) h

    -- one step of the first loop, where the rest establishes what it places
    known_from-All :
        (ks : List String) (k : String) (found : Option Row) (placed : List String)
        → ((more : List String)
            → let r = known key equal rows ks more in All (λ row. one_of (key row) r.1 ≡ true) r.0)
        → by_key key equal k rows ≡ found
        → let r = known_from key equal (known key equal rows ks) k found placed in
          All (λ row. one_of (key row) r.1 ≡ true) r.0
    known_from-All ks k none placed later e = later placed
    known_from-All ks k (some row) placed later e =
        if-cases (λ (r : List Row × List String). All (λ row. one_of (key row) r.1 ≡ true) r.0)
          (one_of k placed) (λ is. later placed)
          (λ is_not. (
            known-one_of ks (k ∷ placed) (key row) (
                subst (λ x. one_of x (k ∷ placed) ≡ true) (sym (by_key-key k rows row e))
                  (one_of-head k placed)),
            later (k ∷ placed),
          ))

    -- every row that is established is placed
    known-All :
        (ks placed : List String)
        → let r = known key equal rows ks placed in All (λ row. one_of (key row) r.1 ≡ true) r.0
    unfolding known
    known-All [] placed = tt
    known-All (k ∷ ks) placed =
        known_from-All ks k (by_key key equal k rows) placed (known-All ks) refl

  established-All :
      (placed : List String) (ordered : List Row)
      → All (λ r. one_of (key r) placed ≡ true) ordered
      → established placed ordered ≡ ordered
  established-All placed [] h = refl
  established-All placed (r ∷ rs) h =
      keep_yes (placed_row placed) r rs h.0 ∙ ap (λ rest. r ∷ rest) (established-All placed rs h.1)

  -- Of the rows that `place` shows, those with a persisted key are the first loop's: the rows that are
  -- still there, in the persisted order, each once. New rows stand between them and move none.
  pub place-established :
      (persisted_order : List String) (rows out : List Row)
      → place key equal persisted_order rows ≡ some out
      → let (ordered, placed) = known key equal rows persisted_order [] in
        established placed out ≡ ordered
  unfolding place new_keys_of
  place-established persisted_order rows out h =
      after (new_keys_of key equal (known key equal rows persisted_order []).1 rows)
        (λ k. one_of-new_keys (known key equal rows persisted_order []).1 (map key rows) k) h
    where
      after :
          (new_keys : List String)
          → let (ordered, placed) = known key equal rows persisted_order [] in
            ((k : String) → one_of k new_keys ≡ true → one_of k placed ≡ false)
            → elim new_keys [
              | [] ↦ some ordered
              | k ∷ ks ↦ arrivals key equal (k ∷ ks) placed rows ordered 0
            ]
              ≡ some out
            → established placed out ≡ ordered
      after [] apart h =
          subst
            (λ o.
              established (known key equal rows persisted_order []).1 o
              ≡ (known key equal rows persisted_order []).0)
            (some_eq h) (established-All _ _ (known-All rows persisted_order []))
      after (k ∷ ks) apart h =
          arrivals-established (k ∷ ks) _ rows _ out 0 apart h
          ∙ established-All _ _ (known-All rows persisted_order [])
