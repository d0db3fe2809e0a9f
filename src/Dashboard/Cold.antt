-- ===== src/Dashboard/Cold.antt =====
-- A dashboard without a persisted order.
use uxon.Prelude.{
  ℕ, ◌+◌, zero, suc, ◌≡◌, refl, sym, ap, ◌∙◌, String, Bool, true, some, List, [], ◌∷◌, ◌++◌, one_of,
  All, All-map, length, length-append, append_one, append_none, arith,
}
use uxon.Dashboard.{insert, arrivals, new_keys_of, known, place}
use uxon.Dashboard.Stable.{one_of-head, one_of-tail}

module _ {Row : Type 0} (key : Row → String) (equal : Row → Row → Bool) where
  insert-append :
      (n : ℕ) (row : Row) (ordered : List Row)
      → length ordered ≡ n
      → insert key equal n row ordered ≡ ordered ++ row ∷ []
  unfolding insert
  insert-append n row [] h = refl
  insert-append zero row (r ∷ rs) h = cc
  insert-append (suc n) row (r ∷ rs) h = ap (λ l. r ∷ l) (insert-append n row rs (omega (arith, h)))

  -- a run of new rows is appended where the list ends
  arrivals-append :
      (new_keys placed : List String) (rows ordered : List Row) (n : ℕ)
      → length ordered ≡ n
      → All (λ r. one_of (key r) new_keys ≡ true) rows
      → arrivals key equal new_keys placed rows ordered n ≡ some (ordered ++ rows)
  unfolding arrivals
  arrivals-append new_keys placed [] ordered n h new = ap some (sym (append_none ordered))
  arrivals-append new_keys placed (row ∷ rows) ordered n h new =
      let longer = ordered ++ row ∷ [] in
      let size : length longer ≡ n + 1 = omega (arith, h, length-append ordered (row ∷ [])) in
      rw (new.0, insert-append n row ordered h)
        (arrivals-append new_keys placed rows longer (n + 1) size new.1
          ∙ ap some (append_one ordered row rows))

  fresh_rows :
      (rows : List Row) → All (λ r. one_of (key r) (new_keys_of key equal [] rows) ≡ true) rows
  unfolding new_keys_of
  fresh_rows [] = tt
  fresh_rows (row ∷ rows) = (
    one_of-head key equal (key row) (new_keys_of key equal [] rows),
    All-map (λ r. one_of (key r) (new_keys_of key equal [] rows) ≡ true) _
        (λ r there. one_of-tail key equal (key r) (key row) (new_keys_of key equal [] rows) there)
        rows (fresh_rows rows),
  )

  -- From an empty persisted order `place` gives the current rows as they are.
  pub place-empty : (rows : List Row) → place key equal [] rows ≡ some rows
  unfolding place known new_keys_of
  place-empty [] = refl
  place-empty (row ∷ rows) =
      arrivals-append (new_keys_of key equal [] (row ∷ rows)) [] (row ∷ rows) [] 0 refl
        (fresh_rows (row ∷ rows))
