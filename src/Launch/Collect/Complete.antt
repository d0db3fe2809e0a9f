-- ===== src/Launch/Collect/Complete.antt =====
-- What a collection does remove.
use uxon.Prelude.{
  ℕ, zero, suc, ◌≤◌, ◌≡◌, refl, sym, subst, ◌⊎◌, if-Holds, ap, ◌∙◌, inl, inr, String, Bool, true,
  false, not, Option, none, some, List, [], ◌∷◌, ◌++◌, ◌=s◌, ◌&&◌, length, take, drop, one_of,
  codes, Bool-cases, arith, truthy, if◌then◌else◌, length-append,
}
use text.Mathlib.TextEquality.{eq_iff}
use uxon.Session.Json.{JsonLib}
use uxon.Launch.Directory.{Process, Meta, returns}
use uxon.Launch.Store.{
  File, Files, find, with_files, Store, read_json, read_found, is_trusted, shared_gid,
  ensure_store_ready,
}
use uxon.Launch.Record.{Host}
use uxon.Launch.Collect.{
  Live, text_leb, insert_name, json_names, bisect_right, batch_after, verdict, goes, file_verdict,
  gc_cursor_name, read_gc_cursor, garbage_collect_records, collect, collect_batch, cursor_payload,
  last_name, max_gc_records,
}
use uxon.Launch.Collect.Batch.{Escape, collect-due}
use uxon.Launch.Collect.Safe.{Expired, finish_batch-files}

abbrev Listed : String → List String → Type 0
Listed x [] = ⊥
Listed x (y ∷ ys) = (x ≡ y) ⊎ Listed x ys

Listed-one_of : (x : String) (ys : List String) → Listed x ys → one_of x ys ≡ true
Listed-one_of x [] l = elim l [ ]
Listed-one_of x (y ∷ ys) l =
    let rest = Listed-one_of x ys in
    elim (Bool-cases (x =s y)) [
      | inl is ↦ rw (one_of, is) refl
      | inr is_not ↦ elim l [
        | inl same ↦ let bad : false ≡ true = sym is_not ∙ (eq_iff x y).1 same in cc
        | inr there ↦ rw (one_of, is_not) (rest there)
      ]
    ]

Listed-insert_name :
    (x y : String) (ys : List String) → Listed x (y ∷ ys) → Listed x (insert_name y ys)
unfolding insert_name
Listed-insert_name x y [] l = l
Listed-insert_name x y (z ∷ zs) l =
    let rest = Listed-insert_name x y zs in
    if-Holds (Listed x) (text_leb (codes y) (codes z)) l (elim l [
      | inl new ↦ inr (rest (inl new))
      | inr (inl head) ↦ inl head
      | inr (inr there) ↦ inr (rest (inr there))
    ])

Listed-json_names :
    (host : Host) (name : String) (files : Files) (f : File)
    → host.has_json_suffix name ≡ true
    → find name files ≡ some f
    → Listed name (json_names host files)
unfolding json_names find
Listed-json_names host name [] f suffix there = cc
Listed-json_names host name ((n, g) ∷ files) f suffix there =
    let rest = Listed-json_names host name files f suffix in
    let names = json_names host files in
    elim (Bool-cases (name =s n)) [
      | inl same ↦
          let n_is = (eq_iff name n).0 same in
          let n_suffix = subst (λ m. host.has_json_suffix m ≡ true) n_is suffix in
          rw n_suffix (Listed-insert_name name n names (inl n_is))
      | inr other ↦
          let listed = rest (rw other at there) in
          if-Holds (Listed name) (host.has_json_suffix n)
            (Listed-insert_name name n names (inr listed)) listed
    ]

Listed-append : (x : String) (ys zs : List String) → Listed x ys ⊎ Listed x zs → Listed x (ys ++ zs)
Listed-append x [] zs (inl l) = elim l [ ]
Listed-append x [] zs (inr l) = l
Listed-append x (y ∷ ys) zs (inl (inl here)) = inl here
Listed-append x (y ∷ ys) zs (inl (inr there)) = inr (Listed-append x ys zs (inl there))
Listed-append x (y ∷ ys) zs (inr l) = inr (Listed-append x ys zs (inr l))

Listed-split :
    (x : String) (n : ℕ) (ys : List String)
    → Listed x ys
    → Listed x (drop n ys) ⊎ Listed x (take n ys)
Listed-split x zero ys l = inl l
Listed-split x (suc n) [] l = inl l
Listed-split x (suc n) (y ∷ ys) (inl here) = inr (inl here)
Listed-split x (suc n) (y ∷ ys) (inr there) = elim (Listed-split x n ys there) [
  | inl l ↦ inl l
  | inr l ↦ inr (inr l)
]

none_short : {n : ℕ} → suc n ≤ 0 → ⊥
none_short l = omega arith

take-all : {A : Type 0} (n : ℕ) (xs : List A) → length xs ≤ n → take n xs ≡ xs
take-all zero [] l = refl
take-all zero (x ∷ xs) l = elim (none_short l) [ ]
take-all (suc n) [] l = refl
take-all (suc n) (x ∷ xs) l = ap (λ ys. x ∷ ys) (take-all n xs (omega arith))

length-take : {A : Type 0} (n : ℕ) (xs : List A) → length (take n xs) ≤ n
length-take zero xs = omega arith
length-take (suc n) [] = omega arith
length-take (suc n) (x ∷ xs) = omega (arith, length-take n xs)

length-rotated : {A : Type 0} (n : ℕ) (xs : List A) → length (drop n xs ++ take n xs) ≡ length xs
length-rotated zero xs = length-append xs [] ∙ omega arith
length-rotated (suc n) [] = refl
length-rotated (suc n) (x ∷ xs) = omega (
  arith,
  length-append (drop n xs) (x ∷ take n xs),
  length-append (drop n xs) (take n xs),
  length-rotated n xs,
)

-- A batch has every name, where there are at most 1024.
Listed-batch_after :
    (x last : String) (names : List String)
    → length names ≤ max_gc_records
    → Listed x names
    → Listed x (batch_after names last)
unfolding batch_after
Listed-batch_after x last names few l =
    let start = if truthy last then bisect_right names last else 0 in
    let all =
      take-all max_gc_records (drop start names ++ take start names)
        (omega (arith, length-rotated start names)) in
    subst (Listed x) (sym all)
      (Listed-append x (drop start names) (take start names) (Listed-split x start names l))

module _ (json : JsonLib) (host : Host) (p : Process) (shared : Bool) (key : String → String)
    (current : ℕ) (live : List Live) (launch_user : String) where
  Expired-file_verdict :
      (gid : Option ℕ) (name : String) (files : Files) (f : File)
      → find name files ≡ some f
      → (not f.is_link && is_trusted p (not shared) gid f) ≡ true
      → Expired json host current live launch_user f
      → p.unlink_error name ≡ none
      → file_verdict json host p shared gid current live launch_user name files ≡ goes
  unfolding file_verdict read_json read_found verdict
  Expired-file_verdict gid name files f there good (payload, loaded, user, idle, old) free =
      rw (free, there, good, loaded, user, idle, old) refl

  collect_batch-gone :
      (dir : Meta) (name : String) (names : List String) (s : Store)
      → (name =s gc_cursor_name key launch_user) ≡ false
      → Listed name names
      → file_verdict json host p shared
          (shared_gid shared dir)
          current
          live
          launch_user
          name
          s.files
        ≡ goes
      → Escape json host p shared (shared_gid shared dir) current live launch_user s.files
        ⊎ (find name
              (collect_batch json host p shared key current live launch_user dir names s).1.files
            ≡ none)
  collect_batch-gone dir name [] s other l due = elim l [ ]
  collect_batch-gone dir name (n ∷ names) s other l due =
      let (files, removed) =
        collect json host p shared (shared_gid shared dir) current live launch_user (n ∷ names)
          s.files in
      elim (collect-due json host p shared (shared_gid shared dir) current live launch_user name
        (n ∷ names) s.files (Listed-one_of name (n ∷ names) l) due) [
          | inl escape ↦ inl escape
          | inr gone ↦ inr (
              finish_batch-files json host p shared key current live launch_user name other
                (cursor_payload json host p shared (last_name n names)) dir removed
                (with_files s files)
              ∙ gone)
        ]

  -- A collection for a user, in a store that is ready, can be listed, and has a cursor that can be read
  -- and at most 1024 records, removes every .json file, other than the cursor, that can be unlinked,
  -- passes the checks of `_read_json` and holds a record of this user, of a session that does not run,
  -- not younger than its retention, wherever the last collection stopped; or there is a file whose
  -- timestamp makes `float` raise the OverflowError that the loop does not catch.
  pub garbage_collect_records-gone :
      (s ready : Store) (dir : Meta) (last name : String) (f : File)
      → truthy launch_user ≡ true
      → ensure_store_ready p shared launch_user true s ≡ (returns dir, ready)
      → p.can_list ≡ true
      → read_gc_cursor json host p shared
          (shared_gid shared dir)
          (gc_cursor_name key launch_user)
          ready.files
        ≡ some last
      → length (json_names host ready.files) ≤ max_gc_records
      → host.has_json_suffix name ≡ true
      → (name =s gc_cursor_name key launch_user) ≡ false
      → find name ready.files ≡ some f
      → (not f.is_link && is_trusted p (not shared) (shared_gid shared dir) f) ≡ true
      → Expired json host current live launch_user f
      → p.unlink_error name ≡ none
      → Escape json host p shared (shared_gid shared dir) current live launch_user ready.files
        ⊎ (find name
              (garbage_collect_records json host p shared key current live launch_user s).1.files
            ≡ none)
  unfolding garbage_collect_records
  garbage_collect_records-gone s ready dir last name f user is_ready list cursor few suffix other
        there good old free =
      let listed =
        Listed-batch_after name last (json_names host ready.files) few
          (Listed-json_names host name ready.files f suffix there) in
      let due =
        Expired-file_verdict (shared_gid shared dir) name ready.files f there good old free in
      rw (is_ready, user, list, cursor)
        (collect_batch-gone dir name (batch_after (json_names host ready.files) last) ready other
          listed due)
