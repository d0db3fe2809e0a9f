-- ===== src/Launch/Collect/Batch.antt =====
-- The loop of a collection: which files it removes.
use uxon.Prelude.{
  ℕ, ◌≡◌, ◌⊎◌, inl, inr, refl, sym, ap, ◌∙◌, String, Bool, true, false, not, Option, none, List, [],
  ◌∷◌, ◌=s◌, Bool-cases, Option-cases, subst, one_of, ◌≢◌,
}
use text.Mathlib.TextEquality.{eq_iff}
use uxon.Session.Json.{JsonLib}
use uxon.Launch.Directory.{Process}
use uxon.Launch.Store.{Files, find, unlink, read_json, read_found}
use uxon.Launch.Record.{Host}
use uxon.Launch.Collect.{
  Live, Verdict, stays, goes, escapes, file_verdict, verdict_of, unless_kept, collect,
}

pub differs : (a b : String) → a ≢ b → (a =s b) ≡ false
differs a b h = elim (Bool-cases (a =s b)) [
  | inl is ↦ elim (h ((eq_iff a b).0 is)) [ ]
  | inr is_not ↦ is_not
]

pub same_text : (a : String) → (a =s a) ≡ true
same_text a = (eq_iff a a).1 refl

pub find-unlink_same : (name : String) (files : Files) → find name (unlink name files) ≡ none
unfolding find unlink
find-unlink_same name [] = refl
find-unlink_same name ((n, f) ∷ files) =
    let rest = find-unlink_same name files in
    elim (Bool-cases (name =s n)) [ inl is ↦ rw is rest | inr is_not ↦ rw is_not (rw is_not rest) ]

pub find-unlink_other :
    (a b : String) (files : Files) → (a =s b) ≡ false → find a (unlink b files) ≡ find a files
unfolding find unlink
find-unlink_other a b [] h = refl
find-unlink_other a b ((n, f) ∷ files) h =
    let rest = find-unlink_other a b files h in
    elim (Bool-cases (b =s n)) [
      | inl is ↦ rw (is, subst (λ t. (a =s t) ≡ false) ((eq_iff b n).0 is) h) rest
      | inr is_not ↦ rw (is_not, rest) refl
    ]

Verdict-cases : (v : Verdict) → (v ≡ stays) ⊎ ((v ≡ goes) ⊎ (v ≡ escapes))
Verdict-cases stays = inl refl
Verdict-cases goes = inr (inl refl)
Verdict-cases escapes = inr (inr refl)

module _ (json : JsonLib) (host : Host) (p : Process) (shared : Bool) (gid : Option ℕ) (current : ℕ)
    (live : List Live) (launch_user : String) where
  -- What is done with a file depends on this file alone.
  file_verdict-find :
      (name : String) (files files' : Files)
      → find name files' ≡ find name files
      → file_verdict json host p shared gid current live launch_user name files'
        ≡ file_verdict json host p shared gid current live launch_user name files
  unfolding file_verdict read_json
  file_verdict-find name files files' same =
      ap
        (λ o. unless_kept json host p shared (p.unlink_error name) (
          verdict_of json host p shared current live launch_user
            (read_found json p (not shared) gid o)))
        same

  -- After the loop a file is as it was, or it is gone and was to be removed.
  pub collect-find :
      (name : String) (names : List String) (files : Files)
      → let files' = (collect json host p shared gid current live launch_user names files).0 in
        (find name files' ≡ find name files)
        ⊎ ((find name files' ≡ none)
            × (file_verdict json host p shared gid current live launch_user name files ≡ goes))
  unfolding collect
  collect-find name [] files = inl refl
  collect-find name (m ∷ names) files =
      let unlinked = collect-find name names (unlink m files) in
      let kept = collect-find name names files in
      elim (Verdict-cases (file_verdict json host p shared gid current live launch_user m files)) [
        | inl is ↦ rw (collect, is) kept
        | inr (inr is) ↦ rw (collect, is) (inl refl)
        | inr (inl is) ↦
            rw (collect, is)
              (elim (Bool-cases (name =s m)) [
                | inl same ↦
                    let m_is = sym ((eq_iff name m).0 same) in
                    let gone : find name (unlink m files) ≡ none =
                      rw m_is (find-unlink_same name files) in
                    let due =
                      subst
                        (λ n.
                          file_verdict json host p shared gid current live launch_user n files
                          ≡ goes)
                        m_is is in
                    elim unlinked [ inl there ↦ inr (there ∙ gone, due) | inr u ↦ inr (u.0, due) ]
                | inr other ↦
                    let found = find-unlink_other name m files other in
                    elim unlinked [
                      | inl there ↦ inl (there ∙ found)
                      | inr (gone, due) ↦
                          inr
                            (gone, sym (file_verdict-find name files (unlink m files) found) ∙ due)
                    ]
              ])
      ]

  -- the loop ends with an OverflowError at a file that is there from the start
  abbrev pub Escape : Files → Type 0
  Escape files =
      (other : String) × (file_verdict json host p shared gid current live launch_user other files
        ≡ escapes)

  Escape-unlink : (m : String) (files : Files) → Escape (unlink m files) → Escape files
  unfolding file_verdict read_json read_found
  Escape-unlink m files (other, escape) = elim (Bool-cases (other =s m)) [
    | inr differ ↦
        let found = find-unlink_other other m files differ in
        (other, sym (file_verdict-find other files (unlink m files) found) ∙ escape)
    | inl same ↦
        let gone : find other (unlink m files) ≡ none =
          rw (sym ((eq_iff other m).0 same)) (find-unlink_same other files) in
        elim (Option-cases (p.unlink_error other)) [
          | inl free ↦ let no = rw (gone, free) at escape in cc
          | inr (e, kept) ↦ let no = rw (gone, kept) at escape in cc
        ]
  ]

  -- The loop removes what it is to remove, unless it ends before.
  pub collect-due :
      (name : String) (names : List String) (files : Files)
      → one_of name names ≡ true
      → file_verdict json host p shared gid current live launch_user name files ≡ goes
      → Escape files
        ⊎ (find name (collect json host p shared gid current live launch_user names files).0 ≡ none)
  unfolding collect
  collect-due name [] files listed due = cc
  collect-due name (m ∷ names) files listed due =
      let later = collect-due name names (unlink m files) in
      let now = collect-due name names files in
      elim (Verdict-cases (file_verdict json host p shared gid current live launch_user m files)) [
        | inr (inr escape) ↦ inl (m, escape)
        | inr (inl is) ↦
            rw (collect, is)
              (elim (Bool-cases (name =s m)) [
                | inl same ↦
                    let gone : find name (unlink m files) ≡ none =
                      rw (sym ((eq_iff name m).0 same)) (find-unlink_same name files) in
                    inr (elim (collect-find name names (unlink m files)) [
                      | inl there ↦ there ∙ gone
                      | inr u ↦ u.0
                    ])
                | inr other ↦
                    let found = find-unlink_other name m files other in
                    elim (later (rw (one_of, other) at listed)
                      (file_verdict-find name files (unlink m files) found ∙ due)) [
                        | inl escape ↦ inl (Escape-unlink m files escape)
                        | inr gone ↦ inr gone
                      ]
              ])
        | inl is ↦ elim (Bool-cases (name =s m)) [
          | inl same ↦
              let m_due =
                subst
                  (λ n. file_verdict json host p shared gid current live launch_user n files ≡ goes)
                  ((eq_iff name m).0 same) due in
              let no : stays ≡ goes = sym is ∙ m_due in cc
          | inr other ↦ rw (collect, is) (now (rw (one_of, other) at listed) due)
        ]
      ]
