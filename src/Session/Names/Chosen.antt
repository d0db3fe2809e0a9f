-- ===== src/Session/Names/Chosen.antt =====
-- `choose_attach_session`: the session that a launch attaches to.
use uxon.Prelude.{
  ℕ, ◌≤◌, ◌≡◌, refl, ◌⊎◌, inl, inr, String, Bool, true, false, Option, none, some, List, [], ◌∷◌,
  ◌=s◌, keep, All, subst, some_eq, if-Holds, Bool-cases, if◌then◌else◌, ltb, arith, tests,
}
use uxon.Session.Info.{SessionInfo}
use uxon.Session.Names.{
  Python, candidate_session_name, first_named, first_given, least_from, rank_of,
  choose_attach_session,
}

module _ (P : SessionInfo → Type 0) where
  keep-All :
      (good : SessionInfo → Bool) (sessions : List SessionInfo)
      → All P sessions
      → All P (keep good sessions)
  keep-All good [] h = tt
  keep-All good (s ∷ sessions) h =
      let rest = keep-All good sessions h.1 in
      elim (Bool-cases (good s)) [
        | inl is ↦ rw (All, keep, is) (h.0, rest)
        | inr is_not ↦ rw (All, keep, is_not) rest
      ]

  first_named-All :
      (name : String) (sessions : List SessionInfo) (s : SessionInfo)
      → All P sessions
      → first_named name sessions ≡ some s
      → P s × ((s.name =s name) ≡ true)
  unfolding first_named
  first_named-All name [] s h e = cc
  first_named-All name (t ∷ sessions) s h e = elim (Bool-cases (t.name =s name)) [
    | inl is ↦
        let same : t ≡ s = some_eq (rw is at e) in
        (subst P same h.0, subst (λ t. (t.name =s name) ≡ true) same is)
    | inr is_not ↦ first_named-All name sessions s h.1 (rw is_not at e)
  ]

  least_from-All :
      (rank : SessionInfo → ℕ) (best : SessionInfo) (sessions : List SessionInfo)
      → P best
      → All P sessions
      → P (least_from rank best sessions)
  least_from-All rank best [] h k = h
  least_from-All rank best (s ∷ sessions) h k =
      least_from-All rank (if ltb (rank s) (rank best) then s else best) sessions
        (if-Holds P (ltb (rank s) (rank best)) k.0 h) k.1

not_ltb : (a b : ℕ) → ltb a b ≡ false → b ≤ a
not_ltb a b h = ground arith

module _ (rank : SessionInfo → ℕ) where
  -- of two sessions the one that the loop goes on with is no worse than either
  better :
      (best s : SessionInfo)
      → let next = if ltb (rank s) (rank best) then s else best in
        (rank next ≤ rank best) × (rank next ≤ rank s)
  better best s = elim (Bool-cases (ltb (rank s) (rank best))) [
    | inl is ↦ rw is (omega (tests, is), omega arith)
    | inr is_not ↦ rw is_not (omega arith, not_ltb (rank s) (rank best) is_not)
  ]

  least_from-le :
      (best : SessionInfo) (sessions : List SessionInfo)
      → (rank (least_from rank best sessions) ≤ rank best)
        × All (λ s. rank (least_from rank best sessions) ≤ rank s) sessions
  least_from-le best [] = (omega arith, tt)
  least_from-le best (s ∷ sessions) =
      let next = if ltb (rank s) (rank best) then s else best in
      let later = least_from-le next sessions in
      let two = better best s in
      (omega (arith, later.0, two.0), (omega (arith, later.0, two.1), later.1))

module _ (py : Python) (stem profile prefix : String) (legacy_prefixes : List String) where
  abbrev pub base_name : String
  base_name = candidate_session_name py stem 1 profile prefix

  abbrev rank : SessionInfo → ℕ
  rank = rank_of py stem profile prefix legacy_prefixes

  -- the session has the base name, or no session has it and its index is the least
  abbrev pub IsBest : List SessionInfo → SessionInfo → Type 0
  IsBest sessions s =
      ((s.name =s base_name) ≡ true)
      ⊎ ((first_named base_name sessions ≡ none) × All (λ t. rank s ≤ rank t) sessions)

  given-IsBest :
      (P : SessionInfo → Type 0) (attached existing : List SessionInfo) (other : SessionInfo)
      (first second : Option SessionInfo)
      → first_named base_name attached ≡ first
      → first_named base_name existing ≡ second
      → All P attached
      → All P existing
      → P other
      → All (λ t. rank other ≤ rank t) existing
      → P (first_given first second other) × IsBest existing (first_given first second other)
  given-IsBest P attached existing other (some s) second e e' h h' p least =
      let (holds, named) = first_named-All P base_name attached s h e in (holds, inl named)
  given-IsBest P attached existing other none (some s) e e' h h' p least =
      let (holds, named) = first_named-All P base_name existing s h' e' in (holds, inl named)
  given-IsBest P attached existing other none none e e' h h' p least = (p, inr (e', least))

  -- Of the sessions to attach to, where there is one, `choose_attach_session` gives one: what holds of
  -- all sessions holds of it, and it has the base name, or no session has it and its index is the least.
  pub choose_attach_session-IsBest :
      (P : SessionInfo → Type 0) (e : SessionInfo) (existing : List SessionInfo)
      → All P (e ∷ existing)
      → (s : SessionInfo) × (choose_attach_session py
            (e ∷ existing)
            stem
            profile
            prefix
            legacy_prefixes
          ≡ some s)
        × P s
        × IsBest (e ∷ existing) s
  unfolding choose_attach_session
  choose_attach_session-IsBest P e existing h =
      let attached = keep (λ s. s.attached =s "1") (e ∷ existing) in
      let best =
        given-IsBest P attached (e ∷ existing) (least_from rank e existing) _ _ refl refl
          (keep-All P (λ s. s.attached =s "1") (e ∷ existing) h) h
          (least_from-All P rank e existing h.0 h.1) (least_from-le rank e existing) in
      (_, refl, best.0, best.1)
