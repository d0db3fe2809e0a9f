-- ===== src/Session/Names/Compatible.antt =====
-- Which sessions a launch can go on with: `compatible_indexed_sessions`, and the choice among them.
use uxon.Prelude.{
  ℕ, ◌≡◌, refl, sym, ap, ◌∙◌, ◌⊎◌, inl, inr, String, Bool, true, false, not, Option, none, some,
  List, [], ◌∷◌, ◌++◌, ◌&&◌, ◌||◌, keep, all, Bool-cases, if-cases, if◌then◌else◌, Result, ok, fail,
  ◌>>=◌,
}
use uxon.Session.Info.{SessionInfo}
use uxon.Session.Names.{
  Python, parse_plain_session_index, session_path_compatible, conflict, with_index,
  compatible_indexed_sessions,
}

module _ (py : Python) (stem profile root prefix : String) (legacy_prefixes : List String) where
  abbrev has_index : Option ℕ → Bool
  has_index none = false
  has_index (some i) = true

  module _ (require_verified : Bool) where
    -- a session of the stem and the profile, whose record was verified where this is required
    unfoldable pub is_wanted : SessionInfo → Bool
    is_wanted s =
        not (require_verified && not s.launch_record_verified)
        && has_index (parse_plain_session_index py s.name stem profile prefix legacy_prefixes)

    unfoldable pub in_place : SessionInfo → Bool
    in_place s = session_path_compatible py s.active_path root

    -- whether all that are wanted are in place, and those of them that still run
    abbrev pub all_in_place : List SessionInfo → Bool
    all_in_place sessions = all (λ s. not (is_wanted s) || in_place s) sessions

    abbrev pub running : List SessionInfo → List SessionInfo
    running sessions = keep (λ s. is_wanted s && not s.exited) sessions

    -- the result that the sessions should have
    abbrev pub IsOutcome : List SessionInfo → Result (List SessionInfo) → Type 0
    IsOutcome sessions r =
        ((all_in_place sessions ≡ true) × (r ≡ ok (running sessions)))
        ⊎ ((all_in_place sessions ≡ false)
            × (before : List SessionInfo) × (s : SessionInfo) × (behind : List SessionInfo)
            × (sessions ≡ before ++ s ∷ behind)
            × (all_in_place before ≡ true)
            × (is_wanted s ≡ true)
            × (in_place s ≡ false)
            × (r ≡ fail (conflict s.name s.active_path root)))

    running_if :
        (s : SessionInfo) (sessions : List SessionInfo) (b : Bool)
        → is_wanted s ≡ b
        → elim (b && not s.exited) [ true ↦ s ∷ running sessions | false ↦ running sessions ]
          ≡ running (s ∷ sessions)
    running_if s sessions b h =
        ap
          (λ b. elim (b && not s.exited) [ true ↦ s ∷ running sessions | false ↦ running sessions ])
          (sym h)

    not_wanted-IsOutcome :
        (s : SessionInfo) (sessions : List SessionInfo) (r : Result (List SessionInfo))
        → is_wanted s ≡ false
        → IsOutcome sessions r
        → IsOutcome (s ∷ sessions) r
    not_wanted-IsOutcome s sessions r h (inl (fit, e)) =
        inl (rw h fit, e ∙ ap ok (running_if s sessions false h))
    not_wanted-IsOutcome s sessions r h
          (inr (unfit, before, t, behind, listed, fit, wanted, away, e)) =
        inr (rw h unfit, s ∷ before, t, behind, ap (λ l. s ∷ l) listed, rw h fit, wanted, away, e)

    in_place-with_index :
        (s : SessionInfo) (r : Result (List SessionInfo)) (i : ℕ)
        → in_place s ≡ true
        → with_index py root s (some i) r
          ≡ (r >>= λ others. ok (if s.exited then others else s ∷ others))
    unfolding in_place
    in_place-with_index s r i h = rw h refl

    away-with_index :
        (s : SessionInfo) (r : Result (List SessionInfo)) (i : ℕ)
        → in_place s ≡ false
        → with_index py root s (some i) r ≡ fail (conflict s.name s.active_path root)
    unfolding in_place
    away-with_index s r i h = rw h refl

    added :
        (b : Bool) (s : SessionInfo) (others : List SessionInfo)
        → ok (if b then others else s ∷ others)
          ≡ ok (elim (not b) [ true ↦ s ∷ others | false ↦ others ])
    added true s others = refl
    added false s others = refl

    wanted-IsOutcome :
        (s : SessionInfo) (sessions : List SessionInfo) (r : Result (List SessionInfo)) (i : ℕ)
        → is_wanted s ≡ true
        → IsOutcome sessions r
        → IsOutcome (s ∷ sessions) (with_index py root s (some i) r)
    wanted-IsOutcome s sessions r i h outcome = elim (Bool-cases (in_place s)) [
      | inr away ↦
          inr (rw (h, away) refl, [], s, sessions, refl, refl, h, away, away-with_index s r i away)
      | inl fits ↦
          let same = in_place-with_index s r i fits in
          elim outcome [
            | inl (fit, e) ↦ inl (
              rw (h, fits) fit,
              same
                  ∙ ap (λ r. r >>= λ others. ok (if s.exited then others else s ∷ others)) e
                  ∙ added s.exited s (running sessions)
                  ∙ ap ok (running_if s sessions true h),
            )
            | inr (unfit, before, t, behind, listed, fit, wanted, away, e) ↦ inr (
              rw (h, fits) unfit,
              s ∷ before,
              t,
              behind,
              ap (λ l. s ∷ l) listed,
              rw (h, fits) fit,
              wanted,
              away,
              same ∙ ap (λ r. r >>= λ others. ok (if s.exited then others else s ∷ others)) e,
            )
          ]
    ]

    indexed-IsOutcome :
        (s : SessionInfo) (sessions : List SessionInfo) (r : Result (List SessionInfo))
        (found : Option ℕ)
        → is_wanted s ≡ has_index found
        → IsOutcome sessions r
        → IsOutcome (s ∷ sessions) (with_index py root s found r)
    indexed-IsOutcome s sessions r none h outcome = not_wanted-IsOutcome s sessions r h outcome
    indexed-IsOutcome s sessions r (some i) h outcome = wanted-IsOutcome s sessions r i h outcome

    wanted_by :
        (s : SessionInfo)
        → (require_verified && not s.launch_record_verified) ≡ false
        → is_wanted s
          ≡ has_index (parse_plain_session_index py s.name stem profile prefix legacy_prefixes)
    unfolding is_wanted
    wanted_by s h = rw h refl

    hidden_by :
        (s : SessionInfo)
        → (require_verified && not s.launch_record_verified) ≡ true
        → is_wanted s ≡ false
    unfolding is_wanted
    hidden_by s h = rw h refl

    -- `compatible_indexed_sessions` gives the sessions that are wanted (of the stem and the profile,
    -- with a verified record where one is required) and have not exited, in their order, if each that
    -- is wanted is in place; otherwise it refuses, and names the first of them that is wanted and not
    -- in place.
    pub compatible_indexed_sessions-IsOutcome :
        (sessions : List SessionInfo)
        → IsOutcome sessions (
            compatible_indexed_sessions py stem profile root prefix legacy_prefixes require_verified
              sessions)
    unfolding compatible_indexed_sessions
    compatible_indexed_sessions-IsOutcome [] = inl (refl, refl)
    compatible_indexed_sessions-IsOutcome (s ∷ sessions) =
        let rest = compatible_indexed_sessions-IsOutcome sessions in
        let found = parse_plain_session_index py s.name stem profile prefix legacy_prefixes in
        if-cases (IsOutcome (s ∷ sessions)) (require_verified && not s.launch_record_verified)
          (λ hidden. not_wanted-IsOutcome s sessions _ (hidden_by s hidden) rest)
          (λ shown. indexed-IsOutcome s sessions _ found (wanted_by s shown) rest)
