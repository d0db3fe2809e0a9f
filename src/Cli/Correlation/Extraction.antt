-- ===== src/Cli/Correlation/Extraction.antt =====
-- What `extract_correlation_id` takes out of an argv and what it leaves.
use uxon.Prelude.{
  String, ◌≡◌, refl, ap, true, Option, none, some, List, [], ◌∷◌, ◌++◌, All, Bool-cases, inl, inr,
}
use uxon.Cli.Correlation.{
  Token, flag, inline, other, classify, accept, matches_uuid, extract_from, extract_correlation_id,
  correlation_flag,
}

-- No token of the list names the correlation id.
abbrev pub HasNoFlag : List String → Type 0
HasNoFlag = All (λ a. classify a ≡ other)

-- An id, where there is one, has the form of a UUID.
abbrev pub MatchesUuid? : Option String → Type 0
MatchesUuid? none = Unit
MatchesUuid? (some s) = matches_uuid s ≡ true

data TokenView (a : String) : Type 0 where
  is_flag : classify a ≡ flag → TokenView a
  is_inline : (c : String) → classify a ≡ inline c → TokenView a
  is_other : classify a ≡ other → TokenView a

view_of : (a : String) (t : Token) → classify a ≡ t → TokenView a
view_of a flag e = is_flag e
view_of a (inline c) e = is_inline c e
view_of a other e = is_other e

view : (a : String) → TokenView a
view a = view_of a (classify a) refl

accept-MatchesUuid :
    (c : String) (found : Option String) → MatchesUuid? found → MatchesUuid? (accept c found)
unfolding accept
accept-MatchesUuid c found h = elim (Bool-cases (matches_uuid c)) [
  | inl yes_uuid ↦ rw yes_uuid yes_uuid
  | inr not_uuid ↦ rw not_uuid h
]

Clean : Option String × List String → Type 0
Clean r = MatchesUuid? r.0 × HasNoFlag r.1

extract_from-Clean :
    (found : Option String) (argv : List String)
    → MatchesUuid? found
    → Clean (extract_from found argv)
unfolding extract_from Clean
extract_from-Clean found [] h = (h, tt)
extract_from-Clean found (a ∷ []) h = elim (view a) [
  | is_flag e ↦ rw (e, extract_from) (h, tt)
  | is_inline c e ↦ rw (e, extract_from) (accept-MatchesUuid c found h, tt)
  | is_other e ↦ rw (e, extract_from) (h, (e, tt))
]
extract_from-Clean found (a ∷ b ∷ rest) h = elim (view a) [
  | is_flag e ↦
      rw (e, extract_from) (extract_from-Clean (accept b found) rest (accept-MatchesUuid b found h))
  | is_inline c e ↦
      rw (e, extract_from)
        (extract_from-Clean (accept c found) (b ∷ rest) (accept-MatchesUuid c found h))
  | is_other e ↦
      let kept = extract_from-Clean found (b ∷ rest) h in rw (e, extract_from) (kept.0, (e, kept.1))
]

-- After the extraction the id, if there is one, matches the source's pattern (a UUID, behind which
-- there may be one line feed), and no remaining token is the flag or begins with the flag and "=".
pub extract_correlation_id-clean :
    (argv : List String)
    → MatchesUuid? (extract_correlation_id argv).0 × HasNoFlag (extract_correlation_id argv).1
unfolding extract_correlation_id Clean
extract_correlation_id-clean argv = extract_from-Clean none argv tt

classify-flag : classify correlation_flag ≡ flag
unfolding classify
classify-flag = refl

-- The flag and a text that matches the pattern, at the end of an argv that has no other flag are taken off, and the rest stays.
pub extract_from-append :
    (argv : List String) (found : Option String) (uid : String)
    → HasNoFlag argv
    → matches_uuid uid ≡ true
    → extract_from found (argv ++ correlation_flag ∷ uid ∷ []) ≡ (some uid, argv)
unfolding extract_from accept
extract_from-append [] found uid h u = rw (classify-flag, extract_from) (rw u)
extract_from-append (a ∷ []) found uid h u =
    rw (h.0, extract_from) (ap (λ r. (r.0, a ∷ r.1)) (extract_from-append [] found uid tt u))
extract_from-append (a ∷ b ∷ rest) found uid h u =
    rw (h.0, extract_from)
      (ap (λ r. (r.0, a ∷ r.1)) (extract_from-append (b ∷ rest) found uid h.1 u))
