-- ===== src/Session/Names.antt =====
-- src/uxon/domain/session.py: the names of sessions, `<prefix><stem>@<profile>[-N]`, and what is
-- chosen by them. Paths are compared as pathlib does, and numbers written and read as Python does.
pub mod Allocated
pub mod Compatible
pub mod Chosen
use Prim.Native.Char.{Char, code}
use Prim.Native.String
use uxon.Prelude.{
  ℕ, zero, suc, ◌+◌, String, Bool, true, false, not, Option, none, some, List, [], ◌∷◌, ◌&&◌, ◌||◌,
  ◌==◌, ◌=s◌, ◌+s◌, leb, ltb, keep, truthy, if◌then◌else◌, Result, ok, err, fail, ◌>>=◌, ◌>>◌,
  refuse_if,
}
use uxon.Session.Info.{SessionInfo}

pub record Python : Type 0 where
  -- str(n), int(text), and whether `\d` matches the character with this code
  pub show : ℕ → String
  pub int : String → ℕ
  pub is_decimal : ℕ → Bool
  pub normpath : String → String
  -- whether Path(path).relative_to(Path(base)) does not raise
  pub relative_to : String → String → Bool

-- `(stem, profile, index, legacy)`
pub record Parsed : Type 0 where
  pub stem : String
  pub profile : String
  pub index : ℕ
  pub legacy : Bool

abbrev lower : ℕ → Bool
lower c = leb 97 c && leb c 122

-- [a-z0-9_]
abbrev is_profile_char : ℕ → Bool
is_profile_char c = lower c || leb 48 c && leb c 57 || c == 95

-- `$`: the end, or a newline that ends the text
unfoldable pub at_dollar : String → Bool
at_dollar s = s =s "" || s =s "\n"

-- the text without the prefix, where it begins with it
unfoldable pub without_prefix : String → String → Option String
without_prefix String.[] s = some s
without_prefix (String.◌∷◌ p ps) String.[] = none
without_prefix (String.◌∷◌ p ps) (String.◌∷◌ c s) =
    let rest = without_prefix ps s in if code p == code c then rest else none

-- the longest beginning in a class of characters, and the rest
unfoldable pub span : (ℕ → Bool) → String → String × String
span good String.[] = ("", "")
span good (String.◌∷◌ c s) =
    let rest = span good s in
    if good (code c) then (String.◌∷◌ c rest.0, rest.1) else ("", String.◌∷◌ c s)

-- the message of a conflict
unfoldable pub conflict : String → String → String → String
conflict name active_path root =
    "session conflict: "
    +s name
    +s " already points to "
    +s (if truthy active_path then active_path else "<unknown>")
    +s ", not under "
    +s root

-- [s for s in sessions if s.name == name], and its first member
unfoldable pub first_named : String → List SessionInfo → Option SessionInfo
first_named name [] = none
first_named name (s ∷ sessions) =
    let later = first_named name sessions in if s.name =s name then some s else later

-- the rest, unless a check has failed
abbrev pub unless_refused : Result (Unit {0}) → Option (Result String) → Option (Result String)
unless_refused (err exit) rest = some (err exit)
unless_refused (ok done) rest = rest

-- min(existing, key=...): the first session with the least key, beside the best so far
abbrev pub least_from : (SessionInfo → ℕ) → SessionInfo → List SessionInfo → SessionInfo
least_from rank best [] = best
least_from rank best (s ∷ sessions) =
    let next = if ltb (rank s) (rank best) then s else best in least_from rank next sessions

-- the first of two that is there, or else the third
abbrev pub first_given : Option SessionInfo → Option SessionInfo → SessionInfo → SessionInfo
first_given (some s) second other = s
first_given none (some s) other = s
first_given none none other = other

module _ (py : Python) where
  -- the index after a "-" that ends the name
  unfoldable pub index_after : String → Option ℕ
  unfolding span at_dollar
  index_after String.[] = none
  index_after (String.◌∷◌ c s) =
      let digits = span py.is_decimal s in
      if code c == b'-' && truthy digits.0 && at_dollar digits.1
      then some (py.int digits.0)
      else none

  -- (?P<profile>[a-z][a-z0-9_]*)(?:-(?P<index>\d+))?$
  unfoldable pub profile_tail : String → Option (String × ℕ)
  unfolding span at_dollar index_after
  profile_tail String.[] = none
  profile_tail (String.◌∷◌ c s) =
      let rest = span is_profile_char s in
      if not (lower (code c))
      then none
      else if at_dollar rest.1
      then some (String.◌∷◌ c rest.0, 1)
      else elim (index_after rest.1) [
        | none ↦ none
        | some index ↦ some (String.◌∷◌ c rest.0, index)
      ]

  -- (?P<stem>.+?)@ and the rest: the shortest stem, after the characters that are taken already
  unfoldable pub stem_from : String → String → Option (String × String × ℕ)
  unfolding profile_tail
  stem_from taken String.[] = none
  stem_from taken (String.◌∷◌ c s) =
      let longer = stem_from (taken +s String.◌∷◌ c "") s in
      let further = if code c == 10 then none else longer in
      if code c == b'@' && truthy taken
      then elim (profile_tail s) [
        | none ↦ further
        | some (profile, index) ↦ some (taken, profile, index)
      ]
      else further

  unfoldable pub parse_with : String → String → Option (String × String × ℕ)
  unfolding without_prefix stem_from
  parse_with prefix name = elim (without_prefix prefix name) [
    | none ↦ none
    | some rest ↦ stem_from "" rest
  ]

  -- the loop over the prefixes
  unfoldable pub parse_any : String → List String → String → Option Parsed
  unfolding parse_with
  parse_any prefix [] name = none
  parse_any prefix (p ∷ ps) name =
      let later = parse_any prefix ps name in
      elim (parse_with p name) [
        | none ↦ later
        | some (stem, profile, index) ↦
            some
              (record { stem = stem; profile = profile; index = index; legacy = not (p =s prefix) })
      ]

  unfoldable pub parse_session_name : String → String → List String → Option Parsed
  unfolding parse_any
  parse_session_name name prefix legacy_prefixes = parse_any prefix (prefix ∷ legacy_prefixes) name

  unfoldable pub candidate_session_name : String → ℕ → String → String → String
  candidate_session_name stem index profile prefix =
      let base = prefix +s stem +s "@" +s profile in
      if leb index 1 then base else base +s "-" +s py.show index

  unfoldable pub parse_plain_session_index :
      String → String → String → String → List String → Option ℕ
  unfolding parse_session_name
  parse_plain_session_index name stem profile prefix legacy_prefixes =
      elim (parse_session_name name prefix legacy_prefixes) [
        | none ↦ none
        | some p ↦ if p.stem =s stem && p.profile =s profile then some p.index else none
      ]

  -- authz.is_under
  abbrev pub is_under : String → String → Bool
  is_under path base = py.relative_to path base

  unfoldable pub session_path_compatible : String → String → Bool
  session_path_compatible active_path repo_root =
      not (truthy active_path) || is_under (py.normpath active_path) repo_root

  -- the step of the loop of `compatible_indexed_sessions`, for a session with an index or without
  abbrev pub with_index :
      String → SessionInfo → Option ℕ → Result (List SessionInfo) → Result (List SessionInfo)
  with_index root session none rest = rest
  with_index root session (some i) rest = do
    refuse_if (not (session_path_compatible session.active_path root))
        (conflict session.name session.active_path root)
    others ← rest
    ok (if session.exited then others else session ∷ others)

  unfoldable pub compatible_indexed_sessions :
      String
      → String
      → String
      → String
      → List String
      → Bool
      → List SessionInfo
      → Result (List SessionInfo)
  unfolding parse_plain_session_index session_path_compatible conflict
  compatible_indexed_sessions stem profile root prefix legacy_prefixes require_verified [] = ok []
  compatible_indexed_sessions stem profile root prefix legacy_prefixes require_verified
        (session ∷ sessions) =
      let rest =
        compatible_indexed_sessions stem profile root prefix legacy_prefixes require_verified
          sessions in
      if require_verified && not session.launch_record_verified
      then rest
      else with_index root session
          (parse_plain_session_index session.name stem profile prefix legacy_prefixes) rest

  -- the check of the session with a name, where there is one
  unfoldable pub check_named : String → String → Option SessionInfo → Result (Unit {0})
  unfolding session_path_compatible conflict
  check_named name root none = ok tt
  check_named name root (some s) =
      refuse_if (not (session_path_compatible s.active_path root))
        (conflict name s.active_path root)

  -- one round of the loop: the name is free, or it is in the way, or the next one is tried
  unfoldable pub try_candidate :
      String → String → Option SessionInfo → Option (Result String) → Option (Result String)
  unfolding session_path_compatible conflict
  try_candidate candidate root none rest = some (ok candidate)
  try_candidate candidate root (some s) rest =
      if not (session_path_compatible s.active_path root)
      then some (fail (conflict candidate s.active_path root))
      else rest

  -- the `while True` loop on fuel; `none` is the end of the fuel
  unfoldable pub allocate_from :
      ℕ → String → String → String → String → List SessionInfo → ℕ → Option (Result String)
  unfolding candidate_session_name first_named try_candidate
  allocate_from zero stem profile root prefix sessions index = none
  allocate_from (suc fuel) stem profile root prefix sessions index =
      let rest = allocate_from fuel stem profile root prefix sessions (suc index) in
      let candidate = candidate_session_name stem index profile prefix in
      try_candidate candidate root (first_named candidate sessions) rest

  -- the check before the loop, and the loop
  unfoldable pub allocate_session_name :
      ℕ → String → String → String → String → List SessionInfo → Option (Result String)
  unfolding check_named first_named allocate_from candidate_session_name
  allocate_session_name fuel stem profile root prefix sessions =
      let exact_base = candidate_session_name stem 1 profile prefix in
      unless_refused (check_named exact_base root (first_named exact_base sessions))
        (allocate_from fuel stem profile root prefix sessions 1)

  -- the index of a name, or 9999 where it has none, or 0
  abbrev pub rank_of : String → String → String → List String → SessionInfo → ℕ
  rank_of stem profile prefix legacy_prefixes s =
      elim (parse_plain_session_index s.name stem profile prefix legacy_prefixes) [
        | none ↦ 9999
        | some i ↦ if i == 0 then 9999 else i
      ]

  -- `none` is the ValueError of an empty list
  unfoldable pub choose_attach_session :
      List SessionInfo → String → String → String → List String → Option SessionInfo
  unfolding candidate_session_name first_named parse_plain_session_index
  choose_attach_session [] stem profile prefix legacy_prefixes = none
  choose_attach_session (e ∷ existing) stem profile prefix legacy_prefixes =
      let base_name = candidate_session_name stem 1 profile prefix in
      let attached = keep (λ s. s.attached =s "1") (e ∷ existing) in
      some (
        first_given (first_named base_name attached) (first_named base_name (e ∷ existing))
          (least_from (rank_of stem profile prefix legacy_prefixes) e existing))
