-- ===== src/Examples/Names.antt =====
-- Names of sessions, with one session that has the base name.
use Prim.Native.String
use uxon.Prelude.{
  ℕ, zero, suc, ◌≡◌, refl, sym, ap, ◌∙◌, String, true, false, some, List, [], ◌∷◌, ◌=s◌, ◌+s◌,
  arith, Result, ok, leb, ◌&&◌,
}
use text.Mathlib.TextLemmas.{length-append}
use uxon.Session.Info.{SessionInfo}
use uxon.Session.Names.{
  Python, parse_session_name, allocate_session_name, compatible_indexed_sessions,
  choose_attach_session,
}
use uxon.Session.Names.Allocated.{
  IsChoice, allocate_session_name-ends, allocate_session_name-IsChoice,
}
use uxon.Session.Names.Compatible.{IsOutcome, compatible_indexed_sessions-IsOutcome}
use uxon.Session.Names.Chosen.{IsBest, choose_attach_session-IsBest}
use uxon.Kill.Expected.{described}
use uxon.Examples.Kills.{expected}

-- numbers as strokes
abbrev strokes : ℕ → String
strokes zero = ""
strokes (suc n) = "i" +s strokes n

strokes-count : (n : ℕ) → String.count (strokes n) ≡ n
strokes-count zero = refl
strokes-count (suc n) = omega (arith, length-append "i" (strokes n), strokes-count n)

distinct : (m n : ℕ) → strokes m ≡ strokes n → m ≡ n
distinct m n same = sym (strokes-count m) ∙ ap String.count same ∙ strokes-count n

abbrev py : Python
py = record {
  show = strokes;
  int = λ text. String.count text;
  is_decimal = λ c. leb 105 c && leb c 105;
  normpath = λ path. path;
  relative_to = λ path base. path =s base;
}

abbrev named : SessionInfo
named = record (described expected) {
  name = "uxon-a@claude";
  active_path = "/w";
  launch_record_verified = true;
}

abbrev sessions : List SessionInfo
sessions = named ∷ []

parsed :
    parse_session_name py "uxon-a@b@claude-iii" "uxon-" []
    ≡ some (record { stem = "a@b"; profile = "claude"; index = 3; legacy = false })
unfolding parse_session_name
parsed = refl

parsed_legacy :
    parse_session_name py "old-a@c" "uxon-" ("old-" ∷ [])
    ≡ some (record { stem = "a"; profile = "c"; index = 1; legacy = true })
unfolding parse_session_name
parsed_legacy = refl

allocated :
    allocate_session_name py 2 "a" "claude" "/w" "uxon-" sessions ≡ some (ok "uxon-a@claude-ii")
unfolding allocate_session_name
allocated = refl

allocate_session_name-ends_example :
    (r : Result String) × (allocate_session_name py 2 "a" "claude" "/w" "uxon-" sessions ≡ some r)
allocate_session_name-ends_example =
    allocate_session_name-ends py distinct "a" "claude" "/w" "uxon-" 2 sessions (omega arith)

allocate_session_name-IsChoice_example :
    IsChoice py "a" "claude" "/w" "uxon-" sessions (ok "uxon-a@claude-ii")
allocate_session_name-IsChoice_example =
    allocate_session_name-IsChoice py "a" "claude" "/w" "uxon-" sessions 2 (ok "uxon-a@claude-ii")
      allocated

compatible_indexed_sessions-IsOutcome_example :
    IsOutcome py "a" "claude" "/w" "uxon-" [] true sessions
      (compatible_indexed_sessions py "a" "claude" "/w" "uxon-" [] true sessions)
compatible_indexed_sessions-IsOutcome_example =
    compatible_indexed_sessions-IsOutcome py "a" "claude" "/w" "uxon-" [] true sessions

choose_attach_session-IsBest_example :
    (s : SessionInfo) × (choose_attach_session py sessions "a" "claude" "uxon-" [] ≡ some s)
    × (s.user ≡ "ann")
    × IsBest py "a" "claude" "uxon-" [] sessions s
choose_attach_session-IsBest_example =
    choose_attach_session-IsBest py "a" "claude" "uxon-" [] (λ s. s.user ≡ "ann") named []
      (refl, tt)
