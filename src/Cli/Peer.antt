-- ===== src/Cli/Peer.antt =====
-- The command lines that one host runs on another: `remote_kill_command` of src/uxon/app/kill.py and
-- the attach command of src/uxon/app/attach.py.
pub mod RoundTrip
use uxon.Prelude.{
  ℕ, leb, ◌==◌, ◌&&◌, ◌||◌, all, codes, ◌≡◌, String, Bool, true, false, Option, none, some, List,
  [], ◌∷◌, ◌++◌, map, ◌+s◌, join, if◌then◌else◌,
}
use uxon.Session.Json.{JsonLib}
use uxon.Session.Identity.{SessionIdentity, to_json}
use uxon.Cli.Correlation.{correlation_flag}

-- `shlex.quote`, and how the peer's shell splits a command line into words.
pub record Shell : Type 0 where
  pub quote : String → String
  pub split : String → List String

-- the characters that `shlex.quote` leaves alone, and that stand for themselves in a word; of these,
-- the letters and digits in small and "-"
abbrev pub is_safe : ℕ → Bool
is_safe c = leb 97 c && leb c 122 || leb 48 c && leb c 57 || c == b'-'

unfoldable pub is_plain : String → Bool
is_plain s = all is_safe (codes s)

-- What is documented of quoting and splitting: words are parted by spaces, a quoted text is one word,
-- which is the text, and a word of safe characters is itself.
pub record ShellLaws (sh : Shell) : Type 0 where
  pub quoted : (w rest : String) → sh.split (sh.quote w +s " " +s rest) ≡ w ∷ sh.split rest
  pub quoted_last : (w : String) → sh.split (sh.quote w) ≡ w ∷ []
  pub plain :
      (w rest : String) → is_plain w ≡ true → sh.split (w +s " " +s rest) ≡ w ∷ sh.split rest

-- shlex.join(parts)
unfoldable pub shlex_join : Shell → List String → String
shlex_join sh parts = join " " (map sh.quote parts)

-- the optional parts of `remote_kill_command`
abbrev expect_parts : JsonLib → Option SessionIdentity → List String
expect_parts lib none = []
expect_parts lib (some expected) = "--expect-session" ∷ to_json lib expected ∷ []

-- the list `parts` of `remote_kill_command`
unfoldable pub kill_parts :
    JsonLib → String → String → String → Option SessionIdentity → String → Bool → List String
kill_parts lib executable name user expected correlation_id json_output =
    (executable ∷ "kill" ∷ name ∷ "--force" ∷ "--user" ∷ user ∷ [])
    ++ (expect_parts lib expected
        ++ ((if json_output then "--json" ∷ [] else []) ++ correlation_flag ∷ correlation_id ∷ []))

unfoldable pub remote_kill_command :
    Shell → JsonLib → String → String → String → Option SessionIdentity → String → Bool → String
unfolding shlex_join kill_parts
remote_kill_command sh lib executable name user expected correlation_id json_output =
    shlex_join sh (kill_parts lib executable name user expected correlation_id json_output)

-- `remote_cmd` of `_cmd_attach_remote`
unfoldable pub remote_attach_command :
    Shell → JsonLib → String → SessionIdentity → String → String → String
remote_attach_command sh lib remote_uxon expected user corr_id =
    sh.quote remote_uxon
    +s " attach "
    +s sh.quote expected.name
    +s " --user "
    +s sh.quote user
    +s " --expect-session "
    +s sh.quote (to_json lib expected)
    +s " --audit-correlation-id "
    +s sh.quote corr_id

-- the words that the peer should see
unfoldable pub attach_parts : JsonLib → String → SessionIdentity → String → String → List String
attach_parts lib remote_uxon expected user corr_id =
    remote_uxon
    ∷ "attach"
    ∷ expected.name
    ∷ "--user"
    ∷ user
    ∷ "--expect-session"
    ∷ to_json lib expected
    ∷ correlation_flag
    ∷ corr_id
    ∷ []
