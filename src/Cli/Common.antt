-- ===== src/Cli/Common.antt =====
-- What the parsers of src/uxon/cli/parsing.py share. A parser that pops the correlation id also
-- sets the module variable of infra/audit.py, so it is a function on that variable.
use uxon.Prelude.{String, Option, List, [], ◌∷◌, ◌+s◌, join, Result, ok, fail}
use uxon.Session.Json.{JsonLib}
use uxon.Cli.Args.{ParsedArgs}
use uxon.Cli.Correlation.{extract_correlation_id, record_correlation_id}

-- What the parsers take from elsewhere: the json library, and `repr`.
pub record Library : Type 0 where
  pub json : JsonLib
  pub repr : String → String

-- The current correlation id goes in and out.
abbrev pub Parse : Type 0
Parse = Option String → Result ParsedArgs × Option String

-- A parser that leaves the correlation id alone.
abbrev pub lift : Result ParsedArgs → Parse
lift r current = (r, current)

-- The head of a parser that pops the correlation id.
abbrev pub with_correlation :
    List String → (Option String → List String → Result ParsedArgs) → Parse
with_correlation argv body current =
    let (corr_id, rest) = extract_correlation_id argv in
    (body corr_id rest, record_correlation_id corr_id current)

-- `if extras: fail(...)`
abbrev pub no_extras : String → List String → Result (Unit {0})
no_extras command [] = ok tt
no_extras command (e ∷ es) = fail ("unknown args for " +s command +s ": " +s join " " (e ∷ es))
