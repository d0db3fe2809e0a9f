-- ===== src/Cli/Dispatch.antt =====
-- `parse_subcommand` and `parse_args` of src/uxon/cli/parsing.py.
pub mod Sound
use Prim.Native.Char.{code}
use Prim.Native.String.{String}
use uxon.Prelude.{
  Bool, true, false, not, none, some, List, [], ◌∷◌, ◌=s◌, ◌+s◌, ◌==◌, one_of, keep, if◌then◌else◌,
  Result, ok, err, usage, fail, ◌>>◌,
}
use uxon.Cli.Args.{ParsedArgs, args_for, subcommands}
use uxon.Cli.Common.{Library, Parse, lift, no_extras}
use uxon.Cli.Listing.{parse_list_args}
use uxon.Cli.RunLike.{parse_run_like}
use uxon.Cli.Target.{parse_kill_extras, parse_attach_extras}
use uxon.Cli.Render.{parse_config}

-- [a for a in argv if a not in flags]
abbrev pub extras_of : List String → List String → List String
extras_of flags argv = keep (λ a. not (one_of a flags)) argv

unfoldable pub parse_version : List String → Result ParsedArgs
parse_version rest = do
  no_extras "version" (extras_of ("--json" ∷ []) rest)
  let args = args_for "version"
  ok (record args { json_output = one_of "--json" rest })

unfoldable pub parse_doctor : List String → Result ParsedArgs
parse_doctor rest = do
  no_extras "doctor" (extras_of ("--json" ∷ "--remote" ∷ []) rest)
  let args = args_for "doctor"
  ok (record args { json_output = one_of "--json" rest; all_hosts = one_of "--remote" rest })

unfoldable pub parse_kill_all : List String → Result ParsedArgs
parse_kill_all rest = do
  no_extras "kill-all" (extras_of ("--dry-run" ∷ "--force" ∷ "--json" ∷ []) rest)
  let args = args_for "kill-all"
  ok (record args {
    dry_run = one_of "--dry-run" rest;
    force = one_of "--force" rest;
    json_output = one_of "--json" rest;
  })

-- the branches that read a target behind the verb
parse_attach : Library → List String → Parse
parse_attach lib [] = lift (fail "attach requires an identifier")
parse_attach lib (target ∷ rest) = parse_attach_extras lib rest target

parse_kill : Library → List String → Parse
parse_kill lib [] = lift (fail "kill requires an identifier")
parse_kill lib (target ∷ rest) = parse_kill_extras lib rest target

parse_new : Library → List String → Parse
parse_new lib [] = lift (fail "new requires a name")
parse_new lib (name ∷ rest) = lift (parse_run_like lib.repr rest "new" (some name))

unfoldable pub parse_subcommand : Library → String → List String → Parse
unfolding parse_version parse_doctor parse_kill_all parse_attach parse_kill parse_new
parse_subcommand lib cmd rest =
    if cmd =s "config"
    then lift (parse_config rest)
    else if cmd =s "version"
    then lift (parse_version rest)
    else if cmd =s "doctor"
    then lift (parse_doctor rest)
    else if cmd =s "run"
    then lift (parse_run_like lib.repr rest "run" none)
    else if cmd =s "list"
    then parse_list_args rest
    else if cmd =s "kill-all"
    then lift (parse_kill_all rest)
    else if cmd =s "attach"
    then parse_attach lib rest
    else if cmd =s "kill"
    then parse_kill lib rest
    else if cmd =s "new"
    then parse_new lib rest
    else lift (fail ("unknown subcommand: " +s cmd))

-- text.startswith("-")
abbrev starts_with_dash : String → Bool
starts_with_dash String.[] = false
starts_with_dash (String.◌∷◌ c s) = code c == b'-'

-- `parse_args` once there is a first token; `usage_text` is `USAGE`
parse_command : Library → String → String → List String → Parse
parse_command lib usage_text cmd rest =
    if one_of cmd ("-h" ∷ "--help" ∷ [])
    then lift (err usage)
    else if one_of cmd ("-V" ∷ "--version" ∷ [])
    then lift (parse_version rest)
    else if one_of cmd ("-l" ∷ "--list" ∷ [])
    then parse_list_args rest
    else if one_of cmd ("-a" ∷ "--attach" ∷ [])
    then parse_attach lib rest
    else if one_of cmd ("-k" ∷ "--kill" ∷ [])
    then parse_kill lib rest
    else if one_of cmd ("--killall" ∷ [])
    then lift (parse_kill_all rest)
    else if one_of cmd ("-n" ∷ "--new" ∷ [])
    then parse_new lib rest
    else if one_of cmd subcommands
    then parse_subcommand lib cmd rest
    else if not (starts_with_dash cmd)
    then lift (fail ("unknown command: " +s cmd +s "\n" +s usage_text))
    else lift (parse_run_like lib.repr (cmd ∷ rest) "run" none)

-- `tty` is `identity.is_interactive_tty()`
unfoldable pub parse_args : Library → Bool → String → List String → Parse
unfolding parse_command parse_subcommand
parse_args lib true usage_text [] = lift (ok (args_for "interactive"))
parse_args lib false usage_text [] = lift (err usage)
parse_args lib tty usage_text (cmd ∷ rest) = parse_command lib usage_text cmd rest
