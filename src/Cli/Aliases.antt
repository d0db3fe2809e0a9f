-- ===== src/Cli/Aliases.antt =====
-- The short forms of `parse_args` in src/uxon/cli/parsing.py.
use uxon.Prelude.{String, ◌≡◌, refl, Bool, true, false, List, ◌∷◌}
use uxon.Cli.Common.{Library}
use uxon.Cli.Dispatch.{parse_args}

module _ (lib : Library) (usage_text : String) where
  -- Each short form is the same function of the remaining tokens and of the correlation id as its
  -- subcommand, errors included: -V and --version are version, -l and --list are list, -a and
  -- --attach are attach, -k and --kill are kill, --killall is kill-all, -n and --new are new.
  parse_args_aliases :
      (tty : Bool) (rest : List String)
      → let parse = λ (cmd : String). parse_args lib tty usage_text (cmd ∷ rest) in
        (parse "-V" ≡ parse "version")
        × (parse "--version" ≡ parse "version")
        × (parse "-l" ≡ parse "list")
        × (parse "--list" ≡ parse "list")
        × (parse "-a" ≡ parse "attach")
        × (parse "--attach" ≡ parse "attach")
        × (parse "-k" ≡ parse "kill")
        × (parse "--kill" ≡ parse "kill")
        × (parse "--killall" ≡ parse "kill-all")
        × (parse "-n" ≡ parse "new")
        × (parse "--new" ≡ parse "new")
  unfolding parse_args
  parse_args_aliases true rest = (refl, refl, refl, refl, refl, refl, refl, refl, refl, refl, refl)
  parse_args_aliases false rest = (refl, refl, refl, refl, refl, refl, refl, refl, refl, refl, refl)
