-- ===== src/Cli/Dispatch/Sound.antt =====
-- The results of `parse_args` of src/uxon/cli/parsing.py, branch by branch.
use uxon.Prelude.{
  String, Bool, true, false, Option, none, some, List, [], ◌∷◌, if◌then◌else◌, Result, ok, err,
  Exit, ◌≡◌, refl, not, subst, one_of, failed, usage,
}
use uxon.Cli.Args.{ParsedArgs, args_for, subcommands}
use uxon.Cli.Correlation.{extract_correlation_id}
use uxon.Cli.Walk.{walk}
use uxon.Cli.Common.{Library, Parse, lift}
use uxon.Cli.Listing.{list_start, list_grammar, list_finish, parse_list_args}
use uxon.Cli.RunLike.{parse_run_like}
use uxon.Cli.RunLike.Kept.{parse_run_like-RunInv}
use uxon.Cli.Target.{
  kill_start, kill_grammar, kill_finish, parse_kill_extras, attach_start, attach_grammar,
  attach_finish, parse_attach_extras,
}
use uxon.Cli.Consistency.{
  IsConsistent, Consistent, Consistent-bind, Consistent-of, list_finish-Consistent,
  kill_finish-Consistent, attach_finish-Consistent, parse_version-Consistent,
  parse_doctor-Consistent, parse_kill_all-Consistent, parse_config-Consistent, run-IsConsistent,
  new-IsConsistent,
}
use uxon.Cli.Dispatch.{
  parse_attach, parse_kill, parse_new, parse_subcommand, starts_with_dash, parse_command,
  parse_args,
}

-- Whatever the current correlation id, the parser's result is consistent.
record Sound (p : Parse) : Type 0 where
  at : (current : Option String) → Consistent (p current).0

Sound-lift : (r : Result ParsedArgs) → Consistent r → Sound (lift r)
Sound-lift r h = record { at = λ current. h }

Sound-if : (b : Bool) (p q : Parse) → Sound p → Sound q → Sound (if b then p else q)
Sound-if true p q hp hq = hp
Sound-if false p q hp hq = hq

list-Sound : (argv : List String) → Sound (parse_list_args argv)
unfolding parse_list_args
list-Sound argv = record {
  at = λ current.
      let (corr_id, rest) = extract_correlation_id argv in
      Consistent-bind (walk list_grammar list_start rest) (list_finish corr_id)
        λ s _. list_finish-Consistent corr_id s;
}

run-Sound :
    (repr : String → String) (argv : List String)
    → Sound (lift (parse_run_like repr argv "run" none))
run-Sound repr argv =
    Sound-lift _
      (Consistent-of _ λ a e. run-IsConsistent a (parse_run_like-RunInv repr argv "run" none a e))

new-Sound : (lib : Library) (argv : List String) → Sound (parse_new lib argv)
unfolding parse_new
new-Sound lib [] = record { at = λ current. tt }
new-Sound lib (name ∷ argv) = Sound-lift _ (
    Consistent-of _
      λ a e. new-IsConsistent a (parse_run_like-RunInv lib.repr argv "new" (some name) a e))

kill-Sound : (lib : Library) (argv : List String) → Sound (parse_kill lib argv)
unfolding parse_kill parse_kill_extras
kill-Sound lib [] = record { at = λ current. tt }
kill-Sound lib (target ∷ argv) = record {
  at = λ current.
      let (corr_id, rest) = extract_correlation_id argv in
      Consistent-bind (walk (kill_grammar lib) kill_start rest) (kill_finish target corr_id)
        λ s _. kill_finish-Consistent target corr_id s;
}

attach-Sound : (lib : Library) (argv : List String) → Sound (parse_attach lib argv)
unfolding parse_attach parse_attach_extras
attach-Sound lib [] = record { at = λ current. tt }
attach-Sound lib (target ∷ argv) = record {
  at = λ current.
      let (corr_id, rest) = extract_correlation_id argv in
      Consistent-bind (walk (attach_grammar lib) attach_start rest) (attach_finish target corr_id)
        λ s _. attach_finish-Consistent target corr_id s;
}

failing-Sound : (e : Exit) → Sound (lift (err e))
failing-Sound e = record { at = λ current. tt }

module _ (lib : Library) where
  subcommand-Sound : (cmd : String) (rest : List String) → Sound (parse_subcommand lib cmd rest)
  unfolding parse_subcommand
  subcommand-Sound cmd rest = Sound-if _ _ _ (Sound-lift _ (parse_config-Consistent rest)) (
      Sound-if _ _ _ (Sound-lift _ (parse_version-Consistent rest)) (
        Sound-if _ _ _ (Sound-lift _ (parse_doctor-Consistent rest)) (
          Sound-if _ _ _ (run-Sound lib.repr rest) (
            Sound-if _ _ _ (list-Sound rest) (
              Sound-if _ _ _ (Sound-lift _ (parse_kill_all-Consistent rest)) (
                Sound-if _ _ _ (attach-Sound lib rest) (
                  Sound-if _ _ _ (kill-Sound lib rest)
                    (Sound-if _ _ _ (new-Sound lib rest) (failing-Sound _)))))))))

  command-Sound :
      (usage_text cmd : String) (rest : List String) → Sound (parse_command lib usage_text cmd rest)
  unfolding parse_command
  command-Sound usage_text cmd rest =
      Sound-if (one_of cmd ("-h" ∷ "--help" ∷ [])) _ _ (failing-Sound usage) (
        Sound-if (one_of cmd ("-V" ∷ "--version" ∷ [])) _ _
          (Sound-lift _ (parse_version-Consistent rest))
          (Sound-if (one_of cmd ("-l" ∷ "--list" ∷ [])) _ _ (list-Sound rest) (
            Sound-if (one_of cmd ("-a" ∷ "--attach" ∷ [])) _ _ (attach-Sound lib rest) (
              Sound-if (one_of cmd ("-k" ∷ "--kill" ∷ [])) _ _ (kill-Sound lib rest) (
                Sound-if (one_of cmd ("--killall" ∷ [])) _ _
                  (Sound-lift _ (parse_kill_all-Consistent rest))
                  (Sound-if (one_of cmd ("-n" ∷ "--new" ∷ [])) _ _ (new-Sound lib rest) (
                    Sound-if (one_of cmd subcommands) _ _ (subcommand-Sound cmd rest) (
                      Sound-if (not (starts_with_dash cmd)) _ _ (failing-Sound (failed 2 _))
                        (run-Sound lib.repr (cmd ∷ rest))))))))))

  interactive-Sound : Sound (lift (ok (args_for "interactive")))
  interactive-Sound = record {
    at = λ current. record {
      one_git_mode = refl;
      new_only = refl;
      visibility = refl;
      one_scope = refl;
      attach_user = refl;
      target = refl;
      rendered = refl;
    };
  }

  args-Sound :
      (tty : Bool) (usage_text : String) (argv : List String)
      → Sound (parse_args lib tty usage_text argv)
  unfolding parse_args
  args-Sound true usage_text [] = interactive-Sound
  args-Sound false usage_text [] = failing-Sound _
  args-Sound true usage_text (cmd ∷ rest) = command-Sound usage_text cmd rest
  args-Sound false usage_text (cmd ∷ rest) = command-Sound usage_text cmd rest

  -- Whatever the argv, a `ParsedArgs` that `parse_args` returns is consistent: a --git-remote
  -- that is not empty comes with neither --no-git nor a worktree branch that is not empty, the options of 'new' come with 'new' only, the visibility
  -- is private or public, --host excludes --all-hosts, a remote attach has a user, attach and kill
  -- have a target, and config-render has its input.
  pub parse_args-IsConsistent :
      (tty : Bool) (usage_text : String) (argv : List String) (current : Option String)
      (a : ParsedArgs)
      → (parse_args lib tty usage_text argv current).0 ≡ ok a
      → IsConsistent a
  parse_args-IsConsistent tty usage_text argv current a e =
      subst Consistent e ((args-Sound tty usage_text argv).at current)
