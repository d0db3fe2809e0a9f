-- ===== src/Cli/RunLike.antt =====
-- `parse_run_like` of src/uxon/cli/parsing.py.
pub mod Kept
use uxon.Prelude.{
  String, true, not, Option, some, List, [], ◌∷◌, ◌++◌, ◌=s◌, ◌+s◌, one_of, truthy?, if◌then◌else◌,
  Result, ok, fail, ◌>>◌, refuse_if,
}
use uxon.Cli.Args.{ParsedArgs, args_for, is_text}
use uxon.Cli.Walk.{Grammar, walk}

-- `if action != "new": fail(...)`
abbrev only_new : String → String → Result (Unit {0})
only_new action token =
    refuse_if (not (action =s "new")) (token +s " is only supported with 'new' / '-n'")

-- the tests of an option of `parse_run_like` that stand above its test for a value
run_guard : String → ParsedArgs → String → Result (Unit {0})
run_guard action parsed token =
    if one_of token ("-w" ∷ "--worktree" ∷ [])
    then refuse_if (truthy? parsed.git_remote) "cannot combine -w with --git-remote"
    else if token =s "--git-remote"
    then (do
      only_new action token
      refuse_if parsed.no_git "cannot combine --git-remote with --no-git"
      refuse_if (truthy? parsed.worktree_branch) "cannot combine --git-remote with -w")
    else if token =s "--git-visibility"
    then only_new action token
    else ok tt

run_missing_text : String → String
run_missing_text token =
    if one_of token ("-w" ∷ "--worktree" ∷ [])
    then token +s " requires a branch value"
    else if token =s "--mode"
    then "--mode requires an id"
    else if token =s "--profile"
    then "--profile requires an id"
    else if token =s "--git-remote"
    then token +s " requires a profile name (or 'default')"
    else token +s " requires 'private' or 'public'"

run_set : (String → String) → ParsedArgs → String → String → Result ParsedArgs
run_set repr parsed token v =
    if one_of token ("-w" ∷ "--worktree" ∷ [])
    then ok (record parsed { worktree_branch = some v })
    else if token =s "--mode"
    then ok (record parsed { permission_mode = some v })
    else if token =s "--profile"
    then ok (record parsed { profile = some v })
    else if token =s "--git-remote"
    then ok (record parsed { git_remote = some v })
    else if one_of v ("private" ∷ "public" ∷ [])
    then ok (record parsed { git_visibility = some v })
    else fail (token +s " must be 'private' or 'public', got " +s repr v)

run_plain : String → ParsedArgs → String → Result ParsedArgs
run_plain action parsed token =
    if token =s "--dry-run"
    then ok (record parsed { dry_run = true })
    else if token =s "--attach-existing"
    then (do
      only_new action token
      refuse_if (is_text parsed.repeat_mode "new")
          "cannot combine --attach-existing with --new-session"
      ok (record parsed { repeat_mode = some "attach" }))
    else if token =s "--new-session"
    then (do
      only_new action token
      refuse_if (is_text parsed.repeat_mode "attach")
          "cannot combine --new-session with --attach-existing"
      ok (record parsed { repeat_mode = some "new" }))
    else if token =s "--no-git"
    then (do
      only_new action token
      refuse_if (truthy? parsed.git_remote) "cannot combine --no-git with --git-remote"
      ok (record parsed { no_git = true }))
    else ok (record parsed { agent_args = parsed.agent_args ++ token ∷ [] })

abbrev pub run_options : List String
run_options =
    "-w" ∷ "--worktree" ∷ "--mode" ∷ "--profile" ∷ "--git-remote" ∷ "--git-visibility" ∷ []

unfoldable pub run_grammar : (String → String) → String → Grammar ParsedArgs
unfolding run_guard run_missing_text run_set run_plain
run_grammar repr action = record {
  takes_value = λ token. one_of token run_options;
  valued = λ parsed token v. run_guard action parsed token >> run_set repr parsed token v;
  missing = λ parsed token. run_guard action parsed token >> fail (run_missing_text token);
  plain = run_plain action;
}

unfoldable pub parse_run_like :
    (String → String) → List String → String → Option String → Result ParsedArgs
parse_run_like repr argv action target_id =
    let args = args_for action in
    walk (run_grammar repr action) (record args { target_id = target_id }) argv
