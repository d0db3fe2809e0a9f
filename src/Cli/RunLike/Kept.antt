-- ===== src/Cli/RunLike/Kept.antt =====
-- The loop of `parse_run_like` in src/uxon/cli/parsing.py, step by step.
use uxon.Prelude.{
  String, ◌≡◌, Bool, true, false, not, Option, none, some, List, [], ◌∷◌, ◌&&◌, ◌||◌, ◌=s◌, one_of,
  truthy?, ok, >>=-ok, arith,
}
use uxon.Cli.Args.{ParsedArgs, args_for, is_given}
use uxon.Cli.Walk.{walk_inv}
use uxon.Cli.RunLike.{run_options, run_grammar, run_guard, run_set, parse_run_like}

-- The value of --git-visibility is one of the two that are allowed.
abbrev pub visibility_known : Option String → Bool
visibility_known none = true
visibility_known (some v) = one_of v ("private" ∷ "public" ∷ [])

-- What the loop keeps.
pub record RunInv (action : String) (s : ParsedArgs) : Type 0 where
  pub same_action : s.action ≡ action
  pub no_host : s.host ≡ none
  pub one_git_mode : (truthy? s.git_remote && (s.no_git || truthy? s.worktree_branch)) ≡ false
  pub new_only :
      (not (action =s "new")
        && (is_given s.repeat_mode
            || is_given s.git_remote
            || s.no_git
            || is_given s.git_visibility))
      ≡ false
  pub visibility : visibility_known s.git_visibility ≡ true

module _ (repr : String → String) (action : String) (s : ParsedArgs) (inv : RunInv action s) where
  plain-RunInv :
      (t : String) (s' : ParsedArgs)
      → (run_grammar repr action).plain s t ≡ ok s'
      → RunInv action s'
  unfolding run_grammar
  plain-RunInv t s' e = ground arith

  set-RunInv :
      (t v : String) (u : Unit {0}) (s' : ParsedArgs)
      → one_of t run_options ≡ true
      → run_guard action s t ≡ ok u
      → run_set repr s t v ≡ ok s'
      → RunInv action s'
  unfolding run_guard run_set
  set-RunInv t v u s' o g e = record {
    same_action = ground arith;
    no_host = ground arith;
    one_git_mode = ground arith;
    new_only = ground arith;
    visibility = ground arith;
  }

  valued-RunInv :
      (t v : String) (s' : ParsedArgs)
      → (run_grammar repr action).takes_value t ≡ true
      → (run_grammar repr action).valued s t v ≡ ok s'
      → RunInv action s'
  unfolding run_grammar
  valued-RunInv t v s' o e =
      let (u, g, e') = >>=-ok (λ _. run_set repr s t v) (run_guard action s t) e in
      set-RunInv t v u s' o g e'

  missing-RunInv :
      (t : String) (s' : ParsedArgs)
      → (run_grammar repr action).missing s t ≡ ok s'
      → RunInv action s'
  unfolding run_grammar
  missing-RunInv t s' e = ground arith

-- From defaults, whatever the tokens, a result of `parse_run_like` has the invariant.
pub parse_run_like-RunInv :
    (repr : String → String) (argv : List String) (action : String) (target_id : Option String)
    (a : ParsedArgs)
    → parse_run_like repr argv action target_id ≡ ok a
    → RunInv action a
unfolding parse_run_like
parse_run_like-RunInv repr argv action target_id a e =
    walk_inv (run_grammar repr action) (RunInv action)
      (λ s t v s' h o e'. valued-RunInv repr action s h t v s' o e')
      (λ s t s' h e'. missing-RunInv repr action s h t s' e')
      (λ s t s' h e'. plain-RunInv repr action s h t s' e')
      (let args = args_for action in record args { target_id = target_id }) argv a (ground arith) e
