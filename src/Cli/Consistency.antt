-- ===== src/Cli/Consistency.antt =====
-- Which combinations of options a parse that succeeds can return.
use uxon.Prelude.{
  String, ◌≡◌, refl, Bool, true, false, not, Option, none, some, List, [], ◌∷◌, ◌&&◌, ◌||◌, ◌=s◌,
  truthy?, Result, ok, err, ◌>>=◌, refuse_if, arith,
}
use uxon.Cli.Args.{ParsedArgs, is_given}
use uxon.Cli.Walk.{walk, walk_inv}
use uxon.Cli.Common.{no_extras}
use uxon.Cli.Listing.{ListVars, list_finish}
use uxon.Cli.RunLike.Kept.{RunInv, visibility_known}
use uxon.Cli.Target.{KillVars, kill_finish, AttachVars, attach_finish}
use uxon.Cli.Render.{RenderVars, render_grammar, render_input, parse_config}
use uxon.Cli.Dispatch.{parse_version, parse_doctor, parse_kill_all, extras_of}

pub record IsConsistent (a : ParsedArgs) : Type 0 where
  -- a --git-remote that is not empty excludes --no-git and a worktree branch that is not empty
  pub one_git_mode : (truthy? a.git_remote && (a.no_git || truthy? a.worktree_branch)) ≡ false
  -- the options of 'new' occur with 'new' only
  pub new_only :
      (not (a.action =s "new")
        && (is_given a.repeat_mode
            || is_given a.git_remote
            || a.no_git
            || is_given a.git_visibility))
      ≡ false
  pub visibility : visibility_known a.git_visibility ≡ true
  -- one host or all
  pub one_scope : (is_given a.host && a.all_hosts) ≡ false
  -- a remote attach names its user
  pub attach_user : (a.action =s "attach" && is_given a.host && not (is_given a.user)) ≡ false
  -- what kill and attach act on is named
  pub target : ((a.action =s "attach" || a.action =s "kill") && not (is_given a.target_id)) ≡ false
  -- config-render has its input
  pub rendered : (a.action =s "config-render" && not (truthy? a.config_json)) ≡ false

-- A result, if there is one, is consistent.
abbrev pub Consistent : Result ParsedArgs → Type 0
Consistent (ok a) = IsConsistent a
Consistent (err e) = Unit

-- The steps of a parser, the last of which builds the result.
pub Consistent-bind :
    {A : Type 0} (m : Result A) (f : A → Result ParsedArgs)
    → ((x : A) → m ≡ ok x → Consistent (f x))
    → Consistent (m >>= f)
Consistent-bind (ok x) f h = h x refl
Consistent-bind (err e) f h = tt

-- A parser that passed a test went on with the test false.
refused : (b : Bool) (msg : String) (u : Unit {0}) → refuse_if b msg ≡ ok u → b ≡ false
refused true msg u e = cc
refused false msg u e = refl

pub list_finish-Consistent :
    (corr_id : Option String) (s : ListVars) → Consistent (list_finish corr_id s)
unfolding list_finish
list_finish-Consistent corr_id s = Consistent-bind (no_extras "list" s.extras) _ λ _ _.
    Consistent-bind (refuse_if (is_given s.host && s.all_hosts) _) _ λ u e. record {
      one_git_mode = refl;
      new_only = refl;
      visibility = refl;
      one_scope = refused _ _ u e;
      attach_user = refl;
      target = refl;
      rendered = refl;
    }

pub kill_finish-Consistent :
    (target : String) (corr_id : Option String) (s : KillVars)
    → Consistent (kill_finish target corr_id s)
unfolding kill_finish
kill_finish-Consistent target corr_id s = Consistent-bind (no_extras "kill" s.extras) _ λ _ _.
    record {
      one_git_mode = refl;
      new_only = refl;
      visibility = refl;
      one_scope = ground arith;
      attach_user = refl;
      target = refl;
      rendered = refl;
    }

pub attach_finish-Consistent :
    (target : String) (corr_id : Option String) (s : AttachVars)
    → Consistent (attach_finish target corr_id s)
unfolding attach_finish
attach_finish-Consistent target corr_id s = Consistent-bind (no_extras "attach" s.extras) _ λ _ _.
    Consistent-bind (refuse_if (is_given s.host && not (is_given s.user)) _) _ λ u e. record {
      one_git_mode = refl;
      new_only = refl;
      visibility = refl;
      one_scope = ground arith;
      attach_user = refused _ _ u e;
      target = refl;
      rendered = refl;
    }

pub parse_version-Consistent : (rest : List String) → Consistent (parse_version rest)
unfolding parse_version
parse_version-Consistent rest =
    Consistent-bind (no_extras "version" (extras_of ("--json" ∷ []) rest)) _ λ _ _. record {
      one_git_mode = refl;
      new_only = refl;
      visibility = refl;
      one_scope = refl;
      attach_user = refl;
      target = refl;
      rendered = refl;
    }

pub parse_doctor-Consistent : (rest : List String) → Consistent (parse_doctor rest)
unfolding parse_doctor
parse_doctor-Consistent rest =
    Consistent-bind (no_extras "doctor" (extras_of ("--json" ∷ "--remote" ∷ []) rest)) _ λ _ _.
      record {
        one_git_mode = refl;
        new_only = refl;
        visibility = refl;
        one_scope = refl;
        attach_user = refl;
        target = refl;
        rendered = refl;
      }

pub parse_kill_all-Consistent : (rest : List String) → Consistent (parse_kill_all rest)
unfolding parse_kill_all
parse_kill_all-Consistent rest =
    Consistent-bind
      (no_extras "kill-all" (extras_of ("--dry-run" ∷ "--force" ∷ "--json" ∷ []) rest)) _
      λ _ _. record {
        one_git_mode = refl;
        new_only = refl;
        visibility = refl;
        one_scope = refl;
        attach_user = refl;
        target = refl;
        rendered = refl;
      }

-- the loop of `config render` never holds an empty path
abbrev NonEmpty? : Option String → Type 0
NonEmpty? o = (is_given o && not (truthy? o)) ≡ false

render_valued-NonEmpty :
    (s : RenderVars) (t v : String) (s' : RenderVars)
    → NonEmpty? s.config_json
    → render_grammar.takes_value t ≡ true
    → render_grammar.valued s t v ≡ ok s'
    → NonEmpty? s'.config_json
unfolding render_grammar
render_valued-NonEmpty s t v s' h o e = ground arith

render_plain-NonEmpty :
    (s : RenderVars) (t : String) (s' : RenderVars)
    → NonEmpty? s.config_json
    → render_grammar.plain s t ≡ ok s'
    → NonEmpty? s'.config_json
unfolding render_grammar
render_plain-NonEmpty s t s' h e = cc

render_missing-NonEmpty :
    (s : RenderVars) (t : String) (s' : RenderVars)
    → NonEmpty? s.config_json
    → render_grammar.missing s t ≡ ok s'
    → NonEmpty? s'.config_json
unfolding render_grammar
render_missing-NonEmpty s t s' h e = cc

render_input-Consistent :
    (o output : Option String) → NonEmpty? o → Consistent (render_input o output)
unfolding render_input
render_input-Consistent none output h = tt
render_input-Consistent (some path) output h = record {
  one_git_mode = refl;
  new_only = refl;
  visibility = refl;
  one_scope = refl;
  attach_user = refl;
  target = refl;
  rendered = h;
}

abbrev render_start : RenderVars
render_start = record { config_json = none; output = none }

pub parse_config-Consistent : (rest : List String) → Consistent (parse_config rest)
unfolding parse_config
parse_config-Consistent [] = tt
parse_config-Consistent (verb ∷ rest) =
    Consistent-bind (refuse_if (not (verb =s "render")) _) _ λ _ _.
      Consistent-bind (walk render_grammar render_start rest) _ λ s e.
        render_input-Consistent s.config_json s.output (
          walk_inv render_grammar (λ r. NonEmpty? r.config_json) render_valued-NonEmpty
            render_missing-NonEmpty render_plain-NonEmpty render_start rest s refl e)

pub run-IsConsistent : (a : ParsedArgs) → RunInv "run" a → IsConsistent a
run-IsConsistent a h = record {
  one_git_mode = h.one_git_mode;
  new_only = rw h.same_action h.new_only;
  visibility = h.visibility;
  one_scope = rw h.no_host;
  attach_user = rw h.same_action;
  target = rw h.same_action;
  rendered = rw h.same_action;
}

pub new-IsConsistent : (a : ParsedArgs) → RunInv "new" a → IsConsistent a
new-IsConsistent a h = record {
  one_git_mode = h.one_git_mode;
  new_only = rw h.same_action;
  visibility = h.visibility;
  one_scope = rw h.no_host;
  attach_user = rw h.same_action;
  target = rw h.same_action;
  rendered = rw h.same_action;
}

-- a computed result, taken apart
pub Consistent-of :
    (r : Result ParsedArgs) → ((a : ParsedArgs) → r ≡ ok a → IsConsistent a) → Consistent r
Consistent-of (ok a) h = h a refl
Consistent-of (err e) h = tt
