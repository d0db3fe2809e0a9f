-- ===== src/Cli/Args.antt =====
-- src/uxon/domain/args.py, with the report types of domain/host_report.py that a `ParsedArgs` holds.
use uxon.Prelude.{String, Bool, true, false, Option, none, some, List, [], ◌∷◌, ◌=s◌, if◌then◌else◌}
use uxon.Session.Identity.{SessionIdentity}

pub record BinaryStatus : Type 0 where
  pub name : String
  pub path : Option String
  pub install_hint : String

pub record HostReport : Type 0 where
  pub tmux : BinaryStatus
  pub agents : List (String × BinaryStatus)
  pub launch_user : String

pub record ParsedArgs : Type 0 where
  pub action : String
  pub target_id : Option String
  pub worktree_branch : Option String
  pub repeat_mode : Option String
  pub dry_run : Bool
  pub force : Bool
  pub all_users : Bool
  pub profile : Option String
  pub permission_mode : Option String
  pub agent_args : List String
  pub git_remote : Option String
  pub no_git : Bool
  pub git_visibility : Option String
  pub json_output : Bool
  pub host : Option String
  pub all_hosts : Bool
  pub user : Option String
  pub config_json : Option String
  pub output : Option String
  pub audit_correlation_id : Option String
  pub expected_session : Option SessionIdentity
  pub host_report : Option HostReport

-- ParsedArgs(action=action): every other field has its default
abbrev pub args_for : String → ParsedArgs
args_for action = record {
  action = action;
  target_id = none;
  worktree_branch = none;
  repeat_mode = none;
  dry_run = false;
  force = false;
  all_users = false;
  profile = none;
  permission_mode = none;
  agent_args = [];
  git_remote = none;
  no_git = false;
  git_visibility = none;
  json_output = false;
  host = none;
  all_hosts = false;
  user = none;
  config_json = none;
  output = none;
  audit_correlation_id = none;
  expected_session = none;
  host_report = none;
}

abbrev pub subcommands : List String
subcommands =
    "run" ∷ "list" ∷ "attach" ∷ "kill" ∷ "kill-all" ∷ "new" ∷ "version" ∷ "doctor" ∷ "config" ∷ []

abbrev pub is_given {ℓ} : {A : Type ℓ} → Option A → Bool
is_given none = false
is_given (some x) = true

-- option == text
abbrev pub is_text : Option String → String → Bool
is_text none t = false
is_text (some s) t = s =s t

-- the table `fields` of `owned_option_flags`
abbrev flag_table : ParsedArgs → List (Bool × String)
flag_table args =
    (is_given args.worktree_branch, "--worktree")
    ∷ (is_text args.repeat_mode "attach", "--attach-existing")
    ∷ (is_text args.repeat_mode "new", "--new-session")
    ∷ (args.dry_run, "--dry-run")
    ∷ (args.force, "--force")
    ∷ (args.all_users, "--all-users")
    ∷ (is_given args.profile, "--profile")
    ∷ (is_given args.permission_mode, "--mode")
    ∷ (is_given args.git_remote, "--git-remote")
    ∷ (args.no_git, "--no-git")
    ∷ (is_given args.git_visibility, "--git-visibility")
    ∷ (args.json_output, "--json")
    ∷ (is_given args.host, "--host")
    ∷ (args.all_hosts, "--all-hosts")
    ∷ (is_given args.user, "--user")
    ∷ (is_given args.config_json, "--config-json")
    ∷ (is_given args.output, "--output")
    ∷ []

names_enabled : List (Bool × String) → List String
names_enabled [] = []
names_enabled ((enabled, name) ∷ rest) =
    let names = names_enabled rest in if enabled then name ∷ names else names

unfoldable pub owned_option_flags : ParsedArgs → List String
unfolding names_enabled
owned_option_flags args = names_enabled (flag_table args)
