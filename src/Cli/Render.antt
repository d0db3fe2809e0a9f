-- ===== src/Cli/Render.antt =====
-- The `config render` branch of `parse_subcommand` in src/uxon/cli/parsing.py.
use uxon.Prelude.{
  String, not, Option, none, some, List, [], ◌∷◌, ◌=s◌, ◌+s◌, one_of, truthy, if◌then◌else◌, Result,
  ok, fail, ◌>>=◌, ◌>>◌, refuse_if,
}
use uxon.Cli.Args.{ParsedArgs, args_for, is_given}
use uxon.Cli.Walk.{Grammar, walk}

-- the local variables of `config render`
pub record RenderVars : Type 0 where
  pub config_json : Option String
  pub output : Option String

render_valued : RenderVars → String → String → Result RenderVars
render_valued s token v = do
  refuse_if (not (truthy v)) (token +s " requires a non-empty path or '-'")
  if token =s "--config-json"
      then (do
        refuse_if (is_given s.config_json) "--config-json may be specified only once"
        ok (record s { config_json = some v }))
      else ok (record s { output = some v })

unfoldable pub render_grammar : Grammar RenderVars
unfolding render_valued
render_grammar = record {
  takes_value = λ token. one_of token ("--config-json" ∷ "--output" ∷ []);
  valued = render_valued;
  missing = λ s token. fail (token +s " requires a path or '-'");
  plain = λ s token. fail ("unknown args for config render: " +s token);
}

-- the `ParsedArgs` of the branch, which needs --config-json
unfoldable pub render_input : Option String → Option String → Result ParsedArgs
render_input none output = fail "config render requires --config-json <path|->"
render_input (some path) output =
    let args = args_for "config-render" in
    ok (record args { config_json = some path; output = output })

unfoldable pub parse_config : List String → Result ParsedArgs
parse_config [] = fail "config requires the 'render' action"
parse_config (verb ∷ rest) = do
  refuse_if (not (verb =s "render")) "config requires the 'render' action"
  s ← walk render_grammar (record { config_json = none; output = none }) rest
  render_input s.config_json s.output
