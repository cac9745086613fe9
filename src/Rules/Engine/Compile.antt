-- ===== src/Rules/Engine/Compile.antt =====
-- rules/engine.go: compileMinAge, NewEngine and the pool of main.go's newSSH.
pub mod Laws
pub mod Order
use avella.Common.{
  ℕ, Bool, true, false, List, [], ◌∷◌, Option, none, some, Result, ok, err, ◌>>=◌, map_error,
  traverse, is_empty, if◌then◌else◌,
}
use avella.Common.Dict.{Dict}
use avella.Common.Int.{ℤ, pos, ltb_ℤ}
use avella.Common.Text.{Text, str}
use avella.Actions.{Action, FromConfigError, from_config}
use avella.Config.{MatchRule, IgnoreRule, ActionConfig, Rule, Ssh}
use avella.Config.Validate.{ListName, action_list, on_success_list, on_fail_list}
use avella.Go.{Std}
use avella.Rules.Engine.{CompiledRule, CompiledIgnore, Engine}
use avella.Rules.Match.{seconds}

pub data EngineError : Type 0 where
  rule_regex : Text → EngineError
  rule_action : Text → ListName → ℕ → FromConfigError → EngineError
  ignore_regex : Text → EngineError

module _ (std : Std) where
  fallback_min_age : MatchRule → ℤ
  fallback_min_age m = if ltb_ℤ (pos 0) m.min_age_seconds then seconds m.min_age_seconds else pos 0

  unfoldable pub compile_min_age : MatchRule → ℤ
  unfolding fallback_min_age
  compile_min_age m = elim m.min_age [
    | [] ↦ fallback_min_age m
    | c ∷ s ↦ elim (std.parse_duration m.min_age) [ some d ↦ d | none ↦ fallback_min_age m ]
  ]

  compile_regex : Text → Result (Unit {0}) (Option std.Regexp)
  compile_regex [] = ok none
  compile_regex (c ∷ s) = elim (std.compile (c ∷ s)) [ none ↦ err tt | some re ↦ ok (some re) ]

  compile_actions :
      Option ℕ → Text → ListName → List ActionConfig → Result EngineError (List Action)
  compile_actions pool name list =
      traverse (λ j ac. map_error (rule_action name list j) (from_config ac pool)) 0

  compile_rule : Option ℕ → ℕ → Rule → Result EngineError (CompiledRule std)
  unfolding compile_regex compile_actions
  compile_rule pool i r = do
    re ← map_error (λ _. rule_regex r.name) (compile_regex r.criteria.filename_regex)
    acts ← compile_actions pool r.name action_list r.actions
    good ← compile_actions pool r.name on_success_list r.on_success
    bad ← compile_actions pool r.name on_fail_list r.on_fail
    ok (record {
      name = r.name;
      criteria = r.criteria;
      regex = re;
      min_age = compile_min_age r.criteria;
      actions = acts;
      on_success = good;
      on_fail = bad;
    })

  compile_ignore : ℕ → Text × IgnoreRule → Result EngineError (CompiledIgnore std)
  unfolding compile_regex
  compile_ignore i (name, ig) = do
    re ← map_error (λ _. ignore_regex name) (compile_regex ig.criteria.filename_regex)
    ok (record {
      name = name;
      criteria = ig.criteria;
      regex = re;
      min_age = compile_min_age ig.criteria;
    })

  unfoldable pub new_engine :
      List Rule → Dict Text IgnoreRule → Option ℕ → Bool → Result EngineError (Engine std)
  unfolding compile_rule compile_ignore traverse
  new_engine rules ignored pool dry_run = do
    compiled ← traverse (compile_rule pool) 0 rules
    ignores ← traverse compile_ignore 0 ignored
    ok (record { rules = compiled; ignores = ignores; dry_run = dry_run })

-- `newSSH`: a new pool, under the identity that it is given, if there are hosts.
unfoldable pub new_ssh : Dict Text Ssh → ℕ → Option ℕ
new_ssh hosts id = if is_empty hosts then none else some id
