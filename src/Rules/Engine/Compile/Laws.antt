-- ===== src/Rules/Engine/Compile/Laws.antt =====
-- NewEngine on a configuration that Validate accepts.
use avella.Common.Errors.Members.{length-traverse}
use avella.Common.{
  length, sym, ap, ◌∙◌, ℕ, ◌≡◌, ◌≢◌, refl, Bool, true, List, [], ◌∷◌, map, Option, none, some,
  Result, ok, err, ◌>>=◌, map_error, traverse, traverse-map, traverse_total, >>=-eq-ok,
  ok-injective, All, arith, Option-cases, Result-cases, ◌⊎◌, inl, inr,
}
use avella.Common.Dict.{Dict, lookup}
use avella.Common.Text.{Text, text_eq}
use avella.Actions.{FromConfigError, from_config}
use avella.Config.{MatchRule, IgnoreRule, ActionConfig, Rule, Ssh, Config}
use avella.Config.Validate.{has_action, ListName, action_list, on_success_list, on_fail_list}
use avella.Config.Validate.Spec.{IsValidMatch, IsValidAction, IsValidRule, IsValidConfig}
use avella.Go.{Std}
use avella.Go.Os.{Stat}
use avella.Rules.Engine.{CompiledRule, Engine}
use avella.Rules.Engine.Compile.{
  rule_action, compile_regex, compile_actions, compile_rule, compile_ignore, new_engine, new_ssh,
}

new_ssh_of_lookup :
    (hosts : Dict Text Ssh) (id : ℕ) (name : Text) (h : Ssh)
    → lookup name hosts ≡ some h
    → new_ssh hosts id ≡ some id
unfolding new_ssh lookup
new_ssh_of_lookup [] id name h e = cc
new_ssh_of_lookup (_ ∷ hosts) id name h e = refl

abbrev Succeeds {ℓ} : {E : Type 0} {A : Type ℓ} → Result E A → Type ℓ
Succeeds {A} r = (a : A) × (r ≡ ok a)

from_config-ne-err :
    (ac : ActionConfig) (pool : Option ℕ) (e : FromConfigError)
    → has_action ac ≡ true
    → ((ac.scp ≡ none) ⊎ ((id : ℕ) × (pool ≡ some id)))
    → from_config ac pool ≡ err e
    → ⊥
unfolding from_config has_action
from_config-ne-err ac pool e kind (inl no_scp) h = ground arith
from_config-ne-err ac pool e kind (inr (id, some_pool)) h = ground arith

-- A valid action can be made, since an upload's host shows that there is a pool.
from_config_valid :
    (hosts : Dict Text Ssh) (id : ℕ) (ac : ActionConfig)
    → IsValidAction hosts ac
    → Succeeds (from_config ac (new_ssh hosts id))
from_config_valid hosts id ac v = elim (Result-cases (from_config ac (new_ssh hosts id))) [
  | inl made ↦ made
  | inr (e, h) ↦ absurd (from_config-ne-err ac (new_ssh hosts id) e v.has_kind pool_given h)
]
  where
    pool_given : (ac.scp ≡ none) ⊎ ((p : ℕ) × (new_ssh hosts id ≡ some p))
    pool_given = elim (Option-cases ac.scp) [
      | inl no_scp ↦ inl no_scp
      | inr (c, e) ↦
          let (h, found) = v.host_known c e in inr (id, new_ssh_of_lookup hosts id c.host h found)
    ]

map_error-Succeeds {ℓ} :
    {E F : Type 0} {A : Type ℓ} (f : E → F) (r : Result E A) → Succeeds r → Succeeds (map_error f r)
map_error-Succeeds f r (a, e) = (a, rw e)

bind-Succeeds {ℓ κ} :
    {E : Type 0} {A : Type ℓ} {B : Type κ} (m : Result E A) (f : A → Result E B)
    → Succeeds m
    → ((a : A) → Succeeds (f a))
    → Succeeds (m >>= f)
bind-Succeeds m f (a, e) k = let (b, eb) = k a in (b, rw e eb)

compile_regex-Succeeds :
    (std : Std) (s : Text)
    → (s ≢ [] → (re : std.Regexp) × (std.compile s ≡ some re))
    → Succeeds (compile_regex std s)
unfolding compile_regex
compile_regex-Succeeds std [] h = (none, refl)
compile_regex-Succeeds std (c ∷ s) h = let (re, e) = h (λ p. cc) in (some re, rw (e, compile_regex))

compile_actions_valid :
    (std : Std) (hosts : Dict Text Ssh) (id : ℕ) (name : Text) (list : ListName)
    (acs : List ActionConfig)
    → All (IsValidAction hosts) acs
    → Succeeds (compile_actions std (new_ssh hosts id) name list acs)
unfolding compile_actions
compile_actions_valid std hosts id name list acs v =
    traverse_total _ (IsValidAction hosts)
      (λ j ac a. map_error-Succeeds (rule_action name list j) _ (from_config_valid hosts id ac a)) 0
      acs v

compile_rule_valid :
    (std : Std) (hosts : Dict Text Ssh) (id i : ℕ) (r : Rule)
    → IsValidRule std hosts r
    → Succeeds (compile_rule std (new_ssh hosts id) i r)
unfolding compile_rule
compile_rule_valid std hosts id i r v =
    bind-Succeeds _ _
      (map_error-Succeeds _ _
        (compile_regex-Succeeds std r.criteria.filename_regex v.criteria_valid.regex_compiles))
      λ re.
        bind-Succeeds _ _
          (compile_actions_valid std hosts id r.name action_list r.actions v.actions_valid)
          λ acts.
            bind-Succeeds _ _
              (compile_actions_valid std hosts id r.name on_success_list r.on_success
                v.on_success_valid)
              λ good.
                bind-Succeeds _ _
                  (compile_actions_valid std hosts id r.name on_fail_list r.on_fail v.on_fail_valid)
                  λ bad. (_, refl)

compile_ignore_valid :
    (std : Std) (i : ℕ) (entry : Text × IgnoreRule)
    → IsValidMatch std entry.1.criteria
    → Succeeds (compile_ignore std i entry)
unfolding compile_ignore
compile_ignore_valid std i (name, ig) v =
    bind-Succeeds _ _
      (map_error-Succeeds _ _
        (compile_regex-Succeeds std ig.criteria.filename_regex v.regex_compiles))
      λ re. (_, refl)

compile_rule-criteria :
    (std : Std) (pool : Option ℕ) (i : ℕ) (r : Rule) (cr : CompiledRule std)
    → compile_rule std pool i r ≡ ok cr
    → ◌≡◌ {A = Text × MatchRule} (cr.name, cr.criteria) (r.name, r.criteria)
unfolding compile_rule
compile_rule-criteria std pool i r cr h =
    let (_, _, h₁) = >>=-eq-ok (map_error _ (compile_regex std r.criteria.filename_regex)) _ h in
    let (_, _, h₂) = >>=-eq-ok (compile_actions std pool r.name action_list r.actions) _ h₁ in
    let (_, _, h₃) =
      >>=-eq-ok (compile_actions std pool r.name on_success_list r.on_success) _ h₂ in
    let (_, _, h₄) = >>=-eq-ok (compile_actions std pool r.name on_fail_list r.on_fail) _ h₃ in
    rw (← ok-injective h₄)

-- A valid configuration, with the pool that newSSH makes for it, always gives an engine: in the
-- mode asked for, with the rules in the configured order under their names and criteria.
pub new_engine_valid :
    (std : Std) (stat : Stat) (c : Config) (id : ℕ) (dry_run : Bool)
    → IsValidConfig std stat c
    → (e : Engine std) × (new_engine std c.rules c.ignored (new_ssh c.ssh_hosts id) dry_run ≡ ok e)
      × (e.dry_run ≡ dry_run)
      × (map {B = Text × MatchRule} (λ cr. (cr.name, cr.criteria)) e.rules
          ≡ map (λ r. (r.name, r.criteria)) c.rules)
unfolding new_engine
new_engine_valid std stat c id dry_run v =
    let (crs, e₁) =
      traverse_total (compile_rule std (new_ssh c.ssh_hosts id)) (IsValidRule std c.ssh_hosts)
        (compile_rule_valid std c.ssh_hosts id) 0 c.rules v.rules_valid in
    let (igs, e₂) =
      traverse_total (compile_ignore std) (λ entry. IsValidMatch std entry.1.criteria)
        (compile_ignore_valid std) 0 c.ignored v.ignores_valid in
    (
      record { rules = crs; ignores = igs; dry_run = dry_run },
      rw (e₁, e₂),
      refl,
      traverse-map (compile_rule std (new_ssh c.ssh_hosts id)) (λ cr. (cr.name, cr.criteria))
          (λ r. (r.name, r.criteria)) (compile_rule-criteria std (new_ssh c.ssh_hosts id)) 0 c.rules
          crs e₁,
    )

-- The engine starts in the mode that it is made with.
pub new_engine-dry_run :
    (std : Std) (rules : List Rule) (ignored : Dict Text IgnoreRule) (pool : Option ℕ)
    (dry_run : Bool) (e : Engine std)
    → new_engine std rules ignored pool dry_run ≡ ok e
    → e.dry_run ≡ dry_run
unfolding new_engine
new_engine-dry_run std rules ignored pool dry_run e h =
    let (_, _, h₁) = >>=-eq-ok (traverse (compile_rule std pool) 0 rules) _ h in
    let (_, _, h₂) = >>=-eq-ok (traverse (compile_ignore std) 0 ignored) _ h₁ in
    rw (← ok-injective h₂)

-- An engine has as many rules as its configuration.
pub new_engine-length :
    (std : Std) (rules : List Rule) (ignored : Dict Text IgnoreRule) (pool : Option ℕ)
    (dry_run : Bool) (e : Engine std)
    → new_engine std rules ignored pool dry_run ≡ ok e
    → length e.rules ≡ length rules
unfolding new_engine
new_engine-length std rules ignored pool dry_run e made =
    let (crs, compiled, rest) = >>=-eq-ok (traverse (compile_rule std pool) 0 rules) _ made in
    let (cis, ignores, built) = >>=-eq-ok (traverse (compile_ignore std) 0 ignored) _ rest in
    ap (λ (x : Engine std). length x.rules) (sym (ok-injective built))
    ∙ length-traverse (compile_rule std pool) 0 rules crs compiled
