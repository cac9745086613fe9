-- ===== src/Config/Expand/Laws.antt =====
-- What expandPaths and Load guarantee.
use avella.Common.{
  ◌≡◌, List, map, Option, ok, map_error, arith, >>=-eq-ok, traverse, traverse-map, ok-injective,
}
use avella.Common.Text.{Text, text_eq}
use avella.Config.{Rule, Config, ActionConfig}
use avella.Config.Expand.{
  expand_paths, expand_rule, expand_watch, expand_host, load, read_config_file, expand_config_path,
  expand_failed, invalid,
}
use avella.Config.Validate.{validate}
use avella.Config.Validate.Laws.{validate-ok_iff, map_error-ok_iff}
use avella.Config.Validate.Spec.{IsValidConfig}
use avella.Go.{Std}
use avella.Go.Os.{HomeDir, Stat}
use avella.PathUtil.{expand_home}

abbrev pub hooks : Rule → List ActionConfig × List ActionConfig
hooks r = (r.on_success, r.on_fail)

expand_rule-hooks : (home : HomeDir) (r r' : Rule) → expand_rule home r ≡ ok r' → hooks r' ≡ hooks r
unfolding expand_rule
expand_rule-hooks home r r' h = ground arith

-- expandPaths leaves every rule's hooks as they were read, also a hook that moves to a `~` path.
expand_paths-hooks :
    (home : HomeDir) (c c' : Config)
    → expand_paths home c ≡ ok c'
    → map hooks c'.rules ≡ map hooks c.rules
unfolding expand_paths
expand_paths-hooks home c c' h =
    let (w, ew, h₁) = >>=-eq-ok (traverse (λ _. expand_watch home) 0 c.watch) _ h in
    let (s, es, h₂) = >>=-eq-ok (traverse (λ _. expand_host home) 0 c.ssh_hosts) _ h₁ in
    let (rs, er, h₃) = >>=-eq-ok (traverse (λ _. expand_rule home) 0 c.rules) _ h₂ in
    rw (← ok-injective h₃)
      (traverse-map _ hooks hooks (λ _. expand_rule-hooks home) 0 c.rules rs er)

-- A configuration that Load returns is valid.
pub load-IsValidConfig :
    (std : Std) (read : Text → Option Config) (home : HomeDir) (stat : Stat) (path : Text)
    (c : Config)
    → load std read home stat path ≡ ok c
    → IsValidConfig std stat c
unfolding load
load-IsValidConfig std read home stat path c h =
    let (p, _, h₁) = >>=-eq-ok (map_error expand_config_path (expand_home home path)) _ h in
    let (c₀, _, h₂) = >>=-eq-ok (read_config_file std read home stat p) _ h₁ in
    let (c₁, _, h₃) = >>=-eq-ok (map_error expand_failed (expand_paths home c₀)) _ h₂ in
    let (_, checked, e) = >>=-eq-ok (map_error invalid (validate std stat c₁)) _ h₃ in
    rw (← ok-injective e)
      ((validate-ok_iff std stat c₁).0 ((map_error-ok_iff invalid _ (λ h. h, λ h. h)).0 checked))
