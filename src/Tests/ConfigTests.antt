-- ===== src/Tests/ConfigTests.antt =====
-- Tests of the configuration, and its theorems at the sample configuration.
use avella.Common.{◌≡◌, refl, ◌↔◌, false, [], ◌∷◌, map, Option, some, ok, ℕ_discrete}
use avella.Common.Dict.{lookup}
use avella.Common.Text.{Text, str, text_eq}
use avella.Config.{MatchRule, Config}
use avella.Config.Expand.{expand_paths, load}
use avella.Config.Expand.Laws.{load-IsValidConfig}
use avella.Config.Validate.{validate, validate_match_rule, validate_action}
use avella.Config.Validate.Laws.{validate-ok_iff}
use avella.Config.Validate.Spec.{IsValidConfig}
use avella.Go.FilePath.{join}
use avella.Go.Os.{HomeDir}
use avella.PathUtil.{expand_home}
use avella.Rules.Engine.{Engine}
use avella.Rules.Engine.Compile.{new_engine, new_ssh}
use avella.Rules.Engine.Compile.Laws.{new_engine_valid}
use avella.Tests.{go, disk, nas, move_to, upload, film_config, config}

abbrev home : HomeDir
home = ok (str "/home/me")

abbrev pub read : Text → Option Config
read path = some config

-- The configuration that Load makes of it: the hook's `~` stays.
abbrev pub expanded_config : Config
expanded_config = record config {
  ssh_hosts = (str "nas", record nas { key = str "/home/me/.ssh/id" }) ∷ [];
  rules = record film_config { actions = move_to (str "/home/me/films") ∷ upload ∷ [] } ∷ [];
}

config_expanded : expand_paths home config ≡ ok expanded_config
unfolding expand_paths expand_home text_eq ℕ_discrete join
config_expanded = refl

pub config_loaded : load go read home disk (str "/home/me/avella.toml") ≡ ok expanded_config
unfolding load expand_paths expand_home validate validate_match_rule validate_action lookup join
    text_eq ℕ_discrete
config_loaded = refl

config_valid : IsValidConfig go disk expanded_config
config_valid =
    load-IsValidConfig go read home disk (str "/home/me/avella.toml") expanded_config config_loaded

validate-ok_iff_example :
    (validate go disk expanded_config ≡ ok tt) ↔ IsValidConfig go disk expanded_config
validate-ok_iff_example = validate-ok_iff go disk expanded_config

new_engine_valid_example :
    (e : Engine go) × (new_engine go expanded_config.rules expanded_config.ignored
        (new_ssh expanded_config.ssh_hosts 7)
        false
      ≡ ok e)
    × (e.dry_run ≡ false)
    × (map {B = Text × MatchRule} (λ cr. (cr.name, cr.criteria)) e.rules
        ≡ map (λ r. (r.name, r.criteria)) expanded_config.rules)
new_engine_valid_example = new_engine_valid go disk expanded_config 7 false config_valid
