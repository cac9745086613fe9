-- ===== src/Config/Validate/Spec.antt =====
-- What a valid configuration is, independent of the order of the checks in config/config.go.
use avella.Common.{◌≡◌, ◌≢◌, ◌⊎◌, [], some, Bool, true, contains, All, ok}
use avella.Common.Dict.{Dict, lookup}
use avella.Common.Int.{ℤ}
use avella.Common.Text.{Text, str, text_eq}
use avella.Config.{MatchRule, Ssh, ScpConfig, ValidateZipConfig, ActionConfig, Rule, Config}
use avella.Config.Validate.{file_types, has_action}
use avella.Go.{Std}
use avella.Go.Os.{Stat, FileInfo}

module _ (std : Std) where
  -- Each criterion that is given can be used.
  pub record IsValidMatch (m : MatchRule) : Type 0 where
    pub regex_compiles :
        m.filename_regex ≢ [] → (re : std.Regexp) × (std.compile m.filename_regex ≡ some re)
    pub glob_parses :
        m.filename_glob ≢ [] → (b : Bool) × (std.glob m.filename_glob (str "test") ≡ some b)
    pub type_known : m.file_type ≢ [] → contains file_types m.file_type ≡ true
    pub age_parses : m.min_age ≢ [] → (d : ℤ) × (std.parse_duration m.min_age ≡ some d)

-- An action has a kind, uploads to a configured host, and checks a ZIP file in a known mode.
pub record IsValidAction (hosts : Dict Text Ssh) (ac : ActionConfig) : Type 0 where
  pub has_kind : has_action ac ≡ true
  pub host_known :
      (scp : ScpConfig) → ac.scp ≡ some scp → (h : Ssh) × (lookup scp.host hosts ≡ some h)
  pub mode_known :
      (zip : ValidateZipConfig)
      → ac.validate_zip ≡ some zip
      → (zip.mode ≡ str "true") ⊎ (zip.mode ≡ str "full")

abbrev pub IsDir : Stat → Text → Type 0
IsDir stat dir = (info : FileInfo) × (stat dir ≡ ok info) × (info.is_dir ≡ true)

module _ (std : Std) where
  pub record IsValidRule (hosts : Dict Text Ssh) (r : Rule) : Type 0 where
    pub named : r.name ≢ []
    pub criteria_valid : IsValidMatch std r.criteria
    pub actions_valid : All (IsValidAction hosts) r.actions
    pub on_success_valid : All (IsValidAction hosts) r.on_success
    pub on_fail_valid : All (IsValidAction hosts) r.on_fail

  pub record IsValidConfig (stat : Stat) (c : Config) : Type 0 where
    pub watches : c.watch ≢ []
    pub dirs : All (IsDir stat) c.watch
    pub ignores_valid : All (λ (_, ig). IsValidMatch std ig.criteria) c.ignored
    pub rules_valid : All (IsValidRule c.ssh_hosts) c.rules
