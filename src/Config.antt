-- ===== src/Config.antt =====
-- config/config.go: the configuration and its action kinds.
pub mod Validate
pub mod Expand
use avella.Common.{Bool, ℕ, List, [], ◌∷◌, Option, none, some, is_some, ◌&&◌, ◌||◌, not}
use avella.Common.Dict.{Dict}
use avella.Common.Int.{ℤ}
use avella.Common.Text.{Text, str}

pub record MatchRule : Type 0 where
  pub filename_regex : Text
  pub filename_glob : Text
  pub file_type : Text
  pub min_age : Text
  pub min_age_seconds : ℤ
  pub min_size : ℤ
  pub max_size : ℤ

pub record IgnoreRule : Type 0 where
  pub criteria : MatchRule

pub record Ssh : Type 0 where
  pub host : Text
  pub user : Text
  pub key : Text
  pub agent_sock : Text

pub record MoveConfig : Type 0 where
  pub dest : Text

pub record ScpConfig : Type 0 where
  pub host : Text
  pub dest : Text
  pub delete_source : Bool

pub record ExecConfig : Type 0 where
  pub command : Text

pub record ValidateZipConfig : Type 0 where
  pub mode : Text

pub record NotifyConfig : Type 0 where
  pub message : Text

-- A pointer that may be nil is an option.
pub record ActionConfig : Type 0 where
  pub move : Option MoveConfig
  pub scp : Option ScpConfig
  pub exec : Option ExecConfig
  pub validate_zip : Option ValidateZipConfig
  pub notify : Option NotifyConfig

pub record Rule : Type 0 where
  pub name : Text
  pub criteria : MatchRule
  pub actions : List ActionConfig
  pub on_success : List ActionConfig
  pub on_fail : List ActionConfig

pub record Config : Type 0 where
  pub watch : List Text
  pub ssh_hosts : Dict Text Ssh
  pub ignored : Dict Text IgnoreRule
  pub rules : List Rule

-- `TypeName`: the first field set, in the order move, scp, exec, validate_zip, notify.
unfoldable pub type_name : ActionConfig → Text
type_name ac = elim ac.move [
  | some _ ↦ str "move"
  | none ↦ elim ac.scp [
    | some _ ↦ str "scp"
    | none ↦ elim ac.exec [
      | some _ ↦ str "exec"
      | none ↦ elim ac.validate_zip [
        | some _ ↦ str "validate_zip"
        | none ↦ elim ac.notify [ some _ ↦ str "notify" | none ↦ str "unknown" ]
      ]
    ]
  ]
]
