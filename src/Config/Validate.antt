-- ===== src/Config/Validate.antt =====
-- config/config.go: Validate and the checks that it makes, in their order.
pub mod Spec
pub mod Laws
use avella.Common.{
  ℕ, suc, List, [], ◌∷◌, Option, none, some, is_some, Result, ok, err, ◌>>=◌, ◌>>◌, map_error, Bool,
  true, false, not, ◌||◌, ◌==◌, contains, is_empty,
}
use avella.Common.Dict.{Dict, lookup}
use avella.Common.Text.{Text, str, text_eq}
use avella.Config.{
  MatchRule, IgnoreRule, Ssh, ScpConfig, ValidateZipConfig, ActionConfig, Rule, Config,
}
use avella.Go.{Std}
use avella.Go.Os.{Stat, OsError, FileInfo}
use avella.Template.FileType.{
  type_video, type_image, type_audio, type_document, type_archive, type_other,
}

pub data MatchError : Type 0 where
  invalid_regex : Text → MatchError
  invalid_glob : Text → MatchError
  invalid_file_type : Text → MatchError
  invalid_min_age : Text → MatchError

pub data ActionError : Type 0 where
  no_action_type : ActionError
  unknown_host : Text → ActionError
  invalid_mode : Text → ActionError

pub data ListName : Type 0 where
  action_list on_success_list on_fail_list : ListName

pub data ConfigError : Type 0 where
  no_watch : ConfigError
  watch_failed : Text → OsError → ConfigError
  watch_not_dir : Text → ConfigError
  bad_ignore : Text → MatchError → ConfigError
  rule_unnamed : ℕ → ConfigError
  bad_rule : Text → MatchError → ConfigError
  bad_action : Text → ListName → ℕ → ActionError → ConfigError

abbrev pub Checked : Type 0 → Type 0
Checked E = Result E (Unit {0})

-- A loop over a list that returns the first error.
unfoldable pub each {ℓ} : {A : Type ℓ} {E : Type 0} → (ℕ → A → Checked E) → ℕ → List A → Checked E
each f i [] = ok tt
each f i (x ∷ xs) = f i x >> each f (suc i) xs

-- `if test { return err }`
abbrev pub fail_if : {E : Type 0} → Bool → E → Checked E
fail_if true e = err e
fail_if false e = ok tt

-- A check that a criterion gets if its text is not empty.
abbrev pub if_set : {E : Type 0} → Text → Checked E → Checked E
if_set [] check = ok tt
if_set (c ∷ s) check = check

abbrev pub file_types : List Text
file_types = type_video ∷ type_image ∷ type_audio ∷ type_document ∷ type_archive ∷ type_other ∷ []

module _ (std : Std) where
  unfoldable pub validate_match_rule : MatchRule → Checked MatchError
  validate_match_rule m = do
    if_set m.filename_regex
        (fail_if (not (is_some (std.compile m.filename_regex))) (invalid_regex m.filename_regex))
    if_set m.filename_glob (
        fail_if (not (is_some (std.glob m.filename_glob (str "test"))))
          (invalid_glob m.filename_glob))
    if_set m.file_type
        (fail_if (not (contains file_types m.file_type)) (invalid_file_type m.file_type))
    if_set m.min_age
        (fail_if (not (is_some (std.parse_duration m.min_age))) (invalid_min_age m.min_age))

check_host : Dict Text Ssh → Option ScpConfig → Checked ActionError
check_host hosts none = ok tt
check_host hosts (some scp) =
    fail_if (not (is_some (lookup scp.host hosts))) (unknown_host scp.host)

check_mode : Option ValidateZipConfig → Checked ActionError
check_mode none = ok tt
check_mode (some zip) =
    fail_if (not (zip.mode == str "true" || zip.mode == str "full")) (invalid_mode zip.mode)

unfoldable pub has_action : ActionConfig → Bool
has_action ac =
    is_some ac.move
    || is_some ac.scp
    || is_some ac.exec
    || is_some ac.validate_zip
    || is_some ac.notify

unfoldable pub validate_action : Dict Text Ssh → ActionConfig → Checked ActionError
unfolding check_host check_mode has_action
validate_action hosts ac = do
  fail_if (not (has_action ac)) no_action_type
  check_host hosts ac.scp
  check_mode ac.validate_zip

validate_actions : Dict Text Ssh → Text → ListName → List ActionConfig → Checked ConfigError
unfolding each
validate_actions hosts name list =
    each (λ j ac. map_error (bad_action name list j) (validate_action hosts ac)) 0

validate_watch : Stat → ℕ → Text → Checked ConfigError
validate_watch stat i dir = do
  info ← map_error (watch_failed dir) (stat dir)
  fail_if (not info.is_dir) (watch_not_dir dir)

module _ (std : Std) where
  unfoldable pub validate_rule : Dict Text Ssh → ℕ → Rule → Checked ConfigError
  unfolding validate_actions
  validate_rule hosts index rule = do
    fail_if (is_empty rule.name) (rule_unnamed index)
    map_error (bad_rule rule.name) (validate_match_rule std rule.criteria)
    validate_actions hosts rule.name action_list rule.actions
    validate_actions hosts rule.name on_success_list rule.on_success
    validate_actions hosts rule.name on_fail_list rule.on_fail

  validate_ignore : ℕ → Text × IgnoreRule → Checked ConfigError
  validate_ignore i (name, ig) = map_error (bad_ignore name) (validate_match_rule std ig.criteria)

  unfoldable pub validate : Stat → Config → Checked ConfigError
  unfolding validate_rule validate_ignore validate_watch each
  validate stat c = do
    fail_if (is_empty c.watch) no_watch
    each (validate_watch stat) 0 c.watch
    each validate_ignore 0 c.ignored
    each (validate_rule c.ssh_hosts) 0 c.rules
