-- ===== src/Config/Validate/Laws.antt =====
-- Validate accepts exactly the valid configurations. Each check is matched with its part of the
-- specification; the loops go by `each-ok_iff`.
use mathlib.Core.Option.{some-injective}
use avella.Common.{
  subst, ℕ, suc, ◌≡◌, refl, ◌≢◌, ◌⊎◌, ◌↔◌, List, [], ◌∷◌, Option, none, some, Bool, true, false, ok,
  err, ◌>>=◌, ◌>>◌, map_error, All, arith, is_some, not, is_empty, Result,
}
use avella.Common.Dict.{Dict, lookup}
use avella.Common.Text.{Text, str, text_eq}
use avella.Config.{MatchRule, Ssh, ScpConfig, ValidateZipConfig, ActionConfig, Rule, Config}
use avella.Config.Validate.{
  Checked, each, fail_if, if_set, has_action, validate_match_rule, validate_action,
  validate_actions, validate_rule, watch_failed, watch_not_dir, validate, check_host, check_mode,
  ListName, action_list, on_success_list, on_fail_list, bad_action, bad_ignore,
}
use avella.Config.Validate.Spec.{IsValidMatch, IsValidAction, IsValidRule, IsValidConfig, IsDir}
use avella.Go.{Std}
use avella.Go.Os.{Stat, FileInfo, OsError}

module _ {E : Type 0} where
  pub >>-ok_iff : (m k : Checked E) → ((m >> k) ≡ ok tt) ↔ ((m ≡ ok tt) × (k ≡ ok tt))
  >>-ok_iff (ok tt) k = (λ h. (refl, h), λ h. h.1)
  >>-ok_iff (err e) k = (λ h. cc, λ h. cc)

  pub fail_if-ok_iff : (b : Bool) (e : E) → (fail_if b e ≡ ok tt) ↔ (b ≡ false)
  fail_if-ok_iff true e = (λ h. cc, λ h. cc)
  fail_if-ok_iff false e = (λ h. refl, λ h. refl)

  -- A check made only when its text is set.
  pub if_set-ok_iff {ℓ} :
      {Q : Type ℓ} (s : Text) (check : Checked E)
      → ((check ≡ ok tt) ↔ Q)
      → (if_set s check ≡ ok tt) ↔ (s ≢ [] → Q)
  if_set-ok_iff [] check h = (λ _ set. absurd (set refl), λ _. refl)
  if_set-ok_iff (c ∷ s) check h = (λ e _. h.0 e, λ q. h.1 (q (λ e. cc)))

  pub fail_unless-ok_iff {ℓ} :
      {Q : Type ℓ} (b : Bool) (e : E) → ((b ≡ true) ↔ Q) → (fail_if (not b) e ≡ ok tt) ↔ Q
  fail_unless-ok_iff true e h = (λ _. h.0 refl, λ _. refl)
  fail_unless-ok_iff false e h = (λ p. cc, λ q. cc (h.1 q))

  pub seq-ok_iff {ℓ κ} :
      {P : Type ℓ} {Q : Type κ} {m k : Checked E}
      → ((m ≡ ok tt) ↔ P)
      → ((k ≡ ok tt) ↔ Q)
      → ((m >> k) ≡ ok tt) ↔ (P × Q)
  seq-ok_iff {m} {k} p q =
      let both = >>-ok_iff m k in
      (λ h. (p.0 (both.0 h).0, q.0 (both.0 h).1), λ a. both.1 (p.1 a.0, q.1 a.1))

  pub map_error-ok_iff {ℓ} :
      {F : Type 0} {P : Type ℓ} (f : E → F) (m : Checked E)
      → ((m ≡ ok tt) ↔ P)
      → (map_error f m ≡ ok tt) ↔ P
  map_error-ok_iff f (ok tt) h = (λ _. h.0 refl, λ _. refl)
  map_error-ok_iff f (err e) h = (λ p. cc, λ q. cc (h.1 q))

  pub non_empty-ok_iff {ℓ} :
      {A : Type ℓ} (xs : List A) (e : E) → (fail_if (is_empty xs) e ≡ ok tt) ↔ (xs ≢ [])
  non_empty-ok_iff [] e = (λ h. cc, λ h. absurd (h refl))
  non_empty-ok_iff (x ∷ xs) e = (λ h p. cc, λ _. refl)

-- A loop succeeds exactly if each element passes; the index only names the error.
pub each-ok_iff {ℓ κ} :
    {A : Type ℓ} {E : Type 0} (P : A → Type κ) (f : ℕ → A → Checked E)
    → ((i : ℕ) (x : A) → (f i x ≡ ok tt) ↔ P x)
    → (i : ℕ) (xs : List A) → (each f i xs ≡ ok tt) ↔ All P xs
unfolding each
each-ok_iff P f h i [] = (λ _. tt, λ _. refl)
each-ok_iff P f h i (x ∷ xs) =
    let first = >>-ok_iff (f i x) (each f (suc i) xs) in
    let rest = each-ok_iff P f h (suc i) xs in
    (λ e. ((h i x).0 (first.0 e).0, rest.0 (first.0 e).1), λ a. first.1 ((h i x).1 a.0, rest.1 a.1))

some_iff {ℓ} : {A : Type ℓ} (o : Option A) → (is_some o ≡ true) ↔ ((a : A) × (o ≡ some a))
some_iff none = (λ h. cc, λ (a, e). cc)
some_iff (some a) = (λ h. (a, refl), λ h. refl)

pub validate_match_rule-ok_iff :
    (std : Std) (m : MatchRule) → (validate_match_rule std m ≡ ok tt) ↔ IsValidMatch std m
unfolding validate_match_rule
validate_match_rule-ok_iff std m =
    let parts =
      seq-ok_iff (if_set-ok_iff m.filename_regex _ (fail_unless-ok_iff _ _ (some_iff _))) (
        seq-ok_iff (if_set-ok_iff m.filename_glob _ (fail_unless-ok_iff _ _ (some_iff _))) (
          seq-ok_iff (if_set-ok_iff m.file_type _ (fail_unless-ok_iff _ _ (λ h. h, λ h. h)))
            (if_set-ok_iff m.min_age _ (fail_unless-ok_iff _ _ (some_iff _))))) in
    (
      λ h.
          let (re, (gl, (ty, age))) = parts.0 h in
          record { regex_compiles = re; glob_parses = gl; type_known = ty; age_parses = age },
      λ v. parts.1 (v.regex_compiles, (v.glob_parses, (v.type_known, v.age_parses))),
    )

check_host-ok_iff :
    (hosts : Dict Text Ssh) (o : Option ScpConfig)
    → (check_host hosts o ≡ ok tt)
      ↔ ((scp : ScpConfig) → o ≡ some scp → (h : Ssh) × (lookup scp.host hosts ≡ some h))
unfolding check_host
check_host-ok_iff hosts none = (λ _ scp e. cc, λ _. refl)
check_host-ok_iff hosts (some s) =
    let found = fail_unless-ok_iff _ _ (some_iff (lookup s.host hosts)) in
    (
      λ h scp e.
          subst (λ c. (h : Ssh) × (lookup c.host hosts ≡ some h)) (some-injective s scp e)
            (found.0 h),
      λ all. found.1 (all s refl),
    )

check_mode-ok_iff :
    (o : Option ValidateZipConfig)
    → (check_mode o ≡ ok tt) ↔ (
        (zip : ValidateZipConfig)
        → o ≡ some zip
        → (zip.mode ≡ str "true") ⊎ (zip.mode ≡ str "full"))
unfolding check_mode
check_mode-ok_iff none = (λ _ zip e. cc, λ _. refl)
check_mode-ok_iff (some z) = (λ h zip e. ground arith, λ all. ground (arith, all z refl))

pub validate_action-ok_iff :
    (hosts : Dict Text Ssh) (ac : ActionConfig)
    → (validate_action hosts ac ≡ ok tt) ↔ IsValidAction hosts ac
unfolding validate_action
validate_action-ok_iff hosts ac =
    let parts =
      seq-ok_iff (fail_unless-ok_iff (has_action ac) _ (λ h. h, λ h. h))
        (seq-ok_iff (check_host-ok_iff hosts ac.scp) (check_mode-ok_iff ac.validate_zip)) in
    (
      λ h.
          let (kind, (host, mode)) = parts.0 h in
          record { has_kind = kind; host_known = host; mode_known = mode },
      λ v. parts.1 (v.has_kind, (v.host_known, v.mode_known)),
    )

validate_actions-ok_iff :
    (hosts : Dict Text Ssh) (name : Text) (list : ListName) (acs : List ActionConfig)
    → (validate_actions hosts name list acs ≡ ok tt) ↔ All (IsValidAction hosts) acs
unfolding validate_actions
validate_actions-ok_iff hosts name list acs =
    each-ok_iff (IsValidAction hosts) _
      (λ j ac. map_error-ok_iff (bad_action name list j) _ (validate_action-ok_iff hosts ac)) 0 acs

pub validate_rule-ok_iff :
    (std : Std) (hosts : Dict Text Ssh) (index : ℕ) (rule : Rule)
    → (validate_rule std hosts index rule ≡ ok tt) ↔ IsValidRule std hosts rule
unfolding validate_rule
validate_rule-ok_iff std hosts index rule =
    let parts = seq-ok_iff (non_empty-ok_iff rule.name _) (
      seq-ok_iff (map_error-ok_iff _ _ (validate_match_rule-ok_iff std rule.criteria)) (
        seq-ok_iff (validate_actions-ok_iff hosts rule.name action_list rule.actions) (
          seq-ok_iff (validate_actions-ok_iff hosts rule.name on_success_list rule.on_success)
            (validate_actions-ok_iff hosts rule.name on_fail_list rule.on_fail)))) in
    (
      λ h.
          let (n, (m, (a, (s, f)))) = parts.0 h in
          record {
            named = n;
            criteria_valid = m;
            actions_valid = a;
            on_success_valid = s;
            on_fail_valid = f;
          },
      λ v.
          parts.1
            (v.named, (v.criteria_valid, (v.actions_valid, (v.on_success_valid, v.on_fail_valid)))),
    )

check_dir-ok_iff :
    (dir : Text) (r : Result OsError FileInfo)
    → ((map_error (watch_failed dir) r >>= λ info. fail_if (not info.is_dir) (watch_not_dir dir))
        ≡ ok tt)
      ↔ ((info : FileInfo) × (r ≡ ok info) × (info.is_dir ≡ true))
check_dir-ok_iff dir (ok info) = (λ h. (info, refl, ground arith), λ d. ground arith)
check_dir-ok_iff dir (err x) = (λ h. cc, λ d. ground arith)

-- Validate succeeds exactly on the configurations that meet the specification.
pub validate-ok_iff :
    (std : Std) (stat : Stat) (c : Config)
    → (validate std stat c ≡ ok tt) ↔ IsValidConfig std stat c
unfolding validate
validate-ok_iff std stat c =
    let parts = seq-ok_iff (non_empty-ok_iff c.watch _) (
      seq-ok_iff (each-ok_iff (IsDir stat) _ (λ i dir. check_dir-ok_iff dir (stat dir)) 0 c.watch) (
        seq-ok_iff
          (each-ok_iff (λ (_, ig). IsValidMatch std ig.criteria) _
            (λ i (name, ig).
              map_error-ok_iff (bad_ignore name) _ (validate_match_rule-ok_iff std ig.criteria))
            0 c.ignored)
          (each-ok_iff (IsValidRule std c.ssh_hosts) _ (validate_rule-ok_iff std c.ssh_hosts) 0
            c.rules))) in
    (
      λ h.
          let (w, (d, (i, r))) = parts.0 h in
          record { watches = w; dirs = d; ignores_valid = i; rules_valid = r },
      λ v. parts.1 (v.watches, (v.dirs, (v.ignores_valid, v.rules_valid))),
    )
