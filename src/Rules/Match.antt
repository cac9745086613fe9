-- ===== src/Rules/Match.antt =====
-- rules/match.go: whether a file meets the criteria of a rule.
pub mod Laws
use avella.Common.{
  ℕ, ◌*◌, ◌^◌, Bool, true, false, not, ◌&&◌, Option, none, some, is_empty, if◌then◌else◌, ◌==◌,
}
use avella.Common.Int.{ℤ, pos, negsuc, ltb_ℤ, ◌-ℤ◌, to_int64, clamp_int64, int_eq}
use avella.Common.Text.{Text}
use avella.Config.{MatchRule}
use avella.Go.{Std}
use avella.Go.FilePath.{base}
use avella.Go.Os.{FileInfo}
use avella.Go.Strings.{equal_fold}
use avella.Template.{bare_ext}
use avella.Template.FileType.{classify_ext}

-- `time.Duration(n) * time.Second` for n > 0, on 64 bits.
unfoldable pub seconds : ℤ → ℤ
seconds (pos n) = to_int64 (n * 1_000_000_000)
seconds (negsuc n) = pos 0

-- `time.Since` of a time, at a moment.
unfoldable pub since : ℤ → ℤ → ℤ
since now mod_time = clamp_int64 (now -ℤ mod_time)

unfoldable pub effective_min_age : MatchRule → ℤ → ℤ
effective_min_age rule min_age =
    if min_age == pos 0 && ltb_ℤ (pos 0) rule.min_age_seconds
    then seconds rule.min_age_seconds
    else min_age

glob_matches : Option Bool → Bool
glob_matches none = false
glob_matches (some b) = b

too_young : MatchRule → FileInfo → ℤ → ℤ → Bool
too_young rule info min_age now =
    ltb_ℤ (pos 0) (effective_min_age rule min_age)
    && ltb_ℤ (since now info.mod_time) (effective_min_age rule min_age)

too_small : MatchRule → FileInfo → Bool
too_small rule info = ltb_ℤ (pos 0) rule.min_size && ltb_ℤ info.size rule.min_size

too_large : MatchRule → FileInfo → Bool
too_large rule info = ltb_ℤ (pos 0) rule.max_size && ltb_ℤ rule.max_size info.size

module _ (std : Std) where
  regex_fails : Option std.Regexp → Text → Bool
  regex_fails none name = false
  regex_fails (some re) name = not (std.match_string re name)

  -- The error of a bad pattern is dropped: the file does not match.
  glob_fails : Text → Text → Bool
  unfolding glob_matches
  glob_fails pattern name = not (is_empty pattern) && not (glob_matches (std.glob pattern name))

  -- The file type of the path's extension, compared without case.
  pub has_type : Text → Text → Bool
  has_type path file_type =
      equal_fold std.unicode_equal_fold (classify_ext std (bare_ext path)) file_type

  type_fails : Text → Text → Bool
  type_fails path file_type = not (is_empty file_type) && not (has_type path file_type)

  unfoldable pub matches : Text → FileInfo → MatchRule → Option std.Regexp → ℤ → ℤ → Bool
  unfolding regex_fails glob_fails type_fails too_young too_small too_large
  matches path info rule regex min_age now =
      if regex_fails regex (base path)
      then false
      else if glob_fails rule.filename_glob (base path)
      then false
      else if type_fails path rule.file_type
      then false
      else if too_young rule info min_age now
      then false
      else if too_small rule info
      then false
      else if too_large rule info
      then false
      else true
