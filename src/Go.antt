-- ===== src/Go.antt =====
-- The parts of Go's standard library that the program calls: strings and path/filepath as
-- definitions, and the engines it only consults (regexp, glob patterns, durations, time formats,
-- text/template, Unicode case) as the parameter `Std`.
pub mod Strings
pub mod FilePath
pub mod Os
use avella.Common.{Option, Bool}
use avella.Common.Dict.{Dict}
use avella.Common.Int.{ℤ}
use avella.Common.Text.{Text}

pub record Std : Type 1 where
  -- `regexp.Compile`, and `MatchString` of what it returns
  pub Regexp : Type 0
  pub compile : Text → Option Regexp
  pub match_string : Regexp → Text → Bool
  -- `filepath.Match`: `none` is `ErrBadPattern`
  pub glob : Text → Text → Option Bool
  -- `time.ParseDuration`, in nanoseconds
  pub parse_duration : Text → Option ℤ
  -- `Time.Format` of a layout, at a time in nanoseconds
  pub format_time : ℤ → Text → Text
  -- `template.New("dest").Parse` and `Execute` over named fields
  pub Template : Type 0
  pub parse_template : Text → Option Template
  pub execute_template : Template → Dict Text Text → Option Text
  -- `strings.ToLower` and `strings.EqualFold` where a text is not ASCII
  pub unicode_lower : Text → Text
  pub unicode_equal_fold : Text → Text → Bool
