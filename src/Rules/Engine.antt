-- ===== src/Rules/Engine.antt =====
-- rules/engine.go: compiling a configuration, ignoring files, and processing one file.
pub mod Compile
pub mod Process
use avella.Common.{ℕ, Bool, List, Option, Result}
use avella.Common.Int.{ℤ}
use avella.Common.Text.{Text}
use avella.Actions.{Action}
use avella.Config.{MatchRule}
use avella.Go.{Std}
use avella.Go.Os.{OsError, Stat}

module _ (std : Std) where
  pub record CompiledRule : Type 0 where
    pub name : Text
    pub criteria : MatchRule
    pub regex : Option std.Regexp
    pub min_age : ℤ
    pub actions : List Action
    pub on_success : List Action
    pub on_fail : List Action

  pub record CompiledIgnore : Type 0 where
    pub name : Text
    pub criteria : MatchRule
    pub regex : Option std.Regexp
    pub min_age : ℤ

  pub record Engine : Type 0 where
    pub rules : List CompiledRule
    pub ignores : List CompiledIgnore
    pub dry_run : Bool

  -- `SetDryRun`
  unfoldable pub set_dry_run : Bool → Engine → Engine
  set_dry_run enabled e = record e { dry_run = enabled }

-- `ProcessResult`
pub record ProcessResult : Type 0 where
  pub matched : Bool
  pub rule_name : Text
  pub actions : List Text
  pub dry_run : Bool

pub data ProcessError : Type 0 where
  stat_failed : OsError → ProcessError
  context_done : ProcessError
  action_failed : Text → ProcessError

-- What the engine needs of the world: what `os.Stat` would say in it, and what executing an
-- action does to it. The second result says whether `Execute` returned nil.
pub record Runner : Type 1 where
  pub World : Type 0
  pub stat : World → Stat
  pub execute : Action → Text → World → Bool × World

-- What the loop over the rules sees at one of them: whether the context is done, and the time.
pub record Moment : Type 0 where
  pub done : Bool
  pub now : ℤ
