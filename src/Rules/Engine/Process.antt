-- ===== src/Rules/Engine/Process.antt =====
-- rules/engine.go: ShouldIgnore and Process.
pub mod Laws
pub mod Actions
pub mod Ignore
pub mod Announce
pub mod Stepwise
pub mod Terminates
use avella.Common.{
  ℕ, suc, Bool, true, false, not, ◌||◌, List, [], ◌∷◌, map, Option, none, some, Result, ok, err,
  is_empty, if◌then◌else◌,
}
use avella.Common.Int.{ℤ}
use avella.Common.Text.{Text}
use avella.Actions.{Action, describe}
use avella.Go.{Std}
use avella.Go.Os.{FileInfo, Stat}
use avella.Rules.Engine.{
  CompiledRule, CompiledIgnore, Engine, ProcessResult, ProcessError, stat_failed, context_done,
  action_failed, Runner, Moment,
}
use avella.Rules.Match.{matches}

abbrev pub unmatched : ProcessResult
unmatched = record { matched = false; rule_name = []; actions = []; dry_run = false }

module _ (std : Std) where
  -- The loop reads the clock once for each ignore rule.
  ignored_by : (ℕ → Moment) → Text → FileInfo → ℕ → List (CompiledIgnore std) → Bool
  ignored_by moments path info i [] = false
  ignored_by moments path info i (ci ∷ rest) =
      matches std path info ci.criteria ci.regex ci.min_age (moments i).now
      || ignored_by moments path info (suc i) rest

  unfoldable pub should_ignore : Stat → (ℕ → Moment) → Engine std → Text → Bool
  unfolding ignored_by
  should_ignore stat moments e path = elim (stat path) [
    | err _ ↦ false
    | ok info ↦ ignored_by moments path info 0 e.ignores
  ]

module _ (std : Std) (r : Runner) where
  -- What `Process` returns, and the world it leaves.
  pub record Outcome : Type 0 where
    pub result : ProcessResult
    pub error : Option ProcessError
    pub world : r.World

  -- The loop over the actions, which breaks at the first that fails.
  unfoldable pub run_actions : Text → List Action → r.World → Bool × r.World
  run_actions path [] w = (true, w)
  run_actions path (a ∷ acts) w =
      let (good, w') = r.execute a path w in
      let rest = run_actions path acts w' in if good then rest else (false, w')

  -- Every hook runs, whatever the ones before it returned.
  unfoldable pub run_hooks : Text → List Action → r.World → r.World
  run_hooks path [] w = w
  run_hooks path (a ∷ acts) w = run_hooks path acts (r.execute a path w).1

  -- The actions of the rule that matched, and its hooks.
  unfoldable pub execute_rule : Text → CompiledRule std → ProcessResult → r.World → Outcome
  unfolding run_actions run_hooks
  execute_rule path cr result w =
      let (good, w') = run_actions path cr.actions w in
      if good
      then record { result = result; error = none; world = run_hooks path cr.on_success w' }
      else record {
        result = result;
        error = some (action_failed cr.name);
        world = run_hooks path cr.on_fail w';
      }

  -- `describeActions`
  abbrev pub describe_actions : List Action → Text → r.World → List Text
  describe_actions acts path w = map (describe std (r.stat w) path) acts

  -- What is returned for the rule that matched: descriptions first, then the execution.
  unfoldable pub fire : Bool → Text → CompiledRule std → r.World → Outcome
  fire dry_run path cr w =
      let result : ProcessResult = record {
        matched = true;
        rule_name = cr.name;
        actions = describe_actions cr.actions path w;
        dry_run = dry_run;
      } in
      if dry_run
      then record { result = result; error = none; world = w }
      else execute_rule path cr result w

  -- The loop over the rules. `i` counts the rounds, each of which has its own moment.
  unfoldable pub process_rules :
      (ℕ → Moment) → Bool → Text → FileInfo → ℕ → List (CompiledRule std) → r.World → Outcome
  process_rules moments dry_run path info i [] w = record {
    result = unmatched;
    error = none;
    world = w;
  }
  process_rules moments dry_run path info i (cr ∷ rest) w =
      let continue = process_rules moments dry_run path info (suc i) rest w in
      if (moments i).done
      then record { result = unmatched; error = some context_done; world = w }
      else if not (matches std path info cr.criteria cr.regex cr.min_age (moments i).now)
      then continue
      else if is_empty cr.actions
      then continue
      else fire dry_run path cr w

  unfoldable pub process : (ℕ → Moment) → Engine std → Text → r.World → Outcome
  unfolding process_rules
  process moments e path w = elim (r.stat w path) [
    | err x ↦ record { result = unmatched; error = some (stat_failed x); world = w }
    | ok info ↦ process_rules moments e.dry_run path info 0 e.rules w
  ]
