-- ===== src/Daemon/Runtime.antt =====
-- main.go: runtimeState once main has given it its first engine, handlePath and reloadConfig.
pub mod HandlePath
pub mod Reload
use avella.Common.{
  ℕ, Bool, true, false, List, [], ◌∷◌, ◌++◌, Option, none, some, if◌then◌else◌, ok, err,
}
use avella.Common.Text.{Text}
use avella.Daemon.Tracker.{Tracker, new_process_tracker, clear, mark_processed, should_process}
use avella.Go.{Std}
use avella.Go.Os.{FileInfo, Stat}
use avella.Rules.Engine.{Engine, ProcessResult, Runner, Moment}
use avella.Rules.Engine
use avella.Rules.Engine.Process.{Outcome, process, should_ignore}
use avella.Stabilizer.{should_skip}

abbrev pub pools_of : Option ℕ → List ℕ
pools_of none = []
pools_of (some p) = p ∷ []

module _ (std : Std) where
  -- The SSH pools are shared with the engine's uploads: they stand here by identity.
  pub record Runtime : Type 0 where
    pub engine : Engine std
    pub dry_run : Bool
    pub ssh_pools : List ℕ
    pub tracker : Option Tracker

  unfoldable pub new_runtime_state : Engine std → Bool → Option ℕ → Runtime
  new_runtime_state engine dry_run pool = record {
    engine = engine;
    dry_run = dry_run;
    ssh_pools = pools_of pool;
    tracker = new_process_tracker;
  }

  -- `SetDryRun`
  unfoldable pub set_dry_run : Bool → Runtime → Runtime
  set_dry_run enabled rt = record rt {
    dry_run = enabled;
    engine = record (rt.engine) { dry_run = enabled };
  }

  -- `SwapEngine`
  unfoldable pub swap_engine : Engine std → Option ℕ → Runtime → Runtime
  swap_engine engine pool rt = record rt {
    engine = engine;
    ssh_pools = rt.ssh_pools ++ pools_of pool;
  }

  -- `Close`: every pool is closed, and the first error is returned.
  first_error : (ℕ → Bool) → List ℕ → Option ℕ
  first_error closes [] = none
  first_error closes (p ∷ ps) =
      let rest = first_error closes ps in if closes p then rest else some p

  unfoldable pub close : (ℕ → Bool) → Runtime → Option ℕ × Runtime
  unfolding first_error
  close closes rt = (first_error closes rt.ssh_pools, record rt { ssh_pools = [] })

module _ (std : Std) (r : Runner) where
  -- The daemon's state after a file was handled, and what it adds to the recent files.
  pub record Handled : Type 0 where
    pub runtime : Runtime std
    pub world : r.World
    pub recent : Option ProcessResult

  unfoldable pub unhandled : Runtime std → r.World → Handled
  unhandled rt w = record { runtime = rt; world = w; recent = none }

  -- What follows `Process`.
  unfoldable pub after_process : Text → FileInfo → Runtime std → Outcome std r → Handled
  unfolding unhandled
  after_process path info rt o = elim o.error [
    | some _ ↦ unhandled rt o.world
    | none ↦
        if o.result.matched
        then record {
          runtime = record rt { tracker = mark_processed path info o.result.dry_run rt.tracker };
          world = o.world;
          recent = some o.result;
        }
        else unhandled rt o.world
  ]

  -- `handlePath`. The two families of moments are those of ShouldIgnore and of Process.
  unfoldable pub handle_path : (ℕ → Moment) → (ℕ → Moment) → Text → Runtime std → r.World → Handled
  unfolding unhandled after_process
  handle_path ignoring processing path rt w =
      if should_skip std path
      then unhandled rt w
      else if should_ignore std (r.stat w) ignoring rt.engine path
      then unhandled rt w
      else elim (r.stat w path) [
        | err _ ↦ unhandled rt w
        | ok info ↦
            if should_process path info rt.dry_run rt.tracker
            then after_process path info rt (process std r processing rt.engine path w)
            else unhandled rt w
      ]
