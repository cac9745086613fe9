-- ===== src/Daemon/Handling.antt =====
-- main.go: handlePath as the sections between which the locks of runtimeState and of the tracker are
-- free, and what the tray's and the reloader's goroutines do in between. Process holds the lock
-- throughout, so it is one section.
pub mod Laws
pub mod Overtaken
use avella.Common.{ℕ, Bool, true, false, ◌≡◌, Option, none, some, Result, ok, err, if◌then◌else◌}
use avella.Common.Text.{Text}
use avella.Daemon.Runtime.{Runtime, set_dry_run, swap_engine}
use avella.Daemon.Tracker.{mark_processed, should_process, clear}
use avella.Go.{Std}
use avella.Go.Os.{FileInfo, Stat}
use avella.Rules.Engine.{Engine, ProcessResult, Runner, Moment}
use avella.Rules.Engine.Process.{Outcome, process, should_ignore}
use avella.Stabilizer.{should_skip}

-- Where handlePath is, with the variables that it holds there.
pub data Point : Type 0 where
  -- at its start
  called : Text → Point
  -- after ShouldSkip and ShouldIgnore, and after os.Stat
  wanted : Text → Point
  found : Text → FileInfo → Point
  -- after DryRun, and after ShouldProcess
  asked : Text → FileInfo → Bool → Point
  due : Text → FileInfo → Point
  -- after Process, for a file that matched without an error
  matched : Text → FileInfo → ProcessResult → Point
  -- returned, with the result that is shown
  finished : Option ProcessResult → Point

module _ (std : Std) (r : Runner) where
  pub record Handling : Type 0 where
    pub runtime : Runtime std
    pub world : r.World
    pub point : Point

  unfoldable pub start : Text → Runtime std → r.World → Handling
  start path rt w = record { runtime = rt; world = w; point = called path }

  -- What handlePath does with what Process returned.
  abbrev pub after_process : Text → FileInfo → Outcome std r → Point
  after_process path info o = elim o.error [
    | some _ ↦ finished none
    | none ↦ if o.result.matched then matched path info o.result else finished none
  ]

  -- One section, with the moments of ShouldIgnore and of Process.
  unfoldable pub section : (ℕ → Moment) → (ℕ → Moment) → Point → Handling → Handling
  section ignoring processing (called path) s = record s {
    point =
        if should_skip std path
        then finished none
        else if should_ignore std (r.stat s.world) ignoring s.runtime.engine path
        then finished none
        else wanted path;
  }
  section ignoring processing (wanted path) s = record s {
    point = elim (r.stat s.world path) [ err _ ↦ finished none | ok info ↦ found path info ];
  }
  section ignoring processing (found path info) s = record s {
    point = asked path info s.runtime.dry_run;
  }
  section ignoring processing (asked path info dry_run) s = record s {
    point =
        if should_process path info dry_run s.runtime.tracker then due path info else finished none;
  }
  section ignoring processing (due path info) s =
      let o = process std r processing s.runtime.engine path s.world in
      record s { world = o.world; point = after_process path info o }
  section ignoring processing (matched path info result) s = record s {
    runtime = record (s.runtime) {
      tracker = mark_processed path info result.dry_run s.runtime.tracker;
    };
    point = finished (some result);
  }
  section ignoring processing (finished result) s = s

  unfoldable pub advance : (ℕ → Moment) → (ℕ → Moment) → Handling → Handling
  unfolding section
  advance ignoring processing s = section ignoring processing s.point s

  pub data Step : Handling → Handling → Type 0 where
    advances :
        (ignoring processing : ℕ → Moment) (s : Handling) → Step s (advance ignoring processing s)
    -- SetDryRun, from the tray
    toggles :
        (enabled : Bool) (s : Handling)
        → Step s (record s { runtime = set_dry_run std enabled s.runtime })
    -- SwapEngine and Reset, from reloadConfig
    swaps :
        (engine : Engine std) (pool : Option ℕ) (s : Handling)
        → Step s (record s { runtime = swap_engine std engine pool s.runtime })
    resets :
        (s : Handling)
        → Step s (record s { runtime = record (s.runtime) { tracker = clear s.runtime.tracker } })

  pub data Steps : Handling → Handling → Type 0 where
    stop : (s : Handling) → Steps s s
    go : {s t u : Handling} → Step s t → Steps t u → Steps s u
