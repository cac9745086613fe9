-- ===== src/Daemon/Locked.antt =====
-- main.go: the lock of runtimeState. Process holds it for reading from its first line to its return,
-- and its actions are executed one at a time; the watcher's ShouldIgnore and DryRun read at any
-- moment; SetDryRun, SwapEngine and Close write.
pub mod Laws
use avella.Common.{ℕ, suc, ◌≡◌, Bool, List, [], Option, none, some}
use avella.Common.Text.{Text}
use avella.Daemon.Runtime.{Runtime, set_dry_run, swap_engine}
use avella.Go.{Std}
use avella.Rules.Engine.{Engine, ProcessResult, ProcessError, Runner, Moment}
use avella.Rules.Engine.Process.Stepwise.{Task, returned, begin_process, proceed}

-- A write under the lock.
pub data Write (std : Std) : Type 0 where
  sets_dry_run : Bool → Write std
  swaps_engine : Engine std → Option ℕ → Write std
  closes : Write std

unfoldable pub write : (std : Std) → Write std → Runtime std → Runtime std
write std (sets_dry_run enabled) rt = set_dry_run std enabled rt
write std (swaps_engine engine pool) rt = swap_engine std engine pool rt
write std closes rt = record rt { ssh_pools = [] }

module _ (std : Std) (r : Runner) where
  -- A call of Process that holds the lock. `first` is the world in which it began.
  pub record Underway : Type 0 where
    pub moments : ℕ → Moment
    pub path : Text
    pub first : r.World
    pub task : Task std

  -- `readers` is the count of the lock, and `others` the other goroutines that hold it.
  pub record Locked : Type 0 where
    pub runtime : Runtime std
    pub world : r.World
    pub readers : ℕ
    pub others : ℕ
    pub process : Option Underway

  abbrev pub unlocked : Runtime std → r.World → Locked
  unlocked rt w = record { runtime = rt; world = w; readers = 0; others = 0; process = none }

  pub data Step : Locked → Locked → Type 0 where
    -- `s.mu.RLock()` of Process, whose call runs to its first Execute
    enters :
        (moments : ℕ → Moment) (path : Text) (s : Locked)
        → s.process ≡ none
        → Step s (record s {
          readers = suc s.readers;
          process = some (record {
            moments = moments;
            path = path;
            first = s.world;
            task = begin_process std r moments s.runtime.engine path s.world;
          });
        })
    proceeds :
        (u : Underway) (s : Locked)
        → s.process ≡ some u
        → Step s (record s {
          world = (proceed std r u.path u.task s.world).1;
          process = some (record u { task = (proceed std r u.path u.task s.world).0 });
        })
    -- `RUnlock` of Process
    leaves :
        (u : Underway) (result : ProcessResult) (e : Option ProcessError) (n : ℕ) (s : Locked)
        → s.process ≡ some u
        → u.task ≡ returned result e
        → s.readers ≡ suc n
        → Step s (record s { readers = n; process = none })
    -- ShouldIgnore or DryRun of another goroutine
    reads : (s : Locked) → Step s (record s { readers = suc s.readers; others = suc s.others })
    has_read :
        (n k : ℕ) (s : Locked)
        → s.readers ≡ suc n
        → s.others ≡ suc k
        → Step s (record s { readers = n; others = k })
    -- `s.mu.Lock()`, which waits until nobody reads
    writes :
        (c : Write std) (s : Locked)
        → s.readers ≡ 0
        → Step s (record s { runtime = write std c s.runtime })

  pub data Reach (rt : Runtime std) (w : r.World) : Locked → Type 0 where
    here : Reach rt w (unlocked rt w)
    next : {s t : Locked} → Reach rt w s → Step s t → Reach rt w t
