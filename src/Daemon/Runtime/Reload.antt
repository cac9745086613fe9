-- ===== src/Daemon/Runtime/Reload.antt =====
-- main.go: reloadConfig, whole and in the two parts between which the tray may toggle dry-run.
pub mod Laws
pub mod Notice
use avella.Common.{ℕ, Bool, true, false, Option, none, some, Result, ok, err, ◌≡◌, List, [], ◌∷◌}
use avella.Common.Text.{Text}
use avella.Config.{Config, Rule}
use avella.Config.Expand.{LoadError, load}
use avella.Daemon.Runtime.{Runtime, set_dry_run, swap_engine}
use avella.Daemon.Tracker.{clear}
use avella.Go.{Std}
use avella.Go.Os.{HomeDir, Stat}
use avella.Rules.Engine.{Engine}
use avella.Rules.Engine.Compile.{EngineError, new_engine, new_ssh}

pub data ReloadError : Type 0 where
  load_failed : LoadError → ReloadError
  engine_failed : EngineError → ReloadError

module _ (std : Std) where
  -- What is ready to be swapped in: the engine, its pool, and the rules for display.
  pub record Prepared : Type 0 where
    pub engine : Engine std
    pub pool : Option ℕ
    pub rules : List Rule

  -- The part up to NewEngine. `id` is the identity of the pool that newSSH makes, and `dry_run`
  -- what `runtime.DryRun()` returned. On an error that pool is closed, and nothing else is done.
  unfoldable pub prepare : ℕ → Bool → Result LoadError Config → Result ReloadError Prepared
  prepare id dry_run (err e) = err (load_failed e)
  prepare id dry_run (ok c) =
      let pool = new_ssh c.ssh_hosts id in
      elim (new_engine std c.rules c.ignored pool dry_run) [
        | err e ↦ err (engine_failed e)
        | ok engine ↦ ok (record { engine = engine; pool = pool; rules = c.rules })
      ]

  -- SwapEngine and the tracker's Reset.
  unfoldable pub install : Prepared → Runtime std → Runtime std
  install p rt =
      let rt' : Runtime std = swap_engine std p.engine p.pool rt in
      record rt' { tracker = clear rt'.tracker }

  -- The whole handler, with nothing in between.
  unfoldable pub reload_config : ℕ → Result LoadError Config → Runtime std → Runtime std
  unfolding prepare install
  reload_config id loaded rt = elim (prepare id rt.dry_run loaded) [
    | err _ ↦ rt
    | ok p ↦ install p rt
  ]

  -- The daemon between two steps: a reload that was prepared and not installed yet is kept.
  pub record Reloading : Type 0 where
    pub runtime : Runtime std
    pub pending : Option Prepared

  -- The reloader's goroutine prepares, then installs; the tray's goroutine may toggle dry-run at
  -- any moment, since each takes the lock for itself.
  pub data Step : Reloading → Reloading → Type 0 where
    prepares :
        (s : Reloading) (id : ℕ) (loaded : Result LoadError Config) (p : Prepared)
        → s.pending ≡ none
        → prepare id s.runtime.dry_run loaded ≡ ok p
        → Step s (record s { pending = some p })
    installs :
        (s : Reloading) (p : Prepared)
        → s.pending ≡ some p
        → Step s (record { runtime = install p s.runtime; pending = none })
    toggles :
        (s : Reloading) (enabled : Bool)
        → Step s (record s { runtime = set_dry_run std enabled s.runtime })
