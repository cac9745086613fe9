-- ===== src/Daemon/Loop.antt =====
-- main.go: the loop of runDaemon, with the tray's commands and the reloads that come between its
-- rounds. Each round is whole: what another goroutine does in the course of one is not here.
pub mod Laws
pub mod Modes
pub mod Runs
pub mod Core
use avella.Common.{
  ℕ, suc, Bool, true, false, List, [], ◌∷◌, ◌++◌, Option, none, some, Result, ok, err,
}
use avella.Common.Text.{Text, str}
use avella.Config.{Config}
use avella.Config.Expand.{LoadError}
use avella.Daemon.Runtime.{Runtime, set_dry_run}
use avella.Daemon.Runtime.Reload.{Prepared, prepare, install}
use avella.Daemon.Sweep.{Env, Sweep, handle_file, process_existing_files, rule_info_from_config}
use avella.Daemon.Tracker.{prune}
use avella.Go.{Std}
use avella.Rules.Engine.{Runner}
use avella.Watcher.{NewError}
use avella.Ui.{
  SocketUi, Request, dry_toggled, open_file, cancels, set_status, inc_processed, set_rules,
  handle_command,
}

-- The connections that take the line of a round's first broadcast, of the count, and of the last.
pub record Lines : Type 0 where
  pub first : ℕ → Bool
  pub counted : ℕ → Bool
  pub last : ℕ → Bool

pub data Input : Type 0 where
  -- `<-ticker.C`
  tick : Lines → Input
  -- `path := <-files`
  emitted : Lines → Text → Input
  -- a client's command, and `reload` with the identity of the pool that it would make
  commanded : (ℕ → Bool) → Text → Input
  reloaded : ℕ → Result LoadError Config → Input
  -- `ctx.Done()`, or the channel of files was closed
  cancelled files_closed : Input

module _ (std : Std) (r : Runner) (env : Env r) (dirs : List Text) where
  unfoldable pub on_tick : Lines → Sweep std r → Sweep std r
  on_tick l s =
      let u = set_status l.first (str "Sweeping watch directories") s.ui in
      let pruned : Runtime std = record (s.runtime) {
        tracker = prune (r.stat s.world) s.runtime.tracker;
      } in
      let swept = process_existing_files std r env dirs (record s { runtime = pruned; ui = u }) in
      record swept { ui = set_status l.last (str "Idle") swept.ui }

  unfoldable pub on_file : Lines → Text → Sweep std r → Sweep std r
  on_file l path s =
      let u = set_status l.first (str "Processing " ++ path) s.ui in
      let handled = handle_file std r env path (record s { ui = u }) in
      record handled { ui = set_status l.last (str "Idle") (inc_processed l.counted handled.ui) }

  -- The callback that main gives to SetDryRunToggle. The other requests do not reach the runtime.
  unfoldable pub serve : Option Request → Runtime std → Runtime std
  serve none rt = rt
  serve (some (dry_toggled enabled)) rt = set_dry_run std enabled rt
  serve (some (open_file path)) rt = rt
  serve (some cancels) rt = rt

  unfoldable pub on_command : (ℕ → Bool) → Text → Sweep std r → Sweep std r
  unfolding serve
  on_command writes cmd s =
      let (request, u) = handle_command writes cmd s.ui in
      record s { runtime = serve request s.runtime; ui = u }

  -- reloadConfig, with the rules that the tray shows.
  unfoldable pub on_reload : ℕ → Result LoadError Config → Sweep std r → Sweep std r
  on_reload id loaded s = elim (prepare std id s.runtime.dry_run loaded) [
    | err _ ↦ s
    | ok p ↦ record s {
      runtime = install std p s.runtime;
      ui = set_rules (rule_info_from_config p.rules) s.ui;
    }
  ]

  -- The loop, which returns when the context is done or the channel is closed.
  unfoldable pub run_loop : List Input → Sweep std r → Sweep std r
  unfolding on_tick on_file on_command on_reload
  run_loop [] s = s
  run_loop (tick l ∷ inputs) s = run_loop inputs (on_tick l s)
  run_loop (emitted l path ∷ inputs) s = run_loop inputs (on_file l path s)
  run_loop (commanded writes cmd ∷ inputs) s = run_loop inputs (on_command writes cmd s)
  run_loop (reloaded id loaded ∷ inputs) s = run_loop inputs (on_reload id loaded s)
  run_loop (cancelled ∷ inputs) s = s
  run_loop (files_closed ∷ inputs) s = s

  -- The files that are there first, then the loop.
  unfoldable pub run_daemon : List Input → Sweep std r → Sweep std r
  run_daemon inputs s = run_loop inputs (process_existing_files std r env dirs s)

  -- `runDaemon`, which returns at once if its watcher cannot be made.
  unfoldable pub start_daemon : Option NewError → List Input → Sweep std r → Sweep std r
  start_daemon (some e) inputs s = s
  start_daemon none inputs s = run_daemon inputs s
