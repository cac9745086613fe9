-- ===== src/Daemon/Pipeline.antt =====
-- main.go with watcher/watcher.go: runDaemon and the watcher that feeds it. The channel between them
-- has no buffer, so a goroutine's send and the loop's receive are one step, with the round that
-- follows. A command of a client and the callback that it calls after giving the tray's mutex back
-- are two steps, and a reload is four: what leads to the new engine, SwapEngine, Reset and SetRules.
-- These come between two rounds of the loop.
pub mod Laws
pub mod Unstable
use avella.Common.{
  ℕ, ◌≡◌, Bool, true, false, ◌||◌, List, [], ◌∷◌, ◌++◌, Option, none, some, Result, ok, ◌⊎◌,
}
use avella.Common.Text.{Text}
use avella.Config.{Config, Rule}
use avella.Config.Expand.{LoadError}
use avella.Daemon.Loop.{Lines, on_tick, on_file}
use avella.Daemon.Reloader.{Event}
use avella.Daemon.Runtime.{set_dry_run, swap_engine}
use avella.Daemon.Runtime.Reload.{Prepared, prepare}
use avella.Daemon.Sweep.{Env, Sweep, process_existing_files, rule_info_from_config}
use avella.Daemon.Tracker.{clear}
use avella.Go.{Std}
use avella.Rules.Engine.{Runner, Moment}
use avella.Rules.Engine.Process.{should_ignore}
use avella.Stabilizer.{Poll}
use avella.Ui.{Request, dry_toggled, open_file, cancels, handle_command, set_rules}
use avella.Watcher.{
  Wait, Watch, Phase, offering, leaving, turned, closed, idle, on_create, watcher_error,
  context_ends, context_seen, fsnotify_closed, receiver_comes, receiver_goes, looks, sends, drops,
  leaves, closes,
}
use avella.Watcher

-- runDaemon before its first sweep, in its loop, and after it.
pub data Stage : Type 0 where
  starting looping returned : Stage

-- The watcher's steps in which the daemon has no part: all but the events, which ask the engine,
-- the sends, and what the loop does to receive.
abbrev pub IsInner : {std : Std} {w w' : Watch} → Watcher.Step std w w' → Type 0
IsInner (Watcher.Step.event e ignored w runs) = ⊥
IsInner (watcher_error w runs) = Unit
IsInner (context_ends w going) = Unit
IsInner (context_seen w runs stopped) = Unit
IsInner (fsnotify_closed w runs) = Unit
IsInner (receiver_comes w away) = ⊥
IsInner (receiver_goes w there) = ⊥
IsInner (looks p path before after made w e context cut) = Unit
IsInner (sends path before after made w e there) = ⊥
IsInner (drops path before after made w e stopped) = Unit
IsInner (leaves path before after w e) = Unit
IsInner (closes w drains none_left) = Unit

-- A reload whose engine was made is about to call SwapEngine, Reset or SetRules.
pub data Reload (std : Std) : Type 0 where
  swapping : Prepared std → Reload std
  clearing : List Rule → Reload std
  showing : List Rule → Reload std

abbrev pub is_swapping : {std : Std} → Option (Reload std) → Bool
is_swapping none = false
is_swapping (some (swapping p)) = true
is_swapping (some (clearing rules)) = false
is_swapping (some (showing rules)) = false

-- The callbacks that are still to be called, with those that a command adds.
abbrev pub called_back : Option Request → List Bool → List Bool
called_back none waiting = waiting
called_back (some (dry_toggled enabled)) waiting = enabled ∷ waiting
called_back (some (open_file path)) waiting = waiting
called_back (some cancels) waiting = waiting

module _ (std : Std) (r : Runner) where
  -- `raced` records that a callback ran between the DryRun of a reload and its SwapEngine.
  pub record Pipeline : Type 0 where
    pub watch : Watch
    pub daemon : Sweep std r
    pub stage : Stage
    pub callbacks : List Bool
    pub reload : Option (Reload std)
    pub raced : Bool

  -- runDaemon when its watcher was started.
  abbrev pub start : Sweep std r → Pipeline
  start s = record {
    watch = idle;
    daemon = s;
    stage = starting;
    callbacks = [];
    reload = none;
    raced = false;
  }

  module _ (env : Env r) (dirs : List Text) where
    -- An event, whose IgnoreFunc is the runtime's ShouldIgnore.
    unfoldable pub notice : Event → (ℕ → Moment) → Pipeline → Pipeline
    notice e moments s =
        let engine = s.daemon.runtime.engine in
        let ignored = should_ignore std (r.stat s.daemon.world) moments engine e.name in
        record s { watch = on_create std e ignored s.watch }

    -- The send of a path, and the round that it starts, after which the loop receives again.
    unfoldable pub deliver : Lines → Text → List Wait → List Wait → List Poll → Pipeline → Pipeline
    deliver l path before after made s = record s {
      watch = record (turned path leaving before after s.watch) {
        receiving = true;
        sent = (path, made) ∷ s.watch.sent;
      };
      daemon = on_file std r env dirs l path s.daemon;
    }

    -- A command of a client, up to its callback.
    unfoldable pub asks : (ℕ → Bool) → Text → Pipeline → Pipeline
    asks writes cmd s =
        let (request, u) = handle_command writes cmd s.daemon.ui in
        record s {
          daemon = record (s.daemon) { ui = u };
          callbacks = called_back request s.callbacks;
        }

    -- `cb(enabled)`
    unfoldable pub call_back : Bool → List Bool → Pipeline → Pipeline
    call_back enabled others s = record s {
      daemon = record (s.daemon) { runtime = set_dry_run std enabled s.daemon.runtime };
      callbacks = others;
      raced = s.raced || is_swapping s.reload;
    }

    unfoldable pub swap : Prepared std → Pipeline → Pipeline
    swap p s = record s {
      daemon = record (s.daemon) { runtime = swap_engine std p.engine p.pool s.daemon.runtime };
      reload = some (clearing p.rules);
    }

    pub data Step : Pipeline → Pipeline → Type 0 where
      watches :
          {w : Watch} (s : Pipeline) (st : Watcher.Step std s.watch w)
          → IsInner st
          → Step s (record s { watch = w })
      notices :
          (e : Event) (moments : ℕ → Moment) (s : Pipeline)
          → s.watch.phase ≡ Watcher.running
          → Step s (notice e moments s)
      begins :
          (s : Pipeline)
          → s.stage ≡ starting
          → Step s (record s {
            watch = record (s.watch) { receiving = true };
            daemon = process_existing_files std r env dirs s.daemon;
            stage = looping;
          })
      delivers :
          (l : Lines) (path : Text) (before after : List Wait) (made : List Poll) (s : Pipeline)
          → s.stage ≡ looping
          → s.watch.waits ≡ before ++ record { path = path; turn = offering made } ∷ after
          → Step s (deliver l path before after made s)
      ticks :
          (l : Lines) (s : Pipeline)
          → s.stage ≡ looping
          → Step s (record s { daemon = on_tick std r env dirs l s.daemon })
      commands : (writes : ℕ → Bool) (cmd : Text) (s : Pipeline) → Step s (asks writes cmd s)
      calls_back :
          (enabled : Bool) (before after : List Bool) (s : Pipeline)
          → s.callbacks ≡ before ++ enabled ∷ after
          → Step s (call_back enabled (before ++ after) s)
      -- A reload up to its NewEngine. One that fails changes nothing.
      prepares :
          (id : ℕ) (loaded : Result LoadError Config) (p : Prepared std) (s : Pipeline)
          → s.reload ≡ none
          → prepare std id s.daemon.runtime.dry_run loaded ≡ ok p
          → Step s (record s { reload = some (swapping p) })
      swaps : (p : Prepared std) (s : Pipeline) → s.reload ≡ some (swapping p) → Step s (swap p s)
      clears :
          (rules : List Rule) (s : Pipeline)
          → s.reload ≡ some (clearing rules)
          → Step s (record s {
            daemon = record (s.daemon) {
              runtime = record (s.daemon.runtime) { tracker = clear s.daemon.runtime.tracker };
            };
            reload = some (showing rules);
          })
      shows :
          (rules : List Rule) (s : Pipeline)
          → s.reload ≡ some (showing rules)
          → Step s (record s {
            daemon = record (s.daemon) { ui = set_rules (rule_info_from_config rules) s.daemon.ui };
            reload = none;
          })
      returns :
          (s : Pipeline)
          → s.stage ≡ looping
          → (s.watch.done ≡ true) ⊎ (s.watch.phase ≡ closed)
          → Step s (record s { watch = record (s.watch) { receiving = false }; stage = returned })

    pub data Reach (first : Sweep std r) : Pipeline → Type 0 where
      here : Reach first (start first)
      next : {s t : Pipeline} → Reach first s → Step s t → Reach first t
