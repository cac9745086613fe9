-- ===== src/Daemon/Lifetime.antt =====
-- main.go with ui/socket.go: the life of the process from Run's start to its end, with the watcher
-- and the daemon in it. The context is the watcher's `done`.
pub mod Laws
use avella.Common.{◌≡◌, Bool, true, false, List, Option, none, some}
use avella.Common.Text.{Text}
use avella.Daemon.Pipeline.{Pipeline, returned}
use avella.Daemon.Pipeline
use avella.Daemon.Sweep.{Env, Sweep}
use avella.Go.{Std}
use avella.Rules.Engine.{Runner}
use avella.Ui.Server.{Start, headless, refused, serving}
use avella.Watcher.{closed, idle, NewError}

module _ (std : Std) (r : Runner) where
  -- `ended` is true when Run has returned, and main with it.
  pub record Lifetime : Type 0 where
    pub runs : Pipeline std r
    pub ended : Bool

  -- runDaemon at its start: a watcher that could not be made is one that never runs.
  unfoldable pub launch : Option NewError → Sweep std r → Lifetime
  launch none s = record { runs = Pipeline.start std r s; ended = false }
  launch (some e) s = record {
    runs = record (Pipeline.start std r s) {
      watch = record idle { phase = closed };
      stage = returned;
    };
    ended = false;
  }

  -- Run calls the daemon at all.
  abbrev pub IsCalled : Start → Type 0
  IsCalled (headless e) = Unit
  IsCalled refused = ⊥
  IsCalled (serving path) = Unit

  -- What Run waits for before it returns: the daemon that it called, nothing, or `<-ctx.Done()`.
  abbrev pub MayReturn : Start → Pipeline std r → Type 0
  MayReturn (headless e) p = p.stage ≡ returned
  MayReturn refused p = Unit
  MayReturn (serving path) p = p.watch.done ≡ true

  module _ (env : Env r) (dirs : List Text) (how : Start) where
    pub data Step : Lifetime → Lifetime → Type 0 where
      works :
          {p : Pipeline std r} (s : Lifetime)
          → s.ended ≡ false
          → IsCalled how
          → Pipeline.Step std r env dirs s.runs p
          → Step s (record s { runs = p })
      exits :
          (s : Lifetime)
          → s.ended ≡ false
          → MayReturn how s.runs
          → Step s (record s { ended = true })

    pub data Steps : Lifetime → Lifetime → Type 0 where
      stop : (s : Lifetime) → Steps s s
      go : {s t u : Lifetime} → Step s t → Steps t u → Steps s u
