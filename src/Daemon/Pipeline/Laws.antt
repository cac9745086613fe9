-- ===== src/Daemon/Pipeline/Laws.antt =====
-- What the daemon has taken from the watcher.
use avella.Common.{
  ℕ, ◌+◌, ◌≡◌, refl, sym, ap, ◌∙◌, Bool, true, false, not, ◌||◌, List, ◌++◌, Option, none, some,
  length, arith,
}
use avella.Common.Text.{Text, str}
use avella.Daemon.Loop.{on_tick, on_file}
use avella.Daemon.Loop.Laws.{IsRound, on_tick-IsRound, on_file-IsRound}
use avella.Daemon.Pipeline.{
  Pipeline, looping, IsInner, Reload, swapping, clearing, showing, is_swapping, notice, deliver,
  asks, call_back, swap, Step, watches, notices, begins, delivers, ticks, commands, calls_back,
  prepares, swaps, clears, shows, returns, Reach, here, next,
}
use avella.Daemon.Reloader.{Event}
use avella.Daemon.Runtime.{Runtime, set_dry_run, swap_engine}
use avella.Daemon.Runtime.Reload.{Prepared}
use avella.Daemon.Runtime.Reload.Laws.{prepare-dry_run}
use avella.Daemon.Sweep.{Env, Sweep, process_existing_files}
use avella.Daemon.Sweep.Laws.{process_existing_files-Untouched}
use avella.Go.{Std}
use avella.Rules.Engine.{Engine, Runner}
use avella.Ui.{
  State, SocketUi, Command, toggle_dry_run, open_config, quit, unknown, answer, command,
  handle_command, set_rules,
}
use avella.Ui.Recent.{broadcast-st}
use avella.Watcher.{
  Wait, Watch, offering, on_create, finish, event, watcher_error, context_ends, context_seen,
  fsnotify_closed, receiver_comes, receiver_goes, looks, sends, drops, leaves, closes,
}
use avella.Watcher
use avella.Watcher.Laws.{
  IsConsistent, Step-IsConsistent, Reach-IsConsistent, sent-IsConsistent, received-IsConsistent,
}

-- Inner steps send nothing.
inner-sent : (std : Std) {w w' : Watch} (st : Watcher.Step std w w') → IsInner st → w'.sent ≡ w.sent
unfolding finish
inner-sent std (event e ignored w runs) i = absurd i
inner-sent std (watcher_error w runs) i = refl
inner-sent std (context_ends w going) i = refl
inner-sent std (context_seen w runs stopped) i = refl
inner-sent std (fsnotify_closed w runs) i = refl
inner-sent std (receiver_comes w away) i = absurd i
inner-sent std (receiver_goes w there) i = absurd i
inner-sent std (looks p path before after made w e context cut) i = refl
inner-sent std (sends path before after made w e there) i = absurd i
inner-sent std (drops path before after made w e stopped) i = refl
inner-sent std (leaves path before after w e) i = refl
inner-sent std (closes w drains none_left) i = refl

on_create-sent :
    (std : Std) (e : Event) (ignored : Bool) (w : Watch) → (on_create std e ignored w).sent ≡ w.sent
unfolding on_create
on_create-sent std e ignored w = ground arith

-- A command changes neither the status nor the count that the tray shows.
answer-shown :
    (writes : ℕ → Bool) (k : Command) (u : SocketUi)
    → ((answer writes k u).1.st.status ≡ u.st.status)
      × ((answer writes k u).1.st.processed ≡ u.st.processed)
unfolding answer
answer-shown writes toggle_dry_run u =
    let e = broadcast-st writes (record u { st = record (u.st) { dry_run = not u.st.dry_run } }) in
    (ap (λ (st : State). st.status) e, ap (λ (st : State). st.processed) e)
answer-shown writes open_config u = (refl, refl)
answer-shown writes quit u = (refl, refl)
answer-shown writes unknown u = (refl, refl)

-- The mode of the engine that a reload is about to swap in.
abbrev swapping_mode : {std : Std} → Option (Reload std) → Bool → Bool
swapping_mode none mode = mode
swapping_mode (some (swapping p)) mode = p.engine.dry_run
swapping_mode (some (clearing rules)) mode = mode
swapping_mode (some (showing rules)) mode = mode

module _ (std : Std) (r : Runner) (env : Env r) (dirs : List Text) where
  -- The watcher stays consistent, whatever the daemon is.
  pub Step-watch :
      {s t : Pipeline std r}
      → Step std r env dirs s t
      → IsConsistent std s.watch
      → IsConsistent std t.watch
  unfolding notice deliver asks call_back swap
  Step-watch (watches s st inner) c = Step-IsConsistent std st c
  Step-watch (notices e moments s runs) c = Step-IsConsistent std (event e _ s.watch runs) c
  Step-watch (begins s starts) c = received-IsConsistent std true s.watch c
  Step-watch (delivers l path before after made s loops e) c =
      sent-IsConsistent std path before after made true s.watch e c
  Step-watch (ticks l s loops) c = c
  Step-watch (commands writes cmd s) c = c
  Step-watch (calls_back enabled before after s e) c = c
  Step-watch (prepares id loaded prepared s idle made) c = c
  Step-watch (swaps prepared s pending) c = c
  Step-watch (clears rules s pending) c = c
  Step-watch (shows rules s pending) c = c
  Step-watch (returns s loops over) c = received-IsConsistent std false s.watch c

module _ (std : Std) (r : Runner) (env : Env r) (dirs : List Text) (first : Sweep std r) where
  -- The engine runs in the daemon's mode, and a reload that is about to swap its engine in has one
  -- for this mode, unless a callback of a client came in between.
  pub record InMode (rt : Runtime std) (reload : Option (Reload std)) : Type 0 where
    pub engine_mode : rt.engine.dry_run ≡ rt.dry_run
    pub prepared_mode :
        (p : Prepared std) → reload ≡ some (swapping p) → p.engine.dry_run ≡ rt.dry_run

  -- The watcher is consistent, and the tray shows an idle daemon and has counted exactly the files
  -- that the watcher sent.
  pub record IsPiped (s : Pipeline std r) : Type 0 where
    pub watcher : IsConsistent std s.watch
    pub counted : s.daemon.ui.st.processed ≡ first.ui.st.processed + length s.watch.sent
    pub idle : s.daemon.ui.st.status ≡ str "Idle"
    pub in_mode : s.raced ≡ false → InMode s.daemon.runtime s.reload

  InMode-kept :
      (rt rt' : Runtime std) (reload : Option (Reload std))
      → rt'.engine ≡ rt.engine
      → rt'.dry_run ≡ rt.dry_run
      → InMode rt reload
      → InMode rt' reload
  InMode-kept rt rt' reload engine mode m = record {
    engine_mode = ap (λ (e : Engine std). e.dry_run) engine ∙ m.engine_mode ∙ sym mode;
    prepared_mode = λ p e. m.prepared_mode p e ∙ sym mode;
  }

  -- A step in which only the watcher moves, and sends nothing.
  watched-IsPiped :
      {w : Watch} (s : Pipeline std r)
      → IsConsistent std w
      → w.sent ≡ s.watch.sent
      → IsPiped s
      → IsPiped (record s { watch = w })
  watched-IsPiped s consistent same p = record {
    watcher = consistent;
    counted = rw same p.counted;
    idle = p.idle;
    in_mode = p.in_mode;
  }

  -- A round of the loop that takes n files from the watcher.
  round-IsPiped :
      (n : ℕ) (d : Sweep std r) (w : Watch) (s : Pipeline std r)
      → IsRound std r n s.daemon d
      → IsConsistent std w
      → length w.sent ≡ length s.watch.sent + n
      → IsPiped s
      → IsPiped (record s { watch = w; daemon = d })
  round-IsPiped n d w s round consistent more p = record {
    watcher = consistent;
    counted = omega (arith, round.counted, more, p.counted);
    idle = round.idle;
    in_mode = λ clean.
        InMode-kept s.daemon.runtime d.runtime s.reload round.engine_kept round.mode_kept
          (p.in_mode clean);
  }

  begin-IsPiped :
      (s : Pipeline std r)
      → IsPiped s
      → IsPiped (record s {
        watch = record (s.watch) { receiving = true };
        daemon = process_existing_files std r env dirs s.daemon;
        stage = looping;
      })
  begin-IsPiped s p =
      let kept = process_existing_files-Untouched std r env dirs s.daemon in
      record {
        watcher = received-IsConsistent std true s.watch p.watcher;
        counted = kept.shown.processed_same ∙ p.counted;
        idle = kept.shown.status_same ∙ p.idle;
        in_mode = λ clean.
            InMode-kept s.daemon.runtime _ s.reload kept.modes.engine_same kept.modes.dry_run_same
              (p.in_mode clean);
      }

  asks-IsPiped :
      (writes : ℕ → Bool) (cmd : Text) (s : Pipeline std r)
      → IsPiped s
      → IsPiped (asks std r env dirs writes cmd s)
  unfolding asks handle_command
  asks-IsPiped writes cmd s p =
      let (status, processed) = answer-shown writes (command cmd) s.daemon.ui in
      record {
        watcher = p.watcher;
        counted = processed ∙ p.counted;
        idle = status ∙ p.idle;
        in_mode = p.in_mode;
      }

  call_back-IsPiped :
      (enabled : Bool) (others : List Bool) (s : Pipeline std r)
      → IsPiped s
      → IsPiped (call_back std r env dirs enabled others s)
  unfolding call_back set_dry_run
  call_back-IsPiped enabled others s p = record {
    watcher = p.watcher;
    counted = p.counted;
    idle = p.idle;
    in_mode = λ clean. record {
      engine_mode = refl;
      prepared_mode =
          λ q e. absurd (cc (sym clean ∙ ap (λ o. s.raced || is_swapping o) e ∙ or_true s.raced));
    };
  }
    where
      or_true : (b : Bool) → (b || true) ≡ true
      or_true true = refl
      or_true false = refl

  swap-IsPiped :
      (p : Prepared std) (s : Pipeline std r)
      → s.reload ≡ some (swapping p)
      → IsPiped s
      → IsPiped (swap std r env dirs p s)
  unfolding swap swap_engine
  swap-IsPiped p s pending piped = record {
    watcher = piped.watcher;
    counted = piped.counted;
    idle = piped.idle;
    in_mode = λ clean. record {
      engine_mode = (piped.in_mode clean).prepared_mode p pending;
      prepared_mode = λ q e. absurd (cc e);
    };
  }

  Step-IsPiped : {s t : Pipeline std r} → Step std r env dirs s t → IsPiped s → IsPiped t
  unfolding notice deliver set_rules
  Step-IsPiped (watches s st inner) p =
      watched-IsPiped s (Step-IsConsistent std st p.watcher) (inner-sent std st inner) p
  Step-IsPiped (notices e moments s runs) p =
      watched-IsPiped s (Step-IsConsistent std (event e _ s.watch runs) p.watcher)
        (on_create-sent std e _ s.watch) p
  Step-IsPiped (begins s starts) p = begin-IsPiped s p
  Step-IsPiped (delivers l path before after made s loops e) p =
      round-IsPiped 1 (on_file std r env dirs l path s.daemon) _ s
        (on_file-IsRound std r env dirs l path s.daemon)
        (sent-IsConsistent std path before after made true s.watch e p.watcher) (omega arith) p
  Step-IsPiped (ticks l s loops) p =
      round-IsPiped 0 (on_tick std r env dirs l s.daemon) s.watch s
        (on_tick-IsRound std r env dirs l s.daemon) p.watcher (omega arith) p
  Step-IsPiped (commands writes cmd s) p = asks-IsPiped writes cmd s p
  Step-IsPiped (calls_back enabled before after s e) p =
      call_back-IsPiped enabled (before ++ after) s p
  Step-IsPiped (prepares id loaded prepared s idle made) p = record {
    watcher = p.watcher;
    counted = p.counted;
    idle = p.idle;
    in_mode = λ clean. record {
      engine_mode = (p.in_mode clean).engine_mode;
      prepared_mode = λ q e.
          ap (λ (x : Option (Reload std)). swapping_mode x s.daemon.runtime.dry_run) (sym e)
          ∙ prepare-dry_run std id s.daemon.runtime.dry_run loaded prepared made;
    };
  }
  Step-IsPiped (swaps prepared s pending) p = swap-IsPiped prepared s pending p
  Step-IsPiped (clears rules s pending) p = record {
    watcher = p.watcher;
    counted = p.counted;
    idle = p.idle;
    in_mode = λ clean. record {
      engine_mode = (p.in_mode clean).engine_mode;
      prepared_mode = λ q e. absurd (cc e);
    };
  }
  Step-IsPiped (shows rules s pending) p = record {
    watcher = p.watcher;
    counted = p.counted;
    idle = p.idle;
    in_mode = λ clean. record {
      engine_mode = (p.in_mode clean).engine_mode;
      prepared_mode = λ q e. absurd (cc e);
    };
  }
  Step-IsPiped (returns s loops over) p = record {
    watcher = received-IsConsistent std false s.watch p.watcher;
    counted = p.counted;
    idle = p.idle;
    in_mode = p.in_mode;
  }

  -- In whatever order the watcher, its goroutines, the rounds of the loop, the tray's clients, their
  -- callbacks and the parts of reloads come, each round of the loop whole: between the rounds the
  -- tray shows an idle daemon, and its count has grown by exactly the files that the watcher sent, of
  -- which each was no temporary file and was sent after polls on which WaitStable returns nil. The
  -- engine runs in the daemon's mode, unless a callback ever came between the DryRun of a reload and
  -- its SwapEngine. At the start the tray shows an idle daemon and the engine is in its mode.
  pub Reach-IsPiped :
      {s : Pipeline std r}
      → first.ui.st.status ≡ str "Idle"
      → first.runtime.engine.dry_run ≡ first.runtime.dry_run
      → Reach std r env dirs first s
      → IsPiped s
  Reach-IsPiped idle mode here = record {
    watcher = Reach-IsConsistent std Watcher.here;
    counted = omega arith;
    idle = idle;
    in_mode = λ clean. record { engine_mode = mode; prepared_mode = λ p e. absurd (cc e) };
  }
  Reach-IsPiped idle mode (next reached st) = Step-IsPiped st (Reach-IsPiped idle mode reached)
