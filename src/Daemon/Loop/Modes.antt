-- ===== src/Daemon/Loop/Modes.antt =====
-- The daemon, its engine and the tray over a whole run.
use avella.Common.{
  ℕ, ◌≡◌, refl, sym, ap, ◌∙◌, Bool, not, Bool-cases, List, [], ◌∷◌, Result, Result-cases, inl, inr,
  is_empty,
}
use avella.Common.Text.{Text, str}
use avella.Config.{Config}
use avella.Config.Expand.{LoadError}
use avella.Daemon.Loop.{
  Input, tick, emitted, commanded, reloaded, cancelled, files_closed, on_tick, on_file, on_command,
  on_reload, run_loop, run_daemon, serve,
}
use avella.Daemon.Loop.Laws.{IsRound, on_tick-IsRound, on_file-IsRound}
use avella.Daemon.Runtime.{set_dry_run, swap_engine}
use avella.Daemon.Runtime.Reload.{prepare, install}
use avella.Daemon.Runtime.Reload.Laws.{prepare-dry_run}
use avella.Daemon.Sweep.{Env, Sweep, process_existing_files}
use avella.Daemon.Sweep.Laws.{process_existing_files-Untouched}
use avella.Go.{Std}
use avella.Rules.Engine.{Runner}
use avella.Ui.{
  State, handle_command, command, Command, toggle_dry_run, open_config, quit, unknown, answer,
  set_rules,
}
use avella.Ui.Recent.{broadcast-st}

module _ (std : Std) (r : Runner) (env : Env r) (dirs : List Text) where
  -- The tray shows an idle daemon, and it, the daemon and the engine agree on the mode.
  pub record IsAgreed (s : Sweep std r) : Type 0 where
    pub idle : s.ui.st.status ≡ str "Idle"
    pub shown_mode : s.ui.st.dry_run ≡ s.runtime.dry_run
    pub engine_mode : s.runtime.engine.dry_run ≡ s.runtime.dry_run

  pub round-IsAgreed : (n : ℕ) (s t : Sweep std r) → IsRound std r n s t → IsAgreed s → IsAgreed t
  round-IsAgreed n s t round a = record {
    idle = round.idle;
    shown_mode = round.shown_kept ∙ a.shown_mode ∙ sym round.mode_kept;
    engine_mode = ap (λ e. e.dry_run) round.engine_kept ∙ a.engine_mode ∙ sym round.mode_kept;
  }

  -- The daemon after a command of a kind.
  abbrev pub answered : (ℕ → Bool) → Command → Sweep std r → Sweep std r
  answered writes k s =
      let (request, u) = answer writes k s.ui in
      record s { runtime = serve std r env dirs request s.runtime; ui = u }

  answered-IsAgreed :
      (writes : ℕ → Bool) (k : Command) (s : Sweep std r)
      → IsAgreed s
      → IsAgreed (answered writes k s)
  unfolding answer serve set_dry_run
  answered-IsAgreed writes toggle_dry_run s a =
      let e =
        broadcast-st writes
          (record (s.ui) { st = record (s.ui.st) { dry_run = not s.ui.st.dry_run } }) in
      record {
        idle = ap (λ (st : State). st.status) e ∙ a.idle;
        shown_mode = ap (λ (st : State). st.dry_run) e;
        engine_mode = refl;
      }
  answered-IsAgreed writes open_config s a = elim (Bool-cases (is_empty s.ui.st.config_path)) [
    | inl no_path ↦
        rw no_path
          (record { idle = a.idle; shown_mode = a.shown_mode; engine_mode = a.engine_mode })
    | inr path ↦
        rw path (record { idle = a.idle; shown_mode = a.shown_mode; engine_mode = a.engine_mode })
  ]
  answered-IsAgreed writes quit s a = record {
    idle = a.idle;
    shown_mode = a.shown_mode;
    engine_mode = a.engine_mode;
  }
  answered-IsAgreed writes unknown s a = record {
    idle = a.idle;
    shown_mode = a.shown_mode;
    engine_mode = a.engine_mode;
  }

  pub on_command-IsAgreed :
      (writes : ℕ → Bool) (cmd : Text) (s : Sweep std r)
      → IsAgreed s
      → IsAgreed (on_command std r env dirs writes cmd s)
  unfolding on_command handle_command
  on_command-IsAgreed writes cmd s a = answered-IsAgreed writes (command cmd) s a

  pub on_reload-IsAgreed :
      (id : ℕ) (loaded : Result LoadError Config) (s : Sweep std r)
      → IsAgreed s
      → IsAgreed (on_reload std r env dirs id loaded s)
  unfolding on_reload install swap_engine set_rules
  on_reload-IsAgreed id loaded s a = elim (Result-cases (prepare std id s.runtime.dry_run loaded)) [
    | inr (x, failed) ↦ rw (failed, on_reload) a
    | inl (p, made) ↦
        rw (made, on_reload)
          (record {
            idle = a.idle;
            shown_mode = a.shown_mode;
            engine_mode = prepare-dry_run std id s.runtime.dry_run loaded p made;
          })
  ]

  run_loop-IsAgreed :
      (inputs : List Input) (s : Sweep std r)
      → IsAgreed s
      → IsAgreed (run_loop std r env dirs inputs s)
  unfolding run_loop
  run_loop-IsAgreed [] s a = a
  run_loop-IsAgreed (tick l ∷ inputs) s a =
      run_loop-IsAgreed inputs (on_tick std r env dirs l s)
        (round-IsAgreed 0 s _ (on_tick-IsRound std r env dirs l s) a)
  run_loop-IsAgreed (emitted l path ∷ inputs) s a =
      run_loop-IsAgreed inputs (on_file std r env dirs l path s)
        (round-IsAgreed 1 s _ (on_file-IsRound std r env dirs l path s) a)
  run_loop-IsAgreed (commanded writes cmd ∷ inputs) s a =
      run_loop-IsAgreed inputs (on_command std r env dirs writes cmd s)
        (on_command-IsAgreed writes cmd s a)
  run_loop-IsAgreed (reloaded id loaded ∷ inputs) s a =
      run_loop-IsAgreed inputs (on_reload std r env dirs id loaded s)
        (on_reload-IsAgreed id loaded s a)
  run_loop-IsAgreed (cancelled ∷ inputs) s a = a
  run_loop-IsAgreed (files_closed ∷ inputs) s a = a

  -- The files that are there at the start.
  pub start-IsAgreed :
      (s : Sweep std r) → IsAgreed s → IsAgreed (process_existing_files std r env dirs s)
  start-IsAgreed s a =
      let kept = process_existing_files-Untouched std r env dirs s in
      record {
        idle = kept.shown.status_same ∙ a.idle;
        shown_mode = kept.shown.shown_dry_run_same ∙ a.shown_mode ∙ sym kept.modes.dry_run_same;
        engine_mode =
            ap (λ e. e.dry_run) kept.modes.engine_same
            ∙ a.engine_mode
            ∙ sym kept.modes.dry_run_same;
      }

  -- After any inputs the tray shows an idle daemon again, and the mode that it shows is the
  -- daemon's and the engine's, if this held at the start. Each input is handled whole.
  pub run_daemon-IsAgreed :
      (inputs : List Input) (s : Sweep std r)
      → IsAgreed s
      → IsAgreed (run_daemon std r env dirs inputs s)
  unfolding run_daemon
  run_daemon-IsAgreed inputs s a =
      run_loop-IsAgreed inputs (process_existing_files std r env dirs s) (start-IsAgreed s a)
