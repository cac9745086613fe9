-- ===== src/Daemon/Main/Laws.antt =====
-- What main comes to when its configuration loads.
use avella.Common.{
  List, All, Option, some, none, ◌≡◌, refl, sym, ap, subst, ◌∙◌, Bool, true, false, ok,
  if◌then◌else◌,
}
use avella.Common.Text.{Text, str}
use avella.Config.{Config}
use avella.Config.Expand.{load}
use avella.Config.Expand.Laws.{load-IsValidConfig}
use avella.Daemon.Main.{
  main_logged, new_log_handler, Cli, System, config_path, tray, Exit, ran_once, started,
  first_runtime, main_compiled, main_loaded, main,
}
use avella.Daemon.Sweep.{Env, Sweep, run_once}
use avella.Daemon.Sweep.Laws.{process_existing_files-Untouched}
use avella.Daemon.Runtime.{new_runtime_state, swap_engine}
use avella.Go.{Std}
use avella.Rules.Engine.{Engine, Runner}
use avella.Rules.Engine.Compile.Laws.{new_engine_valid}
use avella.Ui.{SocketUi, new_socket, set_dry_run_toggle, set_config_path, set_rules, set_version}
use avella.Ui.Server.{Started, run, serving, initial_status}
use avella.Daemon.Loop.{Input, start_daemon}
use avella.Daemon.Loop.Modes.{IsAgreed, run_daemon-IsAgreed}
use avella.Daemon.Loop.Runs.{KeepsMode, run_daemon_dry}
use avella.Watcher.{NewError}
use avella.Ui.Server.Laws.{run-IsStarted}

module _ (std : Std) (r : Runner) (env : Env r) (dirs : List Text) where
  start_daemon-IsAgreed :
      (failed : Option NewError) (inputs : List Input) (s : Sweep std r)
      → IsAgreed std r env dirs s
      → IsAgreed std r env dirs (start_daemon std r env dirs failed inputs s)
  unfolding start_daemon
  start_daemon-IsAgreed (some e) inputs s a = a
  start_daemon-IsAgreed none inputs s a = run_daemon-IsAgreed std r env dirs inputs s a

  start_daemon_dry :
      (failed : Option NewError) (inputs : List Input) (s : Sweep std r)
      → All KeepsMode inputs
      → IsAgreed std r env dirs s
      → s.runtime.dry_run ≡ true
      → (start_daemon std r env dirs failed inputs s).world ≡ s.world
  unfolding start_daemon
  start_daemon_dry (some e) inputs s keeps a dry = refl
  start_daemon_dry none inputs s keeps a dry = run_daemon_dry std r env dirs inputs s keeps a dry

module _ (std : Std) (r : Runner) (env : Env r) (cli : Cli) (c : Config) (w : r.World) where
  pub record IsMain (o : Exit std r) : Type 0 where
    -- With --once the files are handled once, and in dry-run mode nothing is changed.
    pub once :
        cli.once ≡ true → (s : Sweep std r) × (o ≡ ran_once s) × (cli.dry_run ≡ true → s.world ≡ w)
    -- Otherwise the daemon and its engine start in the mode of the flag, with nothing done yet. If
    -- there is a socket, the tray agrees with them after any inputs, and in dry-run mode inputs
    -- that toggle nothing change nothing, whether or not the watcher can be made.
    pub daemon :
        cli.once ≡ false
        → (o' : Started) × (s : Sweep std r) × (o ≡ started o' s)
          × (s.runtime.dry_run ≡ cli.dry_run)
          × (s.runtime.engine.dry_run ≡ cli.dry_run)
          × (s.world ≡ w)
          × ((path : Text) (failed : Option NewError) (inputs : List Input)
              → o'.start ≡ serving path
              → let t = start_daemon std r env c.watch failed inputs s in
                IsAgreed std r env c.watch t
                × (cli.dry_run ≡ true → All KeepsMode inputs → t.world ≡ w))

  first_runtime-mode :
      (sys : System) (e : Engine std)
      → ((first_runtime std r sys cli c e).dry_run ≡ cli.dry_run)
        × ((first_runtime std r sys cli c e).engine ≡ e)
  unfolding first_runtime swap_engine new_runtime_state
  first_runtime-mode sys e = (refl, refl)

  tray_idle :
      (sys : System)
      → ((initial_status (tray sys cli c)).st.status ≡ str "Idle")
        × ((initial_status (tray sys cli c)).st.dry_run ≡ cli.dry_run)
  unfolding initial_status tray set_dry_run_toggle set_config_path set_rules set_version
  tray_idle sys = (refl, refl)

  abbrev begun : System → Engine std → Sweep std r
  begun sys e = record {
    runtime = first_runtime std r sys cli c e;
    world = w;
    ui = (run sys.answers sys.me sys.socket (tray sys cli c)).ui;
    files = 0;
  }

  begun-IsAgreed :
      (sys : System) (e : Engine std) (path : Text)
      → e.dry_run ≡ cli.dry_run
      → (run sys.answers sys.me sys.socket (tray sys cli c)).start ≡ serving path
      → IsAgreed std r env c.watch (begun sys e)
  begun-IsAgreed sys e path mode serves =
      let started = run-IsStarted sys.answers sys.me (tray sys cli c) sys.socket in
      let ui = (started.serves path serves).1 in
      let (idle, shown) = tray_idle sys in
      let (dry, same) = first_runtime-mode sys e in
      record {
        idle = ap (λ (u : SocketUi). u.st.status) ui ∙ idle;
        shown_mode = ap (λ (u : SocketUi). u.st.dry_run) ui ∙ shown ∙ sym dry;
        engine_mode = ap (λ (e : Engine std). e.dry_run) same ∙ mode ∙ sym dry;
      }

  main_compiled-IsMain :
      (sys : System) (e : Engine std)
      → e.dry_run ≡ cli.dry_run
      → IsMain (main_compiled std r env sys cli c w e)
  unfolding main_compiled run_once
  main_compiled-IsMain sys e mode =
      let rt = first_runtime std r sys cli c e in
      let (dry, same) = first_runtime-mode sys e in
      let engine_dry : rt.engine.dry_run ≡ cli.dry_run =
        ap (λ (e : Engine std). e.dry_run) same ∙ mode in
      let o = run sys.answers sys.me sys.socket (tray sys cli c) in
      let before : Sweep std r = record { runtime = rt; world = w; ui = new_socket; files = 0 } in
      let once_env : Env r = record env { shows = false } in
      let exit = λ (b : Bool).
        if b then ran_once (run_once std r env c.watch before) else started o (begun sys e) in
      record {
        once = λ h. (
          run_once std r env c.watch before,
          ap exit h,
          λ d.
              (process_existing_files-Untouched std r once_env c.watch before).world_kept
                (engine_dry ∙ d),
        );
        daemon = λ h. (
          o,
          begun sys e,
          ap exit h,
          dry,
          engine_dry,
          refl,
          λ path failed inputs serves.
              let agreed = begun-IsAgreed sys e path mode serves in
              (
                start_daemon-IsAgreed std r env c.watch failed inputs (begun sys e) agreed,
                λ d keeps.
                    start_daemon_dry std r env c.watch failed inputs (begun sys e) keeps agreed
                      (dry ∙ d),
              ),
        );
      }

-- If the log handler can be made and the configuration loads, main always goes on. With --once the
-- existing files are handled, and in dry-run mode nothing is changed by that. Otherwise the state in
-- which Run is to start the daemon has the mode of the flag, also in its engine, and nothing done
-- yet. If Run serves a socket, then after any inputs the tray shows an idle daemon and the mode of
-- the daemon and its engine; and with --dry-run nothing is ever changed if no input toggles the mode.
pub main-IsMain :
    (std : Std) (r : Runner) (env : Env r) (cli : Cli) (c : Config) (w : r.World) (sys : System)
    (log : Option Text)
    → cli.version ≡ false
    → new_log_handler sys.home sys.makes_log_dir cli.log_file ≡ ok log
    → load std sys.read sys.home sys.stat (config_path sys.home cli) ≡ ok c
    → IsMain std r env cli c w (main std r env sys cli w)
unfolding main main_logged main_loaded
main-IsMain std r env cli c w sys log no_version logs loaded =
    let valid =
      load-IsValidConfig std sys.read sys.home sys.stat (config_path sys.home cli) c loaded in
    let (e, made, mode, _) = new_engine_valid std sys.stat c sys.pool cli.dry_run valid in
    let goes = ap (main_loaded std r env sys cli w) loaded ∙ rw (made, main_loaded) refl in
    subst (IsMain std r env cli c w) (sym (rw (no_version, logs, main) goes))
      (main_compiled-IsMain std r env cli c w sys e mode)
