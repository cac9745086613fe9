-- ===== src/Daemon/Main.antt =====
-- main.go: main, from the command line to the daemon that it runs. Signals are inputs of the loop.
pub mod Laws
use avella.Common.{
  ℕ, Bool, true, false, not, ◌++◌, Option, none, some, Result, ok, err, is_empty, if◌then◌else◌,
}
use avella.Common.Text.{Text, str}
use avella.Config.{Config}
use avella.Config.Expand.{LoadError, load}
use avella.Daemon.Runtime.{Runtime, new_runtime_state, swap_engine}
use avella.Daemon.Sweep.{Env, Sweep, run_once, rule_info_from_config}
use avella.Go.{Std}
use avella.Go.Os.{HomeDir, OsError, Stat}
use avella.Go.FilePath.{dir}
use avella.PathUtil.{expand_home}
use avella.Rules.Engine.{Engine, Runner}
use avella.Rules.Engine.Compile.{EngineError, new_engine, new_ssh}
use avella.Ui.{SocketUi, new_socket, set_version, set_rules, set_config_path, set_dry_run_toggle}
use avella.Ui.Server.{Answers, SocketFile, Started, run}

-- The flags that kong parsed.
pub record Cli : Type 0 where
  pub config : Text
  pub log_file : Text
  pub dry_run : Bool
  pub once : Bool
  pub version : Bool

-- What main finds when it starts: the configuration files and the home directory, which
-- directories `os.MkdirAll` makes for the log, the version of the build, the identity of the pool that it would make, and the
-- socket's file with the identity of this daemon.
pub record System : Type 0 where
  pub read : Text → Option Config
  pub home : HomeDir
  pub stat : Stat
  pub makes_log_dir : Text → Bool
  pub version : Text
  pub pool : ℕ
  pub answers : Answers
  pub me : ℕ
  pub socket : SocketFile

pub data LogError : Type 0 where
  expand_log_path : OsError → LogError
  log_dir_failed : Text → LogError

-- `newLogHandler`: the file to which the log is written, `none` for stderr.
unfoldable pub new_log_handler : HomeDir → (Text → Bool) → Text → Result LogError (Option Text)
new_log_handler home makes path = if is_empty path then ok none else elim (expand_home home path) [
  | err e ↦ err (expand_log_path e)
  | ok expanded ↦
      if makes (dir expanded) then ok (some expanded) else err (log_dir_failed (dir expanded))
]

unfoldable pub default_config_path : HomeDir → Text
default_config_path home = elim home [
  | err _ ↦ str "config.yaml"
  | ok d ↦ d ++ str "/.config/avella/config.yaml"
]

-- `cfgPath`, which stays as it is if it cannot be expanded.
unfoldable pub config_path : HomeDir → Cli → Text
unfolding default_config_path
config_path home cli =
    let path = if is_empty cli.config then default_config_path home else cli.config in
    elim (expand_home home path) [ err _ ↦ path | ok expanded ↦ expanded ]

-- The tray's state before its Run.
unfoldable pub tray : System → Cli → Config → SocketUi
tray sys cli c = set_dry_run_toggle cli.dry_run (
    set_config_path (config_path sys.home cli)
      (set_rules (rule_info_from_config c.rules) (set_version sys.version new_socket)))

module _ (std : Std) (r : Runner) where
  -- How main ends, or how it goes on: the daemon starts in the state that is given, if Run starts
  -- it at all.
  pub data Exit : Type 0 where
    printed_version : Exit
    no_log : LogError → Exit
    bad_config : LoadError → Exit
    bad_engine : EngineError → Exit
    ran_once : Sweep std r → Exit
    started : Started → Sweep std r → Exit

  -- The runtime state. main makes it without an engine and gives it one by SwapEngine, before
  -- anything reads it; here it has the engine from the start, and gets it again.
  unfoldable pub first_runtime : System → Cli → Config → Engine std → Runtime std
  first_runtime sys cli c engine =
      swap_engine std engine none
        (new_runtime_state std engine cli.dry_run (new_ssh c.ssh_hosts sys.pool))

  unfoldable pub main_compiled : Env r → System → Cli → Config → r.World → Engine std → Exit
  unfolding first_runtime tray
  main_compiled env sys cli c w engine =
      let rt = first_runtime sys cli c engine in
      let o = run sys.answers sys.me sys.socket (tray sys cli c) in
      if cli.once
      then ran_once (
          run_once std r env c.watch
            (record { runtime = rt; world = w; ui = new_socket; files = 0 }))
      else started o (record { runtime = rt; world = w; ui = o.ui; files = 0 })

  unfoldable pub main_loaded : Env r → System → Cli → r.World → Result LoadError Config → Exit
  unfolding main_compiled
  main_loaded env sys cli w (err e) = bad_config e
  main_loaded env sys cli w (ok c) =
      elim (new_engine std c.rules c.ignored (new_ssh c.ssh_hosts sys.pool) cli.dry_run) [
        | err e ↦ bad_engine e
        | ok engine ↦ main_compiled env sys cli c w engine
      ]

  unfoldable pub main_logged : Env r → System → Cli → r.World → Exit
  unfolding main_loaded config_path
  main_logged env sys cli w =
      main_loaded env sys cli w (load std sys.read sys.home sys.stat (config_path sys.home cli))

  unfoldable pub main : Env r → System → Cli → r.World → Exit
  unfolding main_logged new_log_handler
  main env sys cli w =
      if cli.version
      then printed_version
      else elim (new_log_handler sys.home sys.makes_log_dir cli.log_file) [
        | err e ↦ no_log e
        | ok _ ↦ main_logged env sys cli w
      ]
