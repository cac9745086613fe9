-- ===== src/Config/Expand.antt =====
-- config/config.go: expandPaths and Load.
pub mod Laws
use avella.Common.{
  List, [], ◌∷◌, Option, none, some, Result, ok, err, ◌>>=◌, ◌>>◌, map_error, traverse,
}
use avella.Common.Dict.{Dict}
use avella.Common.Text.{Text}
use avella.Config.{Ssh, MoveConfig, ActionConfig, Rule, Config}
use avella.Config.Validate.{ConfigError, validate}
use avella.Go.{Std}
use avella.Go.Os.{OsError, HomeDir, Stat}
use avella.PathUtil.{expand_home}

pub data ExpandError : Type 0 where
  watch_dir : Text → OsError → ExpandError
  host_key : Text → OsError → ExpandError
  host_agent_sock : Text → OsError → ExpandError
  move_dest : Text → OsError → ExpandError

module _ (home : HomeDir) where
  expand_watch : Text → Result ExpandError Text
  expand_watch dir = map_error (watch_dir dir) (expand_home home dir)

  expand_host : Text × Ssh → Result ExpandError (Text × Ssh)
  expand_host (name, ssh) = do
    key ← map_error (host_key name) (expand_home home ssh.key)
    sock ← map_error (host_agent_sock name) (expand_home home ssh.agent_sock)
    ok (name, record ssh { key = key; agent_sock = sock })

  expand_move : Text → Option MoveConfig → Result ExpandError (Option MoveConfig)
  expand_move name none = ok none
  expand_move name (some m) = do
    dest ← map_error (move_dest name) (expand_home home m.dest)
    ok (some (record { dest = dest }))

  expand_action : Text → ActionConfig → Result ExpandError ActionConfig
  unfolding expand_move
  expand_action name ac = do m ← expand_move name ac.move; ok (record ac { move = m })

  -- The primary actions only: the source leaves `OnSuccess` and `OnFail` alone.
  expand_rule : Rule → Result ExpandError Rule
  unfolding expand_action traverse
  expand_rule rule = do
    acs ← traverse (λ _. expand_action rule.name) 0 rule.actions
    ok (record rule { actions = acs })

  unfoldable pub expand_paths : Config → Result ExpandError Config
  unfolding traverse expand_watch expand_host expand_rule
  expand_paths c = do
    watch ← traverse (λ _. expand_watch) 0 c.watch
    hosts ← traverse (λ _. expand_host) 0 c.ssh_hosts
    rules ← traverse (λ _. expand_rule) 0 c.rules
    ok (record c { watch = watch; ssh_hosts = hosts; rules = rules })

pub data LoadError : Type 0 where
  expand_config_path : OsError → LoadError
  read_config : LoadError
  expand_failed : ExpandError → LoadError
  invalid : ConfigError → LoadError

-- `Load`. Reading the file and decoding it is viper's, and an argument.
module _ (std : Std) (read : Text → Option Config) (home : HomeDir) (stat : Stat) where
  read_config_file : Text → Result LoadError Config
  read_config_file path = elim (read path) [ none ↦ err read_config | some c ↦ ok c ]

  unfoldable pub load : Text → Result LoadError Config
  unfolding read_config_file
  load path = do
    expanded ← map_error expand_config_path (expand_home home path)
    c ← read_config_file expanded
    c' ← map_error expand_failed (expand_paths home c)
    map_error invalid (validate std stat c')
    ok c'
