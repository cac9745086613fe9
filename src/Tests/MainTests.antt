-- ===== src/Tests/MainTests.antt =====
-- A test of main with the sample configuration.
use avella.Common.{◌≡◌, none, refl, true, false, some, ok, [], ℕ_discrete}
use avella.Common.Text.{str, text_eq}
use avella.Config.Expand.{load}
use avella.Daemon.Main.{new_log_handler, Cli, System, config_path, main}
use avella.Daemon.Main.Laws.{IsMain, main-IsMain}
use avella.Go.FilePath.{join}
use avella.PathUtil.{expand_home}
use avella.Tests.{go, disk, machine}
use avella.Tests.ConfigTests.{read, expanded_config, config_loaded}
use avella.Tests.LoopTests.{env}
use avella.Ui.Server.{stale}

abbrev flags : Cli
flags = record {
  config = str "~/avella.toml";
  log_file = [];
  dry_run = true;
  once = false;
  version = false;
}

abbrev system : System
system = record {
  read = read;
  home = ok (str "/home/me");
  stat = disk;
  makes_log_dir = λ d. true;
  version = str "dev";
  pool = 7;
  answers = record {
    home = some (str "/home/me");
    makes_dir = λ dir. true;
    in_time = λ d. true;
    removes = true;
    listens = true;
  };
  me = 1;
  socket = stale;
}

path_found : config_path system.home flags ≡ str "/home/me/avella.toml"
unfolding config_path expand_home join text_eq ℕ_discrete
path_found = refl

flags_loaded :
    load go system.read system.home system.stat (config_path system.home flags) ≡ ok expanded_config
flags_loaded = rw path_found config_loaded

logged : new_log_handler system.home system.makes_log_dir flags.log_file ≡ ok none
unfolding new_log_handler
logged = refl

main-IsMain_example :
    IsMain go machine env flags expanded_config [] (main go machine env system flags [])
main-IsMain_example =
    main-IsMain go machine env flags expanded_config [] system none refl logged flags_loaded
