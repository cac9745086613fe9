-- ===== src/Tests/RuntimeTests.antt =====
-- Tests of the runtime, and its theorems for one file and one reload.
use avella.Common.{
  ◌≡◌, refl, Bool, true, false, List, All, [], ◌∷◌, ◌++◌, map, none, some, ok, err, ◌⊎◌, ℕ_discrete,
}
use avella.Common.Dict.{lookup}
use avella.Common.Int.{int_eq, clamp_int64, ◌-ℤ◌}
use avella.Common.Text.{Text, str, text_eq}
use avella.Actions.{exec, describe, to_string}
use avella.Config.{Config, MatchRule}
use avella.Config.Expand.{LoadError, load}
use avella.Daemon.Runtime.{Runtime, handle_path, set_dry_run, pools_of}
use avella.Daemon.Runtime.HandlePath.{handle_path_once}
use avella.Daemon.Runtime.Reload.{Prepared, prepare, install, reload_config, Reloading}
use avella.Daemon.Runtime.Reload.Laws.{InSync, IsSynced, toggle_lost, reload_config_loaded}
use avella.Daemon.Tracker.{clear, should_process}
use avella.Daemon.Tracker.Laws.{Call, mark, prunes, Keeps, since as after_calls}
use avella.Go.FilePath.{base, ext}
use avella.Go.Strings.{to_lower}
use avella.Stabilizer.{should_skip}
use avella.Rules.Engine.Process.{should_ignore, process, fire, execute_rule}
use avella.Go.Os.{HomeDir}
use avella.Rules.Engine.{Engine, ProcessResult}
use avella.Rules.Engine.Compile.{new_engine, new_ssh}
use avella.Rules.Match.{matches, effective_min_age, since}
use avella.Tests.{go, film, disk, machine, calm, film_rule, engine, config, film_info}
use avella.Tests.ConfigTests.{read}

abbrev runtime : Engine go → Bool → Runtime go
runtime e dry_run = record { engine = e; dry_run = dry_run; ssh_pools = []; tracker = some [] }

abbrev good_engine : Engine go
good_engine = record engine { rules = record film_rule { actions = exec (str "true") ∷ [] } ∷ [] }

abbrev taken : ProcessResult
taken = record {
  matched = true;
  rule_name = str "film";
  actions = to_string (exec (str "true")) ∷ [];
  dry_run = false;
}

film_handled :
    (handle_path go machine calm calm film (runtime good_engine false) []).recent ≡ some taken
unfolding handle_path should_skip to_lower ext should_ignore should_process lookup process fire
    execute_rule describe matches text_eq ℕ_discrete base effective_min_age int_eq since clamp_int64
    ◌-ℤ◌
film_handled = refl

-- Another file was processed, and the tracker was pruned, the latest call first.
abbrev others : List Call
others = prunes disk ∷ mark (str "/in/b") film_info true ∷ []

others-Keeps : All (Keeps film) others
unfolding text_eq ℕ_discrete
others-Keeps = ((λ e. cc e), ((λ e. cc e), tt))

-- By then the daemon is in dry-run mode, with other rules.
abbrev later_runtime : Runtime go
later_runtime = record (runtime engine true) {
  tracker =
      after_calls others
        (handle_path go machine calm calm film (runtime good_engine false) []).runtime.tracker;
}

handle_path_once_example :
    handle_path go machine calm calm film later_runtime (exec (str "true") ∷ [])
    ≡ record { runtime = later_runtime; world = exec (str "true") ∷ []; recent = none }
handle_path_once_example =
    handle_path_once go machine calm calm calm calm film (runtime good_engine false) later_runtime
      [] (exec (str "true") ∷ []) taken others (λ e. cc e) film_handled others-Keeps refl
      (λ e. cc e) refl

abbrev home : HomeDir
home = ok (str "/home/me")

reload_config_loaded_example :
    let rt = runtime engine true in
    let loaded = load go read home disk (str "avella.toml") in
    let after = reload_config go 7 loaded rt in
    ((x : LoadError) × (loaded ≡ err x) × (after ≡ rt))
    ⊎ ((c : Config) × (e : Engine go) × (loaded ≡ ok c)
        × (e.dry_run ≡ rt.dry_run)
        × (map {B = Text × MatchRule} (λ cr. (cr.name, cr.criteria)) e.rules
            ≡ map (λ r. (r.name, r.criteria)) c.rules)
        × (after ≡ record rt {
          engine = e;
          ssh_pools = rt.ssh_pools ++ pools_of (new_ssh c.ssh_hosts 7);
          tracker = clear rt.tracker;
        }))
reload_config_loaded_example =
    reload_config_loaded go read home disk (str "avella.toml") 7 (runtime engine true)

abbrev empty_config : Config
empty_config = record config { ssh_hosts = []; ignored = []; rules = [] }

abbrev empty_engine : Engine go
empty_engine = record { rules = []; ignores = []; dry_run = false }

abbrev prepared : Prepared go
prepared = record { engine = empty_engine; pool = none; rules = [] }

made : prepare go 7 false (ok empty_config) ≡ ok prepared
unfolding prepare new_engine new_ssh
made = refl

toggle_lost_example :
    let after = install go prepared (set_dry_run go true (runtime engine false)) in
    (after.dry_run ≡ true) × (after.engine.dry_run ≡ false) × ¬ InSync go after
toggle_lost_example =
    toggle_lost go 7 (ok empty_config) (runtime engine false) prepared true made (λ e. cc e)

abbrev idle_daemon : Reloading go
idle_daemon = record { runtime = runtime engine false; pending = none }

idle_daemon-IsSynced : IsSynced go idle_daemon
idle_daemon-IsSynced = record { in_sync = refl; current = λ p e. absurd (cc e) }
