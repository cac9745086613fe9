-- ===== src/Tests.antt =====
-- Sample data for the tests: an instance of `Std`, a world with one file, and a configuration.
mod RuleTests
mod ConfigTests
mod DaemonTests
mod RuntimeTests
mod UiTests
mod MoveTests
mod LoopTests
mod ActionTests
mod PoolTests
mod ServerTests
mod MainTests
mod PipelineTests
mod PoolsTests
mod IgnoreTests
mod StepwiseTests
mod HandlingTests
mod LifetimeTests
mod WatcherTests
use avella.Common.{
  ℕ, Bool, true, false, not, List, [], ◌∷◌, Option, none, some, ok, err, ◌==◌, if◌then◌else◌,
}
use avella.Common.Int.{pos}
use avella.Common.Text.{Text, str, text_eq}
use avella.Actions.{Action, move, exec, scp, validate_zip, notify}
use avella.Config.{MatchRule, ActionConfig, Rule, Ssh, Config}
use avella.Go.{Std}
use avella.Go.Os.{FileInfo, Stat, not_exist}
use avella.Rules.Engine.{CompiledRule, Engine, Runner, Moment}

-- Patterns without metacharacters match themselves; `[` and `(` alone are malformed.
abbrev pub go : Std
go = record {
  Regexp = Text;
  compile = λ s. if s == str "(" then none else some s;
  match_string = λ re s. re == s;
  glob = λ pattern s. if pattern == str "[" then none else some (pattern == s);
  parse_duration = λ s. if s == str "1s" then some (pos 1_000_000_000) else none;
  format_time = λ t layout. layout;
  Template = Text;
  parse_template = λ s. some s;
  execute_template = λ t fields. some t;
  unicode_lower = λ s. s;
  unicode_equal_fold = λ s t. s == t;
}

abbrev pub film : Text
film = str "/in/a.mkv"

abbrev pub film_info : FileInfo
film_info = record { size = pos 100; mod_time = pos 5; is_dir = false }

abbrev pub dir_info : FileInfo
dir_info = record { size = pos 0; mod_time = pos 1; is_dir = true }

abbrev pub disk : Stat
disk path =
    if path == film then ok film_info else if path == str "/in" then ok dir_info else err not_exist

-- The command `false` fails; the other actions succeed. The world lists what was executed.
abbrev pub succeeds : Action → Bool
succeeds (exec command) = not (command == str "false")
succeeds (move dest) = true
succeeds (scp host dest pool delete_source) = true
succeeds (validate_zip full) = true
succeeds (notify message) = true

abbrev pub machine : Runner
machine = record {
  World = List Action;
  stat = λ w. disk;
  execute = λ a path w. (succeeds a, a ∷ w);
}

-- The context is never done, and the clock stands still.
abbrev pub calm : ℕ → Moment
calm i = record { done = false; now = pos 2_000_000_000 }

abbrev pub any_file : MatchRule
any_file = record {
  filename_regex = [];
  filename_glob = [];
  file_type = [];
  min_age = [];
  min_age_seconds = pos 0;
  min_size = pos 0;
  max_size = pos 0;
}

abbrev pub large_file : MatchRule
large_file = record any_file { min_size = pos 1000 }

abbrev pub large_rule : CompiledRule go
large_rule = record {
  name = str "large";
  criteria = large_file;
  regex = none;
  min_age = pos 0;
  actions = move (str "/big") ∷ [];
  on_success = [];
  on_fail = [];
}

abbrev pub film_rule : CompiledRule go
film_rule = record {
  name = str "film";
  criteria = record any_file { filename_glob = str "a.mkv"; min_size = pos 10 };
  regex = none;
  min_age = pos 1_000_000_000;
  actions = exec (str "true") ∷ exec (str "false") ∷ move (str "/out") ∷ [];
  on_success = [];
  on_fail = notify (str "failed") ∷ [];
}

abbrev pub engine : Engine go
engine = record { rules = large_rule ∷ film_rule ∷ []; ignores = []; dry_run = false }

abbrev pub dry_engine : Engine go
dry_engine = record engine { dry_run = true }

abbrev pub no_action : ActionConfig
no_action = record { move = none; scp = none; exec = none; validate_zip = none; notify = none }

abbrev pub move_to : Text → ActionConfig
move_to dest = record no_action { move = some (record { dest = dest }) }

abbrev pub upload : ActionConfig
upload = record no_action {
  scp = some (record { host = str "nas"; dest = str "/up"; delete_source = false });
}

abbrev pub nas : Ssh
nas = record { host = str "nas:22"; user = str "me"; key = str "~/.ssh/id"; agent_sock = [] }

abbrev pub film_config : Rule
film_config = record {
  name = str "film";
  criteria = record any_file {
    filename_regex = str "a.mkv";
    file_type = str "Video";
    min_age = str "1s";
  };
  actions = move_to (str "~/films") ∷ upload ∷ [];
  on_success = [];
  on_fail = move_to (str "~/bad") ∷ [];
}

abbrev pub config : Config
config = record {
  watch = str "/in" ∷ [];
  ssh_hosts = (str "nas", nas) ∷ [];
  ignored = (str "parts", record { criteria = any_file }) ∷ [];
  rules = film_config ∷ [];
}
