-- ===== src/Daemon/Sweep.antt =====
-- main.go: processExistingFiles, and what addRecentFromResult and ruleInfoFromConfig show.
pub mod Laws
use avella.Common.{ℕ, suc, Bool, false, List, [], ◌∷◌, ◌++◌, map, Option, none, some, if◌then◌else◌}
use avella.Common.Int.{ℤ}
use avella.Common.Text.{Text, str}
use avella.Config.{ActionConfig, Rule, type_name}
use avella.Daemon.Runtime.{Runtime, Handled, handle_path}
use avella.Go.{Std}
use avella.Go.FilePath.{base, join}
use avella.Rules.Engine.{ProcessResult, Runner, Moment}
use avella.Ui.{RecentFile, RuleInfo, SocketUi, add_recent_file}

-- `os.DirEntry`
pub record DirEntry : Type 0 where
  pub name : Text
  pub is_dir : Bool

-- `os.ReadDir` in a world; `none` is an error.
abbrev pub ReadDir : Runner → Type 0
ReadDir r = r.World → Text → Option (List DirEntry)

first_action : List Text → Text
first_action [] = []
first_action (a ∷ acts) = a

-- What `addRecentFromResult` adds, at the moment `now`.
unfoldable pub recent_from_result : Std → ℤ → Text → ProcessResult → RecentFile
unfolding first_action
recent_from_result std now path result = record {
  filename = base path;
  rule = result.rule_name;
  action = first_action result.actions;
  dry_run = result.dry_run;
  time = std.format_time now (str "2006-01-02T15:04:05Z07:00");
}

-- What a sweep is run with. The n-th file of the daemon's life has its own moments, its time for
-- the tray, and the connections that take the line about it. `shows` is false where u is nil.
pub record Env (r : Runner) : Type 0 where
  pub ignoring : ℕ → ℕ → Moment
  pub processing : ℕ → ℕ → Moment
  pub now : ℕ → ℤ
  pub writes : ℕ → ℕ → Bool
  pub read_dir : ReadDir r
  pub shows : Bool

module _ (std : Std) (r : Runner) where
  -- The daemon between two files. `files` counts the files that were given to handlePath.
  pub record Sweep : Type 0 where
    pub runtime : Runtime std
    pub world : r.World
    pub ui : SocketUi
    pub files : ℕ

  -- `addRecentFromResult`, for a result that there is to show.
  unfoldable pub show_result : Env r → ℕ → Text → Option ProcessResult → SocketUi → SocketUi
  show_result env n path none u = u
  show_result env n path (some result) u =
      if env.shows
      then add_recent_file (env.writes n) (recent_from_result std (env.now n) path result) u
      else u

  unfoldable pub handle_file : Env r → Text → Sweep → Sweep
  unfolding show_result
  handle_file env path s =
      let h =
        handle_path std r (env.ignoring s.files) (env.processing s.files) path s.runtime s.world in
      record {
        runtime = h.runtime;
        world = h.world;
        ui = show_result env s.files path h.recent s.ui;
        files = suc s.files;
      }

  unfoldable pub process_entries : Env r → Text → List DirEntry → Sweep → Sweep
  process_entries env dir [] s = s
  process_entries env dir (e ∷ es) s =
      process_entries env dir es (if e.is_dir then s else handle_file env (join dir e.name) s)

  -- A directory that cannot be read is passed over.
  unfoldable pub process_dir : Env r → Text → Option (List DirEntry) → Sweep → Sweep
  process_dir env dir none s = s
  process_dir env dir (some es) s = process_entries env dir es s

  unfoldable pub process_existing_files : Env r → List Text → Sweep → Sweep
  process_existing_files env [] s = s
  process_existing_files env (dir ∷ dirs) s =
      process_existing_files env dirs (process_dir env dir (env.read_dir s.world dir) s)

  -- `runOnce`: no tray is shown.
  unfoldable pub run_once : Env r → List Text → Sweep → Sweep
  run_once env = process_existing_files (record env { shows = false })

-- `strings.Join(types, "+")`
join_plus : List Text → Text
join_plus [] = []
join_plus (t ∷ []) = t
join_plus (t ∷ u ∷ ts) = t ++ b'+' ∷ join_plus (u ∷ ts)

unfoldable pub rule_info_from_config : List Rule → List RuleInfo
unfolding join_plus
rule_info_from_config =
    map (λ r. record { name = r.name; action_type = join_plus (map type_name r.actions) })
