-- ===== src/Daemon/Sweep/Laws.antt =====
-- What a sweep over the watch directories leaves alone.
use avella.Common.{
  ℕ, ◌≡◌, refl, ap, ◌∙◌, Bool, true, Bool-cases, List, [], ◌∷◌, Option, none, some, inl, inr, arith,
}
use avella.Common.Text.{Text}
use avella.Daemon.Runtime.{Runtime, handle_path}
use avella.Daemon.Runtime.HandlePath.{handle_path_dry}
use avella.Daemon.Sweep.{
  DirEntry, Env, Sweep, show_result, recent_from_result, handle_file, process_entries, process_dir,
  process_existing_files,
}
use avella.Go.{Std}
use avella.Go.FilePath.{join}
use avella.Rules.Engine.{Engine, ProcessResult, Runner, Moment}
use avella.Ui.{SocketUi, State, RecentFile, add_recent_file, push_recent}
use avella.Ui.Recent.{broadcast-st}

-- The parts of the runtime that handling a file never changes.
pub record SameModes (std : Std) (a b : Runtime std) : Type 0 where
  pub engine_same : b.engine ≡ a.engine
  pub dry_run_same : b.dry_run ≡ a.dry_run
  pub pools_same : b.ssh_pools ≡ a.ssh_pools

handle_path-SameModes :
    (std : Std) (r : Runner) (ignoring processing : ℕ → Moment) (path : Text) (rt : Runtime std)
    (w : r.World)
    → SameModes std rt (handle_path std r ignoring processing path rt w).runtime
unfolding handle_path
handle_path-SameModes std r ignoring processing path rt w = ground arith

-- The parts of the tray's state that only the daemon's loop and the tray's commands set.
pub record SameShown (a b : State) : Type 0 where
  pub status_same : b.status ≡ a.status
  pub processed_same : b.processed ≡ a.processed
  pub shown_dry_run_same : b.dry_run ≡ a.dry_run

add_recent_file-SameShown :
    (writes : ℕ → Bool) (file : RecentFile) (u : SocketUi)
    → SameShown u.st (add_recent_file writes file u).st
unfolding add_recent_file
add_recent_file-SameShown writes file u =
    let e =
      broadcast-st writes
        (record u { st = record (u.st) { recent_files = push_recent file u.st.recent_files } }) in
    record {
      status_same = ap (λ (s : State). s.status) e;
      processed_same = ap (λ (s : State). s.processed) e;
      shown_dry_run_same = ap (λ (s : State). s.dry_run) e;
    }

module _ (std : Std) (r : Runner) (env : Env r) where
  -- What a sweep leaves as it was, and the world too if the engine is in dry-run mode.
  pub record Untouched (s t : Sweep std r) : Type 0 where
    pub modes : SameModes std s.runtime t.runtime
    pub shown : SameShown s.ui.st t.ui.st
    pub world_kept : s.runtime.engine.dry_run ≡ true → t.world ≡ s.world

  Untouched-refl : (s : Sweep std r) → Untouched s s
  Untouched-refl s = record {
    modes = record { engine_same = refl; dry_run_same = refl; pools_same = refl };
    shown = record { status_same = refl; processed_same = refl; shown_dry_run_same = refl };
    world_kept = λ _. refl;
  }

  Untouched-trans : (s t u : Sweep std r) → Untouched s t → Untouched t u → Untouched s u
  Untouched-trans s t u a b = record {
    modes = record {
      engine_same = b.modes.engine_same ∙ a.modes.engine_same;
      dry_run_same = b.modes.dry_run_same ∙ a.modes.dry_run_same;
      pools_same = b.modes.pools_same ∙ a.modes.pools_same;
    };
    shown = record {
      status_same = b.shown.status_same ∙ a.shown.status_same;
      processed_same = b.shown.processed_same ∙ a.shown.processed_same;
      shown_dry_run_same = b.shown.shown_dry_run_same ∙ a.shown.shown_dry_run_same;
    };
    world_kept = λ dry.
        b.world_kept (ap (λ (e : Engine std). e.dry_run) a.modes.engine_same ∙ dry)
        ∙ a.world_kept dry;
  }

  show_result-SameShown :
      (n : ℕ) (path : Text) (result : Option ProcessResult) (u : SocketUi)
      → SameShown u.st (show_result std r env n path result u).st
  unfolding show_result
  show_result-SameShown n path none u = record {
    status_same = refl;
    processed_same = refl;
    shown_dry_run_same = refl;
  }
  show_result-SameShown n path (some result) u = elim (Bool-cases env.shows) [
    | inl shows ↦ rw shows (
        add_recent_file-SameShown (env.writes n) (recent_from_result std (env.now n) path result) u)
    | inr hidden ↦
        rw hidden (record { status_same = refl; processed_same = refl; shown_dry_run_same = refl })
  ]

  pub handle_file-Untouched :
      (path : Text) (s : Sweep std r) → Untouched s (handle_file std r env path s)
  unfolding handle_file
  handle_file-Untouched path s = record {
    modes =
        handle_path-SameModes std r (env.ignoring s.files) (env.processing s.files) path s.runtime
          s.world;
    shown = show_result-SameShown s.files path _ s.ui;
    world_kept =
        handle_path_dry std r (env.ignoring s.files) (env.processing s.files) path s.runtime
          s.world;
  }

  process_entries-Untouched :
      (dir : Text) (es : List DirEntry) (s : Sweep std r)
      → Untouched s (process_entries std r env dir es s)
  unfolding process_entries
  process_entries-Untouched dir [] s = Untouched-refl s
  process_entries-Untouched dir (e ∷ es) s = elim (Bool-cases e.is_dir) [
    | inl is ↦ rw is (process_entries-Untouched dir es s)
    | inr is_not ↦
        let s' = handle_file std r env (join dir e.name) s in
        rw is_not (
          Untouched-trans s s' (process_entries std r env dir es s')
            (handle_file-Untouched (join dir e.name) s) (process_entries-Untouched dir es s'))
  ]

  process_dir-Untouched :
      (dir : Text) (found : Option (List DirEntry)) (s : Sweep std r)
      → Untouched s (process_dir std r env dir found s)
  unfolding process_dir
  process_dir-Untouched dir none s = Untouched-refl s
  process_dir-Untouched dir (some es) s = process_entries-Untouched dir es s

  -- A sweep over any directories, whatever they hold, changes neither the engine nor the mode nor
  -- the pools, and of what the tray shows neither the status nor the count nor the mode. In the
  -- engine's dry-run mode it does not change the world.
  pub process_existing_files-Untouched :
      (dirs : List Text) (s : Sweep std r) → Untouched s (process_existing_files std r env dirs s)
  unfolding process_existing_files
  process_existing_files-Untouched [] s = Untouched-refl s
  process_existing_files-Untouched (dir ∷ dirs) s =
      let s' = process_dir std r env dir (env.read_dir s.world dir) s in
      Untouched-trans s s' (process_existing_files std r env dirs s')
        (process_dir-Untouched dir (env.read_dir s.world dir) s)
        (process_existing_files-Untouched dirs s')
