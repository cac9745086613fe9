-- ===== src/Daemon/Runtime/HandlePath.antt =====
-- What handlePath guarantees about a file.
use avella.Common.{
  ℕ, ◌≡◌, ap, ◌≢◌, ◌∙◌, Bool, true, false, List, [], Option, none, some, ok, arith, Result-cases,
  inl, inr, All,
}
use avella.Common.Text.{Text}
use avella.Daemon.Runtime.{Runtime, unhandled, handle_path}
use avella.Daemon.Tracker.{Tracker, mark_processed, should_process}
use avella.Daemon.Tracker.Laws.{Call, Keeps, since, not_due_again}
use avella.Go.{Std}
use avella.Go.Os.{FileInfo}
use avella.Rules.Engine.{ProcessResult, Runner, Moment}
use avella.Rules.Engine.Process.Laws.{process_dry}

module _ (std : Std) (r : Runner) (ignoring processing : ℕ → Moment) (path : Text) where
  -- In the engine's dry-run mode handling a file changes nothing outside the daemon.
  pub handle_path_dry :
      (rt : Runtime std) (w : r.World)
      → rt.engine.dry_run ≡ true
      → (handle_path std r ignoring processing path rt w).world ≡ w
  unfolding handle_path
  handle_path_dry rt w dry = ground (arith, process_dry std r processing rt.engine path w dry)

  -- The state is changed by handling a file only if the file is recorded as processed.
  handle_path-recent :
      (rt : Runtime std) (w : r.World) (result : ProcessResult)
      → (handle_path std r ignoring processing path rt w).recent ≡ some result
      → (info : FileInfo) × (r.stat w path ≡ ok info)
        × ((handle_path std r ignoring processing path rt w).runtime
            ≡ record rt { tracker = mark_processed path info result.dry_run rt.tracker })
  unfolding handle_path
  handle_path-recent rt w result h = elim (Result-cases (r.stat w path)) [
    | inl (info, e) ↦ (info, e, ground arith)
    | inr (x, e) ↦ absurd (ground arith)
  ]

  pub not_due-unhandled :
      (rt : Runtime std) (w : r.World) (info : FileInfo)
      → r.stat w path ≡ ok info
      → should_process path info rt.dry_run rt.tracker ≡ false
      → handle_path std r ignoring processing path rt w ≡ unhandled std r rt w
  unfolding handle_path
  not_due-unhandled rt w info e h = ground arith

pub marked_not_due :
    (path : Text) (info : FileInfo) (was_dry dry_run : Bool) (t : Option Tracker)
    → t ≢ none
    → (was_dry ≡ true → dry_run ≡ true)
    → should_process path info dry_run (mark_processed path info was_dry t) ≡ false
marked_not_due path info was_dry dry_run t given mode =
    not_due_again path info was_dry dry_run [] t given tt mode

-- A file that was handled successfully is not handled again while it looks the same, whatever the
-- daemon has become in between: neither it nor the world changes. Between the two calls the tracker
-- was not reset, nor pruned while the file was missing, and the path was not marked again; after a
-- dry run the daemon is in dry-run mode at the second call.
pub handle_path_once :
    (std : Std) (r : Runner) (ignoring processing ignoring' processing' : ℕ → Moment) (path : Text)
    (rt rt' : Runtime std) (w w' : r.World) (result : ProcessResult) (later : List Call)
    → rt.tracker ≢ none
    → (handle_path std r ignoring processing path rt w).recent ≡ some result
    → All (Keeps path) later
    → rt'.tracker ≡ since later (handle_path std r ignoring processing path rt w).runtime.tracker
    → (result.dry_run ≡ true → rt'.dry_run ≡ true)
    → r.stat w' path ≡ r.stat w path
    → handle_path std r ignoring' processing' path rt' w'
      ≡ record { runtime = rt'; world = w'; recent = none }
unfolding unhandled
handle_path_once std r ignoring processing ignoring' processing' path rt rt' w w' result later
      tracked h keeps history mode same =
    let (info, seen, e) = handle_path-recent std r ignoring processing path rt w result h in
    let held = history ∙ ap (λ (x : Runtime std). since later x.tracker) e in
    not_due-unhandled std r ignoring' processing' path rt' w' info (same ∙ seen) (
      ap (should_process path info rt'.dry_run) held
      ∙ not_due_again path info result.dry_run rt'.dry_run later rt.tracker tracked keeps mode)
