-- ===== src/Daemon/Pipeline/Unstable.antt =====
-- A sweep does not ask whether the watcher still waits for a file.
use avella.Common.{
  ℕ, ◌≡◌, ap, ◌∙◌, Bool, true, false, List, [], ◌∷◌, ◌++◌, Option, none, some, ok, arith, ◌⊎◌, inl,
  inr, All-parts, not,
}
use avella.Common.Dict.{lookup, lookup-retain}
use avella.Common.Text.{Text, text_eq}
use avella.Daemon.Loop.{Lines, on_tick}
use avella.Daemon.Pipeline.{Pipeline, looping, Step, ticks, Reach, here, next}
use avella.Daemon.Pipeline.Laws.{Step-watch}
use avella.Daemon.Runtime.{Runtime, handle_path}
use avella.Daemon.Sweep.{
  Env, Sweep, handle_file, process_entries, process_dir, process_existing_files,
}
use avella.Daemon.Tracker.{Tracker, is_missing, prune, should_process}
use avella.Go.{Std}
use avella.Go.FilePath.{join}
use avella.Go.Os.{FileInfo, Stat}
use avella.Rules.Engine.{CompiledRule, Runner, Moment}
use avella.Rules.Engine.Process.{Outcome, fire, process, run_hooks, should_ignore}
use avella.Rules.Engine.Process.Actions.{AllSucceed, StopsAt, fire_executes}
use avella.Rules.Engine.Process.Laws.{Selects, process-Selects}
use avella.Stabilizer.{Poll, should_skip}
use avella.Watcher.{Wait, Watch, polling}
use avella.Watcher
use avella.Watcher.Laws.{IsSound, IsConsistent, Reach-IsConsistent}

-- A goroutine of the watcher is in WaitStable for the path.
abbrev pub IsWaiting : Text → Watch → Type 0
IsWaiting path w =
    (before : List Wait) × (after : List Wait) × (made : List Poll) × (w.waits
      ≡ before ++ record { path = path; turn = polling made } ∷ after)

-- The tracker holds nothing of the path.
abbrev pub IsNew : Text → Option Tracker → Type 0
IsNew path none = Unit
IsNew path (some m) = lookup path m ≡ none

-- A path that the tracker does not hold is due, also after a Prune.
new_due :
    (stat : Stat) (path : Text) (info : FileInfo) (dry_run : Bool) (t : Option Tracker)
    → IsNew path t
    → should_process path info dry_run (prune stat t) ≡ true
unfolding should_process prune
new_due stat path info dry_run none new = ground arith
new_due stat path info dry_run (some m) new =
    rw (lookup-retain (λ path. not (is_missing (stat path))) path m) (ground (arith, new))

-- What the execution of a rule leaves: its actions were executed up to the first failure, and then
-- the hooks that belong to the outcome.
abbrev pub IsExecuted :
    (std : Std) (r : Runner) → Text → CompiledRule std → r.World → r.World → Type 0
IsExecuted std r path cr w w' =
    (w₁ : r.World) × (((w' ≡ run_hooks std r path cr.on_success w₁)
        × AllSucceed r path cr.actions w w₁)
      ⊎ ((w' ≡ run_hooks std r path cr.on_fail w₁) × StopsAt r path cr.actions w w₁))

fire-IsExecuted :
    (std : Std) (r : Runner) (path : Text) (cr : CompiledRule std) (dry_run : Bool) (w : r.World)
    → dry_run ≡ false
    → IsExecuted std r path cr w (fire std r dry_run path cr w).world
fire-IsExecuted std r path cr dry_run w real =
    let (_, (w₁, outcome)) = fire_executes std r path cr w in
    rw real (
      w₁,
      elim outcome [
        | inl (_, hooks, all) ↦ inl (hooks, all)
        | inr (_, hooks, stops) ↦ inr (hooks, stops)
      ],
    )

handle_path-world :
    (std : Std) (r : Runner) (ignoring processing : ℕ → Moment) (path : Text) (rt : Runtime std)
    (info : FileInfo) (w : r.World)
    → should_skip std path ≡ false
    → should_ignore std (r.stat w) ignoring rt.engine path ≡ false
    → r.stat w path ≡ ok info
    → should_process path info rt.dry_run rt.tracker ≡ true
    → (handle_path std r ignoring processing path rt w).world
      ≡ (process std r processing rt.engine path w).world
unfolding handle_path
handle_path-world std r ignoring processing path rt info w kept noticed there due = ground arith

module _ (std : Std) (r : Runner) (env : Env r) (dir name : Text) (first : Sweep std r) where
  Reach-watch : {s : Pipeline std r} → Reach std r env (dir ∷ []) first s → IsConsistent std s.watch
  Reach-watch here = Reach-IsConsistent std Watcher.here
  Reach-watch (next reached st) = Step-watch std r env (dir ∷ []) st (Reach-watch reached)

  -- The path of a goroutine is that of no temporary file.
  waiting_kept :
      {s : Pipeline std r} (path : Text)
      → Reach std r env (dir ∷ []) first s
      → IsWaiting path s.watch
      → should_skip std path ≡ false
  waiting_kept {s} path reached (before, after, made, e) =
      let w : Wait = record { path = path; turn = polling made } in
      (All-parts (IsSound std) before after w (rw e at (Reach-watch reached).sound)).0.kept

  -- If the only watched directory holds one file, for which the watcher still waits in WaitStable,
  -- then a sweep in the loop executes the actions of the first rule that matches, up to the first
  -- failure, and its hooks, and the watcher goes on waiting. The engine is not in dry-run mode and
  -- does not ignore the file, os.Stat finds it, the tracker holds nothing of it, and the context is
  -- not done before that rule.
  pub sweep_unstable :
      (l : Lines) (cr : CompiledRule std) (info : FileInfo) (s : Pipeline std r)
      → Reach std r env (dir ∷ []) first s
      → s.stage ≡ looping
      → IsWaiting (join dir name) s.watch
      → env.read_dir s.daemon.world dir ≡ some (record { name = name; is_dir = false } ∷ [])
      → r.stat s.daemon.world (join dir name) ≡ ok info
      → s.daemon.runtime.engine.dry_run ≡ false
      → should_ignore std
          (r.stat s.daemon.world)
          (env.ignoring s.daemon.files)
          s.daemon.runtime.engine
          (join dir name)
        ≡ false
      → IsNew (join dir name) s.daemon.runtime.tracker
      → Selects std
          (env.processing s.daemon.files)
          (join dir name)
          info
          cr
          0
          s.daemon.runtime.engine.rules
      → (t : Pipeline std r) × Step std r env (dir ∷ []) s t
        × IsWaiting (join dir name) t.watch
        × IsExecuted std r (join dir name) cr s.daemon.world t.daemon.world
  unfolding on_tick process_existing_files process_dir process_entries handle_file
  sweep_unstable l cr info s reached loops waits found there real noticed new selected =
      let d = s.daemon in
      let path = join dir name in
      let pruned : Runtime std = record (d.runtime) {
        tracker = prune (r.stat d.world) d.runtime.tracker;
      } in
      let swept =
        handle_path-world std r (env.ignoring d.files) (env.processing d.files) path pruned info
          d.world (waiting_kept path reached waits) noticed there
          (new_due (r.stat d.world) path info d.runtime.dry_run d.runtime.tracker new)
        ∙ ap (λ (o : Outcome std r). o.world)
            (process-Selects std r (env.processing d.files) d.runtime.engine path d.world info cr
              there selected) in
      (
        record s { daemon = on_tick std r env (dir ∷ []) l d },
        ticks l s loops,
        waits,
        rw (found, swept) (fire-IsExecuted std r path cr d.runtime.engine.dry_run d.world real),
      )
