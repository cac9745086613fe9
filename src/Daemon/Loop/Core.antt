-- ===== src/Daemon/Loop/Core.antt =====
-- What the tray shows has no effect on what the daemon does.
use avella.Common.{
  ℕ, suc, ◌≡◌, refl, ap, sym, ◌∙◌, Bool, Bool-cases, List, [], ◌∷◌, Option, none, some, Result, ok,
  err, Result-cases, inl, inr, All,
}
use avella.Common.Int.{ℤ}
use avella.Common.Text.{Text}
use avella.Config.{Config}
use avella.Config.Expand.{LoadError}
use avella.Daemon.Loop.{
  Lines, Input, tick, emitted, commanded, reloaded, cancelled, files_closed, on_tick, on_file,
  on_reload, run_loop, run_daemon,
}
use avella.Daemon.Runtime.{Runtime, handle_path}
use avella.Daemon.Runtime.Reload.{Prepared, ReloadError, prepare, install}
use avella.Daemon.Sweep.{
  DirEntry, Env, Sweep, handle_file, process_entries, process_dir, process_existing_files,
}
use avella.Daemon.Tracker.{prune}
use avella.Go.{Std}
use avella.Go.FilePath.{join}
use avella.Rules.Engine.{Runner}

-- No client sends a command: a toggle would come from the mode that the tray shows.
abbrev pub IsSilent : Input → Type 0
IsSilent (commanded writes cmd) = ⊥
IsSilent (emitted l path) = Unit
IsSilent (tick l) = Unit
IsSilent (reloaded id loaded) = Unit
IsSilent cancelled = Unit
IsSilent files_closed = Unit

-- The daemon without its tray.
pub record Core (std : Std) (r : Runner) : Type 0 where
  pub runtime : Runtime std
  pub world : r.World
  pub files : ℕ

abbrev pub core : {std : Std} {r : Runner} → Sweep std r → Core std r
core s = record { runtime = s.runtime; world = s.world; files = s.files }

-- Another tray, or none: the same daemon with other times to show and other connections.
abbrev pub shown_by : {r : Runner} → (ℕ → ℤ) → (ℕ → ℕ → Bool) → Bool → Env r → Env r
shown_by now writes shows env = record env { now = now; writes = writes; shows = shows }

-- What a reload does to the daemon without its tray.
abbrev installed :
    (std : Std) (r : Runner) → Result ReloadError (Prepared std) → Core std r → Core std r
installed std r (err x) c = c
installed std r (ok p) c = record c { runtime = install std p c.runtime }

core-on_reload :
    (std : Std) (r : Runner) (env : Env r) (dirs : List Text) (id : ℕ)
    (loaded : Result LoadError Config) (s : Sweep std r)
    → core (on_reload std r env dirs id loaded s)
      ≡ installed std r (prepare std id s.runtime.dry_run loaded) (core s)
unfolding on_reload
core-on_reload std r env dirs id loaded s =
    elim (Result-cases (prepare std id s.runtime.dry_run loaded)) [
      | inl (p, made) ↦ rw (made, on_reload) refl
      | inr (x, failed) ↦ rw (failed, on_reload) refl
    ]

module _ (std : Std) (r : Runner) (env : Env r) (now : ℕ → ℤ) (writes : ℕ → ℕ → Bool)
    (shows : Bool) where
  abbrev other : Env r
  other = shown_by now writes shows env

  pub handle_file-core :
      (path : Text) (s t : Sweep std r)
      → core s ≡ core t
      → core (handle_file std r env path s) ≡ core (handle_file std r other path t)
  unfolding handle_file
  handle_file-core path s t e =
      ap
        (λ (c : Core std r).
          let h =
            handle_path std r (env.ignoring c.files) (env.processing c.files) path c.runtime
              c.world in
          let c' : Core std r = record {
            runtime = h.runtime;
            world = h.world;
            files = suc c.files;
          } in
          c')
        e

  process_entries-core :
      (dir : Text) (es : List DirEntry) (s t : Sweep std r)
      → core s ≡ core t
      → core (process_entries std r env dir es s) ≡ core (process_entries std r other dir es t)
  unfolding process_entries
  process_entries-core dir [] s t e = e
  process_entries-core dir (x ∷ es) s t e = elim (Bool-cases x.is_dir) [
    | inl is ↦ simp is (process_entries-core dir es s t e)
    | inr is_not ↦
        simp is_not (process_entries-core dir es _ _ (handle_file-core (join dir x.name) s t e))
  ]

  pub process_dir-core :
      (dir : Text) (found : Option (List DirEntry)) (s t : Sweep std r)
      → core s ≡ core t
      → core (process_dir std r env dir found s) ≡ core (process_dir std r other dir found t)
  unfolding process_dir
  process_dir-core dir none s t e = e
  process_dir-core dir (some es) s t e = process_entries-core dir es s t e

  pub process_existing_files-core :
      (dirs : List Text) (s t : Sweep std r)
      → core s ≡ core t
      → core (process_existing_files std r env dirs s)
        ≡ core (process_existing_files std r other dirs t)
  unfolding process_existing_files
  process_existing_files-core [] s t e = e
  process_existing_files-core (dir ∷ dirs) s t e =
      let same = ap (λ (c : Core std r). env.read_dir c.world dir) e in
      process_existing_files-core dirs _ _ (
        process_dir-core dir (env.read_dir s.world dir) s t e
        ∙ ap (λ found. core (process_dir std r other dir found t)) same)

  module _ (dirs : List Text) where
    pub on_tick-core :
        (l : Lines) (s t : Sweep std r)
        → core s ≡ core t
        → core (on_tick std r env dirs l s) ≡ core (on_tick std r other dirs l t)
    unfolding on_tick
    on_tick-core l s t e = process_existing_files-core dirs _ _ (
        ap
          (λ (c : Core std r).
            let rt : Runtime std = record (c.runtime) {
              tracker = prune (r.stat c.world) c.runtime.tracker;
            } in
            let c' : Core std r = record c { runtime = rt } in c')
          e)

    pub on_file-core :
        (l : Lines) (path : Text) (s t : Sweep std r)
        → core s ≡ core t
        → core (on_file std r env dirs l path s) ≡ core (on_file std r other dirs l path t)
    unfolding on_file
    on_file-core l path s t e = handle_file-core path _ _ e

    pub on_reload-core :
        (id : ℕ) (loaded : Result LoadError Config) (s t : Sweep std r)
        → core s ≡ core t
        → core (on_reload std r env dirs id loaded s)
          ≡ core (on_reload std r other dirs id loaded t)
    unfolding on_reload
    on_reload-core id loaded s t e =
        core-on_reload std r env dirs id loaded s
        ∙ ap (λ (c : Core std r). installed std r (prepare std id c.runtime.dry_run loaded) c) e
        ∙ sym (core-on_reload std r other dirs id loaded t)

    run_loop-core :
        (inputs : List Input) (s t : Sweep std r)
        → All IsSilent inputs
        → core s ≡ core t
        → core (run_loop std r env dirs inputs s) ≡ core (run_loop std r other dirs inputs t)
    unfolding run_loop
    run_loop-core [] s t q e = e
    run_loop-core (tick l ∷ inputs) s t q e = run_loop-core inputs _ _ q.1 (on_tick-core l s t e)
    run_loop-core (emitted l path ∷ inputs) s t q e =
        run_loop-core inputs _ _ q.1 (on_file-core l path s t e)
    run_loop-core (commanded writes cmd ∷ inputs) s t q e = absurd q.0
    run_loop-core (reloaded id loaded ∷ inputs) s t q e =
        run_loop-core inputs _ _ q.1 (on_reload-core id loaded s t e)
    run_loop-core (cancelled ∷ inputs) s t q e = e
    run_loop-core (files_closed ∷ inputs) s t q e = e

    -- Two daemons with the same engine, mode, pools, tracker and world end with the same, whatever
    -- their trays show at the start, which clients take the lines about files, at which times files
    -- are shown, and whether files are shown at all, as long as no client sends a command.
    pub run_daemon-core :
        (inputs : List Input) (s t : Sweep std r)
        → All IsSilent inputs
        → core s ≡ core t
        → core (run_daemon std r env dirs inputs s) ≡ core (run_daemon std r other dirs inputs t)
    unfolding run_daemon
    run_daemon-core inputs s t q e =
        run_loop-core inputs _ _ q (process_existing_files-core dirs s t e)
