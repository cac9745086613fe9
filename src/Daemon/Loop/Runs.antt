-- ===== src/Daemon/Loop/Runs.antt =====
-- What a whole run counts, and what it leaves alone in dry-run mode.
use avella.Common.{
  ℕ, suc, ◌+◌, ◌≡◌, ◌≢◌, refl, ap, ◌∙◌, Bool, true, Bool-cases, List, [], ◌∷◌, Result, inl, inr,
  arith, All, is_empty,
}
use avella.Common.Text.{Text}
use avella.Config.{Config}
use avella.Config.Expand.{LoadError}
use avella.Daemon.Loop.{
  Input, tick, emitted, commanded, reloaded, cancelled, files_closed, on_tick, on_file, on_command,
  on_reload, run_loop, run_daemon, serve,
}
use avella.Daemon.Loop.Laws.{on_tick-IsRound, on_file-IsRound}
use avella.Daemon.Loop.Modes.{
  IsAgreed, answered, start-IsAgreed, round-IsAgreed, on_command-IsAgreed, on_reload-IsAgreed,
}
use avella.Daemon.Runtime.{Runtime, swap_engine}
use avella.Daemon.Runtime.Reload.{install}
use avella.Daemon.Sweep.{Env, Sweep, process_existing_files}
use avella.Daemon.Sweep.Laws.{process_existing_files-Untouched}
use avella.Go.{Std}
use avella.Rules.Engine.{Runner}
use avella.Ui.{
  State, handle_command, command, Command, toggle_dry_run, open_config, quit, unknown, answer,
  set_rules,
}
use avella.Ui.Recent.{broadcast-st}

-- The files that are taken from the channel before the loop returns.
abbrev pub taken : List Input → ℕ
taken [] = 0
taken (emitted l path ∷ inputs) = suc (taken inputs)
taken (tick l ∷ inputs) = taken inputs
taken (commanded writes cmd ∷ inputs) = taken inputs
taken (reloaded id loaded ∷ inputs) = taken inputs
taken (cancelled ∷ inputs) = 0
taken (files_closed ∷ inputs) = 0

-- The input does not toggle the mode.
abbrev pub KeepsMode : Input → Type 0
KeepsMode (commanded writes cmd) = command cmd ≢ toggle_dry_run
KeepsMode (emitted l path) = Unit
KeepsMode (tick l) = Unit
KeepsMode (reloaded id loaded) = Unit
KeepsMode cancelled = Unit
KeepsMode files_closed = Unit

module _ (std : Std) (r : Runner) (env : Env r) (dirs : List Text) where
  answered-processed :
      (writes : ℕ → Bool) (k : Command) (s : Sweep std r)
      → (answered std r env dirs writes k s).ui.st.processed ≡ s.ui.st.processed
  unfolding answer
  answered-processed writes toggle_dry_run s =
      ap (λ (st : State). st.processed) (broadcast-st writes _)
  answered-processed writes open_config s = refl
  answered-processed writes quit s = refl
  answered-processed writes unknown s = refl

  pub on_command-processed :
      (writes : ℕ → Bool) (cmd : Text) (s : Sweep std r)
      → (on_command std r env dirs writes cmd s).ui.st.processed ≡ s.ui.st.processed
  unfolding on_command handle_command
  on_command-processed writes cmd s = answered-processed writes (command cmd) s

  pub on_reload-processed :
      (id : ℕ) (loaded : Result LoadError Config) (s : Sweep std r)
      → (on_reload std r env dirs id loaded s).ui.st.processed ≡ s.ui.st.processed
  unfolding on_reload set_rules
  on_reload-processed id loaded s = ground arith

  run_loop-processed :
      (inputs : List Input) (s : Sweep std r)
      → (run_loop std r env dirs inputs s).ui.st.processed ≡ s.ui.st.processed + taken inputs
  unfolding run_loop handle_command
  run_loop-processed [] s = omega arith
  run_loop-processed (tick l ∷ inputs) s = omega (
    arith,
    run_loop-processed inputs (on_tick std r env dirs l s),
    (on_tick-IsRound std r env dirs l s).counted,
  )
  run_loop-processed (emitted l path ∷ inputs) s = omega (
    arith,
    run_loop-processed inputs (on_file std r env dirs l path s),
    (on_file-IsRound std r env dirs l path s).counted,
  )
  run_loop-processed (commanded writes cmd ∷ inputs) s = omega (
    arith,
    run_loop-processed inputs (on_command std r env dirs writes cmd s),
    answered-processed writes (command cmd) s,
  )
  run_loop-processed (reloaded id loaded ∷ inputs) s = omega (
    arith,
    run_loop-processed inputs (on_reload std r env dirs id loaded s),
    on_reload-processed id loaded s,
  )
  run_loop-processed (cancelled ∷ inputs) s = omega arith
  run_loop-processed (files_closed ∷ inputs) s = omega arith

  -- The count that the tray shows grows by the files taken from the channel, and by no others:
  -- files that a sweep handles are not counted, nor what comes after the end of the loop.
  run_daemon-processed :
      (inputs : List Input) (s : Sweep std r)
      → (run_daemon std r env dirs inputs s).ui.st.processed ≡ s.ui.st.processed + taken inputs
  unfolding run_daemon
  run_daemon-processed inputs s =
      run_loop-processed inputs (process_existing_files std r env dirs s)
      ∙ ap (λ n. n + taken inputs)
          (process_existing_files-Untouched std r env dirs s).shown.processed_same

  -- The daemon in dry-run mode, in agreement with its engine.
  abbrev IsDry : Sweep std r → Type 0
  IsDry s = IsAgreed std r env dirs s × (s.runtime.dry_run ≡ true)

  answered-runtime :
      (writes : ℕ → Bool) (k : Command) (s : Sweep std r)
      → k ≢ toggle_dry_run
      → (answered std r env dirs writes k s).runtime ≡ s.runtime
  unfolding answer serve
  answered-runtime writes toggle_dry_run s other = absurd (other refl)
  answered-runtime writes open_config s other = elim (Bool-cases (is_empty s.ui.st.config_path)) [
    | inl no_path ↦ rw no_path
    | inr path ↦ rw path
  ]
  answered-runtime writes quit s other = refl
  answered-runtime writes unknown s other = refl

  on_reload-dry_run :
      (id : ℕ) (loaded : Result LoadError Config) (s : Sweep std r)
      → ((on_reload std r env dirs id loaded s).runtime.dry_run ≡ s.runtime.dry_run)
        × ((on_reload std r env dirs id loaded s).world ≡ s.world)
  unfolding on_reload install swap_engine
  on_reload-dry_run id loaded s = ground arith

  run_loop_dry :
      (inputs : List Input) (s : Sweep std r)
      → All KeepsMode inputs
      → IsDry s
      → (run_loop std r env dirs inputs s).world ≡ s.world
  unfolding run_loop handle_command
  run_loop_dry [] s k d = refl
  run_loop_dry (tick l ∷ inputs) s k d =
      let round = on_tick-IsRound std r env dirs l s in
      let t = on_tick std r env dirs l s in
      run_loop_dry inputs t k.1
        (round-IsAgreed std r env dirs 0 s t round d.0, round.mode_kept ∙ d.1)
      ∙ round.world_kept (d.0.engine_mode ∙ d.1)
  run_loop_dry (emitted l path ∷ inputs) s k d =
      let round = on_file-IsRound std r env dirs l path s in
      let t = on_file std r env dirs l path s in
      run_loop_dry inputs t k.1
        (round-IsAgreed std r env dirs 1 s t round d.0, round.mode_kept ∙ d.1)
      ∙ round.world_kept (d.0.engine_mode ∙ d.1)
  run_loop_dry (commanded writes cmd ∷ inputs) s k d =
      run_loop_dry inputs (on_command std r env dirs writes cmd s) k.1 (
        on_command-IsAgreed std r env dirs writes cmd s d.0,
        ap (λ (rt : Runtime std). rt.dry_run) (answered-runtime writes (command cmd) s k.0) ∙ d.1,
      )
  run_loop_dry (reloaded id loaded ∷ inputs) s k d =
      let (mode, world) = on_reload-dry_run id loaded s in
      run_loop_dry inputs (on_reload std r env dirs id loaded s) k.1
        (on_reload-IsAgreed std r env dirs id loaded s d.0, mode ∙ d.1)
      ∙ world
  run_loop_dry (cancelled ∷ inputs) s k d = refl
  run_loop_dry (files_closed ∷ inputs) s k d = refl

  -- A daemon that is in dry-run mode, and whose inputs toggle nothing, never changes the world,
  -- however many files, sweeps and reloads there are.
  pub run_daemon_dry :
      (inputs : List Input) (s : Sweep std r)
      → All KeepsMode inputs
      → IsAgreed std r env dirs s
      → s.runtime.dry_run ≡ true
      → (run_daemon std r env dirs inputs s).world ≡ s.world
  unfolding run_daemon
  run_daemon_dry inputs s k a dry =
      let kept = process_existing_files-Untouched std r env dirs s in
      run_loop_dry inputs (process_existing_files std r env dirs s) k
        (start-IsAgreed std r env dirs s a, kept.modes.dry_run_same ∙ dry)
      ∙ kept.world_kept (a.engine_mode ∙ dry)
