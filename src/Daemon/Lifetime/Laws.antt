-- ===== src/Daemon/Lifetime/Laws.antt =====
-- When the process ends, and what it may leave behind.
use avella.Common.{◌≡◌, refl, true, false, Bool-cases, List, Option, Option-cases, inl, inr, ◌⊎◌}
use avella.Common.Text.{Text}
use avella.Daemon.Lifetime.{Lifetime, launch, IsCalled, MayReturn, works, exits, Steps, stop, go}
use avella.Daemon.Pipeline.{Pipeline, Stage, starting, looping, returned, watches, begins, returns}
use avella.Daemon.Sweep.{Env, Sweep, process_existing_files}
use avella.Go.{Std}
use avella.Rules.Engine.{Runner}
use avella.Ui.Server.{Start, headless, refused, serving, SocketError}
use avella.Watcher.{context_ends, NewError}

Stage-cases : (g : Stage) → (g ≡ starting) ⊎ (g ≡ looping) ⊎ (g ≡ returned)
Stage-cases starting = inl refl
Stage-cases looping = inr (inl refl)
Stage-cases returned = inr (inr refl)

may_return :
    (std : Std) (r : Runner) (how : Start) (p : Pipeline std r)
    → IsCalled std r how
    → p.stage ≡ returned
    → p.watch.done ≡ true
    → MayReturn std r how p
may_return std r (headless e) p called back done = back
may_return std r refused p called back done = tt
may_return std r (serving path) p called back done = done

module _ (std : Std) (r : Runner) (env : Env r) (dirs : List Text) (how : Start) where
  -- The last step of a process that ended was the return of Run.
  ended-MayReturn :
      {s t : Lifetime std r}
      → s.ended ≡ false
      → Steps std r env dirs how s t
      → t.ended ≡ true
      → MayReturn std r how t.runs
  ended-MayReturn begun (stop s) over = absurd (cc over)
  ended-MayReturn begun (go (works s running called st) rest) over =
      ended-MayReturn running rest over
  ended-MayReturn begun (go (exits s running may) (stop t)) over = may
  ended-MayReturn begun (go (exits s running may) (go (works t gone called st) rest)) over =
      absurd (cc gone)
  ended-MayReturn begun (go (exits s running may) (go (exits t gone again) rest)) over =
      absurd (cc gone)

  -- What is left to do for a process whose context is done.
  exits_returned :
      (s : Lifetime std r)
      → IsCalled std r how
      → s.ended ≡ false
      → s.runs.watch.done ≡ true
      → s.runs.stage ≡ returned
      → (t : Lifetime std r) × Steps std r env dirs how s t × (t.ended ≡ true)
  exits_returned s called running done back =
      (_, go (exits s running (may_return std r how s.runs called back done)) (stop _), refl)

  exits_looping :
      (s : Lifetime std r)
      → IsCalled std r how
      → s.ended ≡ false
      → s.runs.watch.done ≡ true
      → s.runs.stage ≡ looping
      → (t : Lifetime std r) × Steps std r env dirs how s t × (t.ended ≡ true)
  exits_looping s called running done loops =
      let after : Lifetime std r = record s {
        runs = record (s.runs) {
          watch = record (s.runs.watch) { receiving = false };
          stage = returned;
        };
      } in
      let (t, steps, over) = exits_returned after called running done refl in
      (t, go (works s running called (returns s.runs loops (inl done))) steps, over)

  exits_done :
      (s : Lifetime std r)
      → IsCalled std r how
      → s.ended ≡ false
      → s.runs.watch.done ≡ true
      → (t : Lifetime std r) × Steps std r env dirs how s t × (t.ended ≡ true)
  exits_done s called running done = elim (Stage-cases s.runs.stage) [
    | inl starts ↦
        let swept : Pipeline std r = record (s.runs) {
          watch = record (s.runs.watch) { receiving = true };
          daemon = process_existing_files std r env dirs s.runs.daemon;
          stage = looping;
        } in
        let (t, steps, over) = exits_looping (record s { runs = swept }) called running done refl in
        (t, go (works s running called (begins s.runs starts)) steps, over)
    | inr (inl loops) ↦ exits_looping s called running done loops
    | inr (inr back) ↦ exits_returned s called running done back
  ]

  -- Wherever a process is, it can end: by a signal, unless its context is done already, and then by
  -- steps of its daemon and of Run alone.
  quits :
      (s : Lifetime std r)
      → IsCalled std r how
      → s.ended ≡ false
      → (t : Lifetime std r) × Steps std r env dirs how s t × (t.ended ≡ true)
  quits s called running = elim (Bool-cases s.runs.watch.done) [
    | inl done ↦ exits_done s called running done
    | inr going ↦
        let signalled : Pipeline std r = record (s.runs) {
          watch = record (s.runs.watch) { done = true };
        } in
        let (t, steps, over) = exits_done (record s { runs = signalled }) called running refl in
        (
          t,
          go (works s running called (watches s.runs (context_ends s.runs.watch going) tt)) steps,
          over,
        )
  ]

module _ (std : Std) (r : Runner) (env : Env r) (dirs : List Text) (failed : Option NewError)
    (first : Sweep std r) where
  launch_running : (launch std r failed first).ended ≡ false
  unfolding launch
  launch_running = elim (Option-cases failed) [
    | inl none_failed ↦ rw (none_failed, launch) refl
    | inr (e, some_failed) ↦ rw (some_failed, launch) refl
  ]

  -- Without a socket the process ends only after runDaemon has returned.
  headless_exit :
      (e : SocketError) (t : Lifetime std r)
      → Steps std r env dirs (headless e) (launch std r failed first) t
      → t.ended ≡ true
      → t.runs.stage ≡ returned
  headless_exit e t steps over =
      ended-MayReturn std r env dirs (headless e) launch_running steps over

  -- With a socket the process ends only after its context is done: not when runDaemon returns, as it
  -- does when its watcher could not be made or fsnotify was closed.
  socket_exit :
      (path : Text) (t : Lifetime std r)
      → Steps std r env dirs (serving path) (launch std r failed first) t
      → t.ended ≡ true
      → t.runs.watch.done ≡ true
  socket_exit path t steps over =
      ended-MayReturn std r env dirs (serving path) launch_running steps over

  -- With a socket a signal ends the process while runDaemon is still in its loop.
  cut_off :
      (path : Text) (s : Lifetime std r)
      → s.ended ≡ false
      → s.runs.watch.done ≡ false
      → s.runs.stage ≡ looping
      → (t : Lifetime std r) × Steps std r env dirs (serving path) s t
        × (t.ended ≡ true)
        × (t.runs.stage ≡ looping)
  cut_off path s running going loops = (
    _,
    go (works s running tt (watches s.runs (context_ends s.runs.watch going) tt))
        (go (exits _ running refl) (stop _)),
    refl,
    loops,
  )
