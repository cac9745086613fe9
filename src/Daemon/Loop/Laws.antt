-- ===== src/Daemon/Loop/Laws.antt =====
-- The daemon, its engine and the tray over a whole run.
use avella.Common.{ℕ, suc, ◌+◌, ◌≡◌, ap, ◌∙◌, Bool, true, List, ◌++◌, arith}
use avella.Common.Text.{Text, str}
use avella.Daemon.Loop.{Lines, on_tick, on_file}
use avella.Daemon.Sweep.{Env, Sweep, handle_file, process_existing_files}
use avella.Daemon.Sweep.Laws.{handle_file-Untouched, process_existing_files-Untouched}
use avella.Daemon.Tracker.{prune}
use avella.Go.{Std}
use avella.Rules.Engine.{Runner}
use avella.Ui.{SocketUi, State, set_status, inc_processed}
use avella.Ui.Recent.{broadcast-st}

set_status-st :
    (writes : ℕ → Bool) (status : Text) (u : SocketUi)
    → (set_status writes status u).st ≡ record (u.st) { status = status }
unfolding set_status
set_status-st writes status u =
    broadcast-st writes (record u { st = record (u.st) { status = status } })

inc_processed-st :
    (writes : ℕ → Bool) (u : SocketUi)
    → (inc_processed writes u).st ≡ record (u.st) { processed = suc u.st.processed }
unfolding inc_processed
inc_processed-st writes u =
    broadcast-st writes (record u { st = record (u.st) { processed = suc u.st.processed } })

module _ (std : Std) (r : Runner) where
  -- What a round does that handles n files from the channel: the mode stays, the tray shows that
  -- the daemon is idle and n files more, and in dry-run mode the world stays.
  pub record IsRound (n : ℕ) (s t : Sweep std r) : Type 0 where
    pub engine_kept : t.runtime.engine ≡ s.runtime.engine
    pub mode_kept : t.runtime.dry_run ≡ s.runtime.dry_run
    pub shown_kept : t.ui.st.dry_run ≡ s.ui.st.dry_run
    pub idle : t.ui.st.status ≡ str "Idle"
    pub counted : t.ui.st.processed ≡ s.ui.st.processed + n
    pub world_kept : s.runtime.engine.dry_run ≡ true → t.world ≡ s.world

  module _ (env : Env r) (dirs : List Text) where
    pub on_tick-IsRound : (l : Lines) (s : Sweep std r) → IsRound 0 s (on_tick std r env dirs l s)
    unfolding on_tick
    on_tick-IsRound l s =
        let u = set_status l.first (str "Sweeping watch directories") s.ui in
        let before : Sweep std r = record s {
          runtime = record (s.runtime) { tracker = prune (r.stat s.world) s.runtime.tracker };
          ui = u;
        } in
        let e = set_status-st l.first (str "Sweeping watch directories") s.ui in
        let swept = process_existing_files std r env dirs before in
        let kept = process_existing_files-Untouched std r env dirs before in
        let e' = set_status-st l.last (str "Idle") swept.ui in
        record {
          engine_kept = kept.modes.engine_same;
          mode_kept = kept.modes.dry_run_same;
          shown_kept =
              ap (λ (st : State). st.dry_run) e'
              ∙ kept.shown.shown_dry_run_same
              ∙ ap (λ (st : State). st.dry_run) e;
          idle = ap (λ (st : State). st.status) e';
          counted =
              ap (λ (st : State). st.processed) e'
              ∙ kept.shown.processed_same
              ∙ ap (λ (st : State). st.processed) e
              ∙ omega arith;
          world_kept = kept.world_kept;
        }

    pub on_file-IsRound :
        (l : Lines) (path : Text) (s : Sweep std r) → IsRound 1 s (on_file std r env dirs l path s)
    unfolding on_file
    on_file-IsRound l path s =
        let u = set_status l.first (str "Processing " ++ path) s.ui in
        let before : Sweep std r = record s { ui = u } in
        let e = set_status-st l.first (str "Processing " ++ path) s.ui in
        let handled = handle_file std r env path before in
        let kept = handle_file-Untouched std r env path before in
        let e₁ = inc_processed-st l.counted handled.ui in
        let e₂ = set_status-st l.last (str "Idle") (inc_processed l.counted handled.ui) in
        record {
          engine_kept = kept.modes.engine_same;
          mode_kept = kept.modes.dry_run_same;
          shown_kept =
              ap (λ (st : State). st.dry_run) e₂
              ∙ ap (λ (st : State). st.dry_run) e₁
              ∙ kept.shown.shown_dry_run_same
              ∙ ap (λ (st : State). st.dry_run) e;
          idle = ap (λ (st : State). st.status) e₂;
          counted =
              ap (λ (st : State). st.processed) e₂
              ∙ ap (λ (st : State). st.processed) e₁
              ∙ ap suc (kept.shown.processed_same ∙ ap (λ (st : State). st.processed) e)
              ∙ omega arith;
          world_kept = kept.world_kept;
        }
