-- ===== src/Rules/Engine/Process/Announce.antt =====
-- The lines that a dry run logs, against what a real run of the same rule executes.
use mathlib.Core.List.{Mem, mem-cons_self, mem-cons_of_mem, mem-append_left, mem-append_right}
use avella.Common.{
  ◌≡◌, refl, sym, ap, ◌∙◌, Bool, true, false, Bool-cases, inl, inr, List, [], ◌∷◌, ◌++◌, map, All,
  if◌then◌else◌,
}
use avella.Common.Text.{Text, str}
use avella.Actions.{Action, describe}
use avella.Go.{Std}
use avella.Rules.Engine.{CompiledRule, ProcessResult, Runner}
use avella.Rules.Engine.Process.{run_actions, run_hooks, execute_rule, fire}

-- "[dry-run] would execute", with its attributes but the path.
pub record Announcement : Type 0 where
  pub rule : Text
  pub list : Text
  pub action : Text

module _ (std : Std) (r : Runner) (path : Text) where
  -- `logDryRun`
  unfoldable pub log_dry_run : Text → Text → List Action → r.World → List Announcement
  log_dry_run rule list acts w =
      map (λ a. record { rule = rule; list = list; action = describe std (r.stat w) path a }) acts

  -- What Process logs for the rule that it takes.
  unfoldable pub fire_log : Bool → CompiledRule std → r.World → List Announcement
  unfolding log_dry_run
  fire_log dry_run cr w =
      if dry_run
      then log_dry_run cr.name (str "action") cr.actions w
        ++ (log_dry_run cr.name (str "on_success") cr.on_success w
            ++ log_dry_run cr.name (str "on_fail") cr.on_fail w)
      else []

-- A runner that keeps the actions that it executed, the latest first.
abbrev pub traced : Runner → Runner
traced r = record {
  World = r.World × List Action;
  stat = λ w. r.stat w.0;
  execute = λ a path w. let (good, w') = r.execute a path w.0 in (good, (w', a ∷ w.1));
}

module _ (std : Std) (r : Runner) (path : Text) where
  run_actions-traced :
      (acts t : List Action) (w : r.World)
      → ((run_actions std (traced r) path acts (w, t)).0 ≡ (run_actions std r path acts w).0)
        × ((run_actions std (traced r) path acts (w, t)).1.0 ≡ (run_actions std r path acts w).1)
  unfolding run_actions
  run_actions-traced [] t w = (refl, refl)
  run_actions-traced (a ∷ acts) t w = elim (Bool-cases (r.execute a path w).0) [
    | inl good ↦ simp good (run_actions-traced acts (a ∷ t) (r.execute a path w).1)
    | inr bad ↦ simp bad (refl, refl)
  ]

  run_hooks-traced :
      (acts t : List Action) (w : r.World)
      → (run_hooks std (traced r) path acts (w, t)).0 ≡ run_hooks std r path acts w
  unfolding run_hooks
  run_hooks-traced [] t w = refl
  run_hooks-traced (a ∷ acts) t w = run_hooks-traced acts (a ∷ t) (r.execute a path w).1

  module _ (P : Action → Type 0) where
    run_actions-All :
        (acts t : List Action) (w : r.World)
        → All P acts
        → All P t
        → All P (run_actions std (traced r) path acts (w, t)).1.1
    unfolding run_actions
    run_actions-All [] t w new old = old
    run_actions-All (a ∷ acts) t w new old = elim (Bool-cases (r.execute a path w).0) [
      | inl good ↦
          simp good (run_actions-All acts (a ∷ t) (r.execute a path w).1 new.1 (new.0, old))
      | inr bad ↦ simp bad (new.0, old)
    ]

    run_hooks-All :
        (acts t : List Action) (w : r.World)
        → All P acts
        → All P t
        → All P (run_hooks std (traced r) path acts (w, t)).1
    unfolding run_hooks
    run_hooks-All [] t w new old = old
    run_hooks-All (a ∷ acts) t w new old =
        run_hooks-All acts (a ∷ t) (r.execute a path w).1 new.1 (new.0, old)

    execute_rule-All :
        (cr : CompiledRule std) (result : ProcessResult) (w : r.World)
        → All P cr.actions
        → All P cr.on_success
        → All P cr.on_fail
        → All P (execute_rule std (traced r) path cr result (w, [])).world.1
    unfolding execute_rule
    execute_rule-All cr result w acts good bad =
        let ran = run_actions std (traced r) path cr.actions (w, []) in
        let kept : All P ran.1.1 = run_actions-All cr.actions [] w acts tt in
        elim (Bool-cases ran.0) [
          | inl success ↦ simp success (run_hooks-All cr.on_success ran.1.1 ran.1.0 good kept)
          | inr failure ↦ simp failure (run_hooks-All cr.on_fail ran.1.1 ran.1.0 bad kept)
        ]

  execute_rule-traced :
      (cr : CompiledRule std) (result result' : ProcessResult) (w : r.World)
      → (execute_rule std (traced r) path cr result (w, [])).world.0
        ≡ (execute_rule std r path cr result' w).world
  unfolding execute_rule
  execute_rule-traced cr result result' w =
      let ran = run_actions std (traced r) path cr.actions (w, []) in
      let (same, left) = run_actions-traced cr.actions [] w in
      elim (Bool-cases ran.0) [
        | inl success ↦
            simp (success, sym same ∙ success)
              (run_hooks-traced cr.on_success ran.1.1 ran.1.0
                ∙ ap (run_hooks std r path cr.on_success) left)
        | inr failure ↦
            simp (failure, sym same ∙ failure)
              (run_hooks-traced cr.on_fail ran.1.1 ran.1.0
                ∙ ap (run_hooks std r path cr.on_fail) left)
      ]

  -- The log has a line for the action, under one of the lists.
  abbrev pub IsAnnounced : CompiledRule std → r.World → List Announcement → Action → Type 0
  IsAnnounced cr w log a = ∥ (
      (list : Text) × Mem
        (record { rule = cr.name; list = list; action = describe std (r.stat w) path a }) log) ∥₁

  log_dry_run-IsAnnounced :
      (cr : CompiledRule std) (w : r.World) (log : List Announcement) (list : Text)
      (acts : List Action)
      → ((line : Announcement)
          → Mem line (log_dry_run std r path cr.name list acts w)
          → Mem line log)
      → All (IsAnnounced cr w log) acts
  unfolding log_dry_run
  log_dry_run-IsAnnounced cr w log list [] within = tt
  log_dry_run-IsAnnounced cr w log list (a ∷ acts) within = (
    ∣ (list, within _ mem-cons_self) ∣₁,
    log_dry_run-IsAnnounced cr w log list acts (λ line m. within line (mem-cons_of_mem _ m)),
  )

  -- Whatever a real run of a rule executes for a file, actions and hooks, a dry run of the rule for
  -- the file as it stood before has announced, with the description that it had then; and the dry
  -- run executes nothing.
  pub fire-IsAnnounced :
      (cr : CompiledRule std) (w : r.World)
      → let real = fire std (traced r) false path cr (w, []) in
        All (IsAnnounced cr w (fire_log std r path true cr w)) real.world.1
        × (real.world.0 ≡ (fire std r false path cr w).world)
        × ((fire std (traced r) true path cr (w, [])).world.1 ≡ [])
  unfolding fire fire_log
  fire-IsAnnounced cr w =
      let log = fire_log std r path true cr w in
      let hooks = log_dry_run std r path cr.name (str "on_success") cr.on_success w in
      let failed = log_dry_run std r path cr.name (str "on_fail") cr.on_fail w in
      let first = log_dry_run std r path cr.name (str "action") cr.actions w in
      let acts : All (IsAnnounced cr w log) cr.actions =
        log_dry_run-IsAnnounced cr w log (str "action") cr.actions
          (λ line m. mem-append_left _ m) in
      let good : All (IsAnnounced cr w log) cr.on_success =
        log_dry_run-IsAnnounced cr w log (str "on_success") cr.on_success
          (λ line m. mem-append_right first (mem-append_left failed m)) in
      let bad : All (IsAnnounced cr w log) cr.on_fail =
        log_dry_run-IsAnnounced cr w log (str "on_fail") cr.on_fail
          (λ line m. mem-append_right first (mem-append_right hooks m)) in
      (
        execute_rule-All (IsAnnounced cr w log) cr _ w acts good bad,
        execute_rule-traced cr _ _ w,
        refl,
      )
