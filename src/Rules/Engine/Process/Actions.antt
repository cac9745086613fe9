-- ===== src/Rules/Engine/Process/Actions.antt =====
-- The execution of the rule that matched: its actions in order up to the first failure, then one
-- of the two hook lists.
use avella.Common.{
  Bool, true, false, ◌≡◌, refl, ◌⊎◌, inl, inr, List, [], ◌∷◌, map, none, some, if◌then◌else◌,
}
use avella.Common.Text.{Text}
use avella.Actions.{Action, describe}
use avella.Go.{Std}
use avella.Rules.Engine.{CompiledRule, Runner, action_failed}
use avella.Rules.Engine.Process.{run_actions, run_hooks, execute_rule, fire}

module _ (r : Runner) (path : Text) where
  -- Every action of the list was executed and succeeded, in order.
  pub data AllSucceed : List Action → r.World → r.World → Type 0 where
    done : {w : r.World} → AllSucceed [] w w
    next :
        {a : Action} {acts : List Action} {w w' w'' : r.World}
        → r.execute a path w ≡ (true, w')
        → AllSucceed acts w' w''
        → AllSucceed (a ∷ acts) w w''

  -- An action failed after those before it succeeded; those behind it were not executed.
  pub data StopsAt : List Action → r.World → r.World → Type 0 where
    fails :
        {a : Action} {acts : List Action} {w w' : r.World}
        → r.execute a path w ≡ (false, w')
        → StopsAt (a ∷ acts) w w'
    after :
        {a : Action} {acts : List Action} {w w' w'' : r.World}
        → r.execute a path w ≡ (true, w')
        → StopsAt acts w' w''
        → StopsAt (a ∷ acts) w w''

module _ (std : Std) (r : Runner) (path : Text) where
  abbrev Ran : List Action → r.World → Bool × r.World → Type 0
  Ran acts w o =
      ((o.0 ≡ true) × AllSucceed r path acts w o.1) ⊎ ((o.0 ≡ false) × StopsAt r path acts w o.1)

  run_actions-Ran : (acts : List Action) (w : r.World) → Ran acts w (run_actions std r path acts w)
  unfolding run_actions
  run_actions-Ran [] w = inl (refl, done)
  run_actions-Ran (a ∷ acts) w =
      go (r.execute a path w) refl (run_actions-Ran acts (r.execute a path w).1)
    where
      go :
          (o : Bool × r.World)
          → r.execute a path w ≡ o
          → Ran acts o.1 (run_actions std r path acts o.1)
          → Ran (a ∷ acts) w (if o.0 then run_actions std r path acts o.1 else (false, o.1))
      go (true, w') e (inl (t, s)) = inl (t, next e s)
      go (true, w') e (inr (f, s)) = inr (f, after e s)
      go (false, w') e _ = inr (refl, fails e)

  -- Outside dry-run mode the rule's actions are executed in order. If all succeed there is no
  -- error and the on_success hooks run; otherwise those behind the failed one are skipped, the
  -- error names the rule, and the on_fail hooks run. The result describes the actions as the file
  -- stood before any of them ran.
  pub fire_executes :
      (cr : CompiledRule std) (w : r.World)
      → let o = fire std r false path cr w in
        (o.result ≡ record {
          matched = true;
          rule_name = cr.name;
          actions = map (describe std (r.stat w) path) cr.actions;
          dry_run = false;
        })
        × ((w' : r.World) × (((o.error ≡ none)
                × (o.world ≡ run_hooks std r path cr.on_success w')
                × AllSucceed r path cr.actions w w')
              ⊎ ((o.error ≡ some (action_failed cr.name))
                  × (o.world ≡ run_hooks std r path cr.on_fail w')
                  × StopsAt r path cr.actions w w')))
  unfolding fire execute_rule
  fire_executes cr w = elim (run_actions-Ran cr.actions w) [
    | inl (good, s) ↦ (rw good, (_, inl (rw good, rw good, s)))
    | inr (bad, s) ↦ (rw bad, (_, inr (rw bad, rw bad, s)))
  ]
