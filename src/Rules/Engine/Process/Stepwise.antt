-- ===== src/Rules/Engine/Process/Stepwise.antt =====
-- rules/engine.go: Process one call of Execute at a time.
use avella.Common.{
  ℕ, suc, ◌≡◌, refl, Bool, true, not, Bool-cases, Result-cases, inl, inr, List, [], ◌∷◌, Option,
  none, some, ok, err, is_empty, if◌then◌else◌, arith,
}
use avella.Common.Text.{Text}
use avella.Actions.{Action}
use avella.Go.{Std}
use avella.Go.Os.{FileInfo}
use avella.Rules.Engine.{
  CompiledRule, Engine, ProcessResult, ProcessError, Runner, Moment, stat_failed, context_done,
  action_failed,
}
use avella.Rules.Engine.Process.{
  Outcome, unmatched, describe_actions, run_actions, run_hooks, execute_rule, fire, process_rules,
  process,
}
use avella.Rules.Match.{matches}

module _ (std : Std) where
  -- What is left of a call of Process.
  pub data Task : Type 0 where
    acting : CompiledRule std → ProcessResult → List Action → Task
    hooking : ProcessResult → Option ProcessError → List Action → Task
    returned : ProcessResult → Option ProcessError → Task

module _ (std : Std) (r : Runner) where
  -- The call up to the first Execute.
  unfoldable pub begin_rule : Bool → Text → CompiledRule std → r.World → Task std
  begin_rule dry_run path cr w =
      let result : ProcessResult = record {
        matched = true;
        rule_name = cr.name;
        actions = describe_actions std r cr.actions path w;
        dry_run = dry_run;
      } in
      if dry_run then returned result none else acting cr result cr.actions

  unfoldable pub begin_rules :
      (ℕ → Moment) → Bool → Text → FileInfo → ℕ → List (CompiledRule std) → r.World → Task std
  unfolding begin_rule
  begin_rules moments dry_run path info i [] w = returned unmatched none
  begin_rules moments dry_run path info i (cr ∷ rest) w =
      let continue = begin_rules moments dry_run path info (suc i) rest w in
      if (moments i).done
      then returned unmatched (some context_done)
      else if not (matches std path info cr.criteria cr.regex cr.min_age (moments i).now)
      then continue
      else if is_empty cr.actions
      then continue
      else begin_rule dry_run path cr w

  unfoldable pub begin_process : (ℕ → Moment) → Engine std → Text → r.World → Task std
  unfolding begin_rules
  begin_process moments e path w = elim (r.stat w path) [
    | err x ↦ returned unmatched (some (stat_failed x))
    | ok info ↦ begin_rules moments e.dry_run path info 0 e.rules w
  ]

  -- One Execute, or the way from one list to the next.
  unfoldable pub proceed : Text → Task std → r.World → Task std × r.World
  proceed path (acting cr result []) w = (hooking result none cr.on_success, w)
  proceed path (acting cr result (a ∷ acts)) w =
      let (good, w') = r.execute a path w in
      (
        if good
            then acting cr result acts
            else hooking result (some (action_failed cr.name)) cr.on_fail,
        w',
      )
  proceed path (hooking result e []) w = (returned result e, w)
  proceed path (hooking result e (a ∷ acts)) w = (hooking result e acts, (r.execute a path w).1)
  proceed path (returned result e) w = (returned result e, w)

  -- What the rest of the call comes to.
  unfoldable pub complete : Text → Task std → r.World → Outcome std r
  complete path (acting cr result acts) w =
      let (good, w') = run_actions std r path acts w in
      if good
      then record { result = result; error = none; world = run_hooks std r path cr.on_success w' }
      else record {
        result = result;
        error = some (action_failed cr.name);
        world = run_hooks std r path cr.on_fail w';
      }
  complete path (hooking result e acts) w = record {
    result = result;
    error = e;
    world = run_hooks std r path acts w;
  }
  complete path (returned result e) w = record { result = result; error = e; world = w }

  complete-begin_rules :
      (moments : ℕ → Moment) (dry_run : Bool) (path : Text) (info : FileInfo) (i : ℕ)
      (rules : List (CompiledRule std)) (w : r.World)
      → complete path (begin_rules moments dry_run path info i rules w) w
        ≡ process_rules std r moments dry_run path info i rules w
  unfolding complete begin_rules begin_rule process_rules fire execute_rule
  complete-begin_rules moments dry_run path info i [] w = refl
  complete-begin_rules moments dry_run path info i (cr ∷ rest) w =
      ground (arith, complete-begin_rules moments dry_run path info (suc i) rest w)

  -- The steps of a call come to what Process does.
  pub complete-begin_process :
      (moments : ℕ → Moment) (e : Engine std) (path : Text) (w : r.World)
      → complete path (begin_process moments e path w) w ≡ process std r moments e path w
  unfolding begin_process process complete
  complete-begin_process moments e path w = elim (Result-cases (r.stat w path)) [
    | inl (info, there) ↦
        rw (there, begin_process, process)
          (complete-begin_rules moments e.dry_run path info 0 e.rules w)
    | inr (x, missing) ↦ rw (missing, begin_process, process) refl
  ]

  pub complete-proceed :
      (path : Text) (t : Task std) (w : r.World)
      → let (t', w') = proceed path t w in complete path t' w' ≡ complete path t w
  unfolding complete proceed run_actions run_hooks
  complete-proceed path (acting cr result []) w = refl
  complete-proceed path (acting cr result (a ∷ acts)) w = elim (Bool-cases (r.execute a path w).0) [
    | inl good ↦ rw good refl
    | inr bad ↦ rw bad refl
  ]
  complete-proceed path (hooking result e []) w = refl
  complete-proceed path (hooking result e (a ∷ acts)) w = refl
  complete-proceed path (returned result e) w = refl
