-- ===== src/Rules/Engine/Process/Terminates.antt =====
-- A call of Process that is taken step by step comes to its return.
use Prim.Native.Nat.{max}
use avella.Common.{
  ℕ, zero, suc, ◌+◌, ◌≤◌, ◌≡◌, refl, ap, ◌∙◌, Bool-cases, inl, inr, [], ◌∷◌, length, arith,
}
use avella.Common.Text.{Text}
use avella.Go.{Std}
use avella.Rules.Engine.{Engine, Runner, Moment}
use avella.Rules.Engine.Process.{Outcome, process}
use avella.Rules.Engine.Process.Stepwise.{
  Task, acting, hooking, returned, begin_process, proceed, complete, complete-proceed,
  complete-begin_process,
}

module _ (std : Std) (r : Runner) (path : Text) where
  -- The steps that a call takes at most: one for each action and hook, and two between the lists.
  unfoldable pub work : Task std → ℕ
  work (acting cr result acts) = length acts + max (length cr.on_success) (length cr.on_fail) + 2
  work (hooking result e acts) = length acts + 1
  work (returned result e) = 0

  unfoldable pub proceed_times : ℕ → Task std → r.World → Task std × r.World
  proceed_times zero t w = (t, w)
  proceed_times (suc n) t w = let (t', w') = proceed std r path t w in proceed_times n t' w'

  -- The call has returned an outcome.
  abbrev pub at_end : Outcome std r → Task std × r.World
  at_end o = (returned o.result o.error, o.world)

  work-proceed :
      (n : ℕ) (t : Task std) (w : r.World) → work t ≤ suc n → work (proceed std r path t w).0 ≤ n
  unfolding work proceed
  work-proceed n (acting cr result []) w h = omega (arith, h)
  work-proceed n (acting cr result (a ∷ acts)) w h = elim (Bool-cases (r.execute a path w).0) [
    | inl good ↦ rw good (omega (arith, h))
    | inr bad ↦ rw bad (omega (arith, h))
  ]
  work-proceed n (hooking result e []) w h = omega arith
  work-proceed n (hooking result e (a ∷ acts)) w h = omega (arith, h)
  work-proceed n (returned result e) w h = omega arith

  proceed_times-complete :
      (n : ℕ) (t : Task std) (w : r.World)
      → work t ≤ n
      → proceed_times n t w ≡ at_end (complete std r path t w)
  unfolding work proceed_times complete
  proceed_times-complete zero (acting cr result acts) w h = absurd (omega (arith, h))
  proceed_times-complete zero (hooking result e acts) w h = absurd (omega (arith, h))
  proceed_times-complete zero (returned result e) w h = refl
  proceed_times-complete (suc n) t w h =
      proceed_times-complete n (proceed std r path t w).0 (proceed std r path t w).1
        (work-proceed n t w h)
      ∙ ap at_end (complete-proceed std r path t w)

  -- A call of Process ends: taken one Execute at a time, it returns within one step for each action
  -- of the rule that it takes, one for each hook of its longer list, and two, with the result, the
  -- error and the world of the whole call.
  pub process_ends :
      (moments : ℕ → Moment) (e : Engine std) (w : r.World)
      → let t = begin_process std r moments e path w in
        proceed_times (work t) t w ≡ at_end (process std r moments e path w)
  process_ends moments e w =
      let t = begin_process std r moments e path w in
      proceed_times-complete (work t) t w (omega arith)
      ∙ ap at_end (complete-begin_process std r moments e path w)
