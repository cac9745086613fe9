-- ===== src/Daemon/Locked/Laws.antt =====
-- Process is one step for whoever writes the runtime state.
use mathlib.Core.Option.{some-injective}
use avella.Common.{ℕ, ◌+◌, ◌≡◌, refl, ap, sym, subst, ◌∙◌, Option, none, some, arith}
use avella.Daemon.Locked.{
  Underway, Locked, Step, enters, proceeds, leaves, reads, has_read, writes, Reach, here, next,
}
use avella.Daemon.Runtime.{Runtime}
use avella.Go.{Std}
use avella.Rules.Engine.{ProcessResult, ProcessError, Runner}
use avella.Rules.Engine.Process.{process}
use avella.Rules.Engine.Process.Stepwise.{
  returned, proceed, complete, complete-begin_process, complete-proceed,
}

module _ (std : Std) (r : Runner) where
  abbrev held : Option (Underway std r) → ℕ
  held none = 0
  held (some u) = 1

  -- The lock counts the goroutines that read, and the call of Process comes to what it would do at
  -- once with the engine that is installed now.
  pub record IsHeld (s : Locked std r) : Type 0 where
    pub counted : s.readers ≡ s.others + held s.process
    pub whole :
        (u : Underway std r)
        → s.process ≡ some u
        → complete std r u.path u.task s.world
          ≡ process std r u.moments s.runtime.engine u.path u.first

  Step-IsHeld : {s t : Locked std r} → Step std r s t → IsHeld s → IsHeld t
  Step-IsHeld (enters moments path s free) h = record {
    counted = omega (arith, h.counted, ap held free);
    whole = λ u e.
        subst
          (λ (v : Underway std r).
            complete std r v.path v.task s.world
            ≡ process std r v.moments s.runtime.engine v.path v.first)
          (some-injective _ u e)
          (complete-begin_process std r moments s.runtime.engine path s.world);
  }
  Step-IsHeld (proceeds v' s now) h = record {
    counted = omega (arith, h.counted, ap held now);
    whole = λ u e.
        subst
          (λ (v : Underway std r).
            complete std r v.path v.task (proceed std r v'.path v'.task s.world).1
            ≡ process std r v.moments s.runtime.engine v.path v.first)
          (some-injective _ u e) (complete-proceed std r v'.path v'.task s.world ∙ h.whole v' now);
  }
  Step-IsHeld (leaves v result x n s now over holds) h = record {
    counted = omega (arith, h.counted, holds, ap held now);
    whole = λ u e. absurd (cc e);
  }
  Step-IsHeld (reads s) h = record { counted = omega (arith, h.counted); whole = h.whole }
  Step-IsHeld (has_read n k s holds other) h = record {
    counted = omega (arith, h.counted, holds, other);
    whole = h.whole;
  }
  Step-IsHeld (writes c s free) h = record {
    counted = h.counted;
    whole = λ u e. absurd (omega (arith, h.counted, free, ap held e));
  }

  Reach-IsHeld : (rt : Runtime std) (w : r.World) {s : Locked std r} → Reach std r rt w s → IsHeld s
  Reach-IsHeld rt w here = record { counted = refl; whole = λ u e. absurd (cc e) }
  Reach-IsHeld rt w (next l step) = Step-IsHeld step (Reach-IsHeld rt w l)

  -- However the actions of a file, the watcher's reads, toggles, reloads and Close come one after
  -- another: when Process returns, what it returns and the world that it leaves are those of one
  -- whole call, from the world in which it began, by the engine and in the mode that are installed
  -- at its end. No file is processed half by one engine or mode and half by another.
  pub process_whole :
      (rt : Runtime std) (w : r.World) {s : Locked std r} (u : Underway std r)
      (result : ProcessResult) (e : Option ProcessError)
      → Reach std r rt w s
      → s.process ≡ some u
      → u.task ≡ returned result e
      → process std r u.moments s.runtime.engine u.path u.first
        ≡ record { result = result; error = e; world = s.world }
  unfolding complete
  process_whole rt w {s} u result e l now over =
      sym ((Reach-IsHeld rt w l).whole u now) ∙ ap (λ t. complete std r u.path t s.world) over
