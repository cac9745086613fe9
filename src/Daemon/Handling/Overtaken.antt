-- ===== src/Daemon/Handling/Overtaken.antt =====
-- A reload that comes while a file is being handled.
use avella.Common.{ℕ, ◌≡◌, ◌≢◌, refl, ◌∙◌, ap, true, false, Option, none, some, ok, if◌then◌else◌}
use avella.Common.Text.{Text}
use avella.Daemon.Handling.{
  matched, finished, Handling, start, section, advance, after_process, advances, swaps, resets,
  Steps, stop, go,
}
use avella.Daemon.Runtime.{Runtime, unhandled, handle_path, swap_engine}
use avella.Daemon.Runtime.HandlePath.{marked_not_due, not_due-unhandled}
use avella.Daemon.Tracker.{Tracker, clear, should_process}
use avella.Go.{Std}
use avella.Go.Os.{FileInfo}
use avella.Rules.Engine.{Engine, ProcessError, Runner, Moment}
use avella.Rules.Engine.Process.{Outcome, process, should_ignore}
use avella.Stabilizer.{should_skip}

clear-some : (t : Option Tracker) → t ≢ none → clear t ≢ none
unfolding clear
clear-some none given gone = given refl
clear-some (some t) given gone = cc gone

module _ (std : Std) (r : Runner) (ignoring processing : ℕ → Moment) (path : Text) (info : FileInfo)
    (rt : Runtime std) (w : r.World) where
  abbrev pub outcome : Outcome std r
  outcome = process std r processing rt.engine path w

  -- handlePath lets the engine process the file, and a rule matches without an error.
  pub record IsMatched : Type 0 where
    pub kept : should_skip std path ≡ false
    pub noticed : should_ignore std (r.stat w) ignoring rt.engine path ≡ false
    pub there : r.stat w path ≡ ok info
    pub is_due : should_process path info rt.dry_run rt.tracker ≡ true
    pub good : outcome.error ≡ none
    pub hit : outcome.result.matched ≡ true

  after_process-matched :
      (o : Outcome std r)
      → o.error ≡ none
      → o.result.matched ≡ true
      → after_process std r path info o ≡ matched path info o.result
  after_process-matched o good hit =
      ap
        (λ (e : Option ProcessError). elim e [
          | some _ ↦ finished none
          | none ↦ if o.result.matched then matched path info o.result else finished none
        ])
        good
      ∙ ap (λ b. if b then matched path info o.result else finished none) hit

  one : Handling std r → Handling std r
  one = advance std r ignoring processing

  handled : Handling std r
  handled = record { runtime = rt; world = outcome.world; point = matched path info outcome.result }

  handled-start : IsMatched → one (one (one (one (one (start std r path rt w))))) ≡ handled
  unfolding one advance section start handled
  handled-start m =
      rw (m.kept, m.noticed, m.there)
        (rw m.is_due (
          ap (λ p. record { runtime = rt; world = outcome.world; point = p })
            (after_process-matched outcome m.good m.hit)))

  -- The state after a reload has come between Process and MarkProcessed, and the mark was made.
  reloaded : Engine std → Option ℕ → Handling std r
  reloaded engine pool =
      let swapped : Runtime std = swap_engine std engine pool rt in
      one (record handled { runtime = record swapped { tracker = clear rt.tracker } })

  reloaded-Steps :
      (engine : Engine std) (pool : Option ℕ)
      → IsMatched
      → Steps std r (start std r path rt w) (reloaded engine pool)
  unfolding one handled reloaded swap_engine
  reloaded-Steps engine pool m = go (advances ignoring processing _) (
      go (advances ignoring processing _) (
        go (advances ignoring processing _) (
          go (advances ignoring processing _) (
            go (advances ignoring processing _) (
              rw (handled-start m) (
                go (swaps engine pool handled)
                  (go (resets _) (go (advances ignoring processing _) (stop _)))))))))

  -- A reload that comes between Process and MarkProcessed may leave the file out: its Reset comes
  -- before the mark of the old rules, and as long as the file looks the same, handlePath passes over
  -- it with the new rules (after a dry run, in dry-run mode).
  pub overtaken_reload :
      (engine : Engine std) (pool : Option ℕ)
      → IsMatched
      → rt.tracker ≢ none
      → (outcome.result.dry_run ≡ true → rt.dry_run ≡ true)
      → r.stat outcome.world path ≡ ok info
      → (t : Handling std r) × Steps std r (start std r path rt w) t
        × (t.runtime.engine ≡ engine)
        × ((ignoring' processing' : ℕ → Moment)
            → handle_path std r ignoring' processing' path t.runtime t.world
              ≡ unhandled std r t.runtime t.world)
  unfolding one handled reloaded advance section swap_engine
  overtaken_reload engine pool m tracked mode still = (
    reloaded engine pool,
    reloaded-Steps engine pool m,
    refl,
    λ ignoring' processing'.
        not_due-unhandled std r ignoring' processing' path (reloaded engine pool).runtime
          outcome.world info still
          (marked_not_due path info outcome.result.dry_run rt.dry_run (clear rt.tracker)
            (clear-some rt.tracker tracked) mode),
  )
