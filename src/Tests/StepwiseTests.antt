-- ===== src/Tests/StepwiseTests.antt =====
-- Tests of Process step by step and under its lock, and their theorems for one file.
use avella.Common.{◌≡◌, refl, true, false, List, [], ◌∷◌, none, some, All, ℕ_discrete}
use avella.Common.Int.{int_eq, clamp_int64, ◌-ℤ◌}
use avella.Common.Text.{str, text_eq}
use avella.Actions.{Action, exec, describe, to_string}
use avella.Daemon.Locked.{Locked, Underway, unlocked, enters, proceeds, reads, Reach, here, next}
use avella.Daemon.Locked.Laws.{process_whole}
use avella.Go.FilePath.{base}
use avella.Rules.Engine.{ProcessResult}
use avella.Rules.Engine.Process.{process, fire}
use avella.Rules.Engine.Process.Announce.{traced, fire_log, IsAnnounced, fire-IsAnnounced}
use avella.Rules.Engine.Process.Stepwise.{
  Task, returned, begin_process, begin_rules, begin_rule, proceed,
}
use avella.Rules.Engine.Process.Terminates.{work, proceed_times, at_end, process_ends}
use avella.Rules.Match.{matches, effective_min_age, since}
use avella.Tests.{machine, calm, film, film_rule}
use avella.Tests
use avella.Tests.HandlingTests.{live, true_engine}

fire-IsAnnounced_example :
    let real = fire Tests.go (traced machine) false film film_rule ([], []) in
    All
      (IsAnnounced Tests.go machine film film_rule []
        (fire_log Tests.go machine film true film_rule []))
      real.world.1
    × (real.world.0 ≡ (fire Tests.go machine false film film_rule []).world)
    × ((fire Tests.go (traced machine) true film film_rule ([], [])).world.1 ≡ [])
fire-IsAnnounced_example = fire-IsAnnounced Tests.go machine film film_rule []

abbrev task : Task Tests.go
task = begin_process Tests.go machine calm true_engine film []

process_ends_example :
    proceed_times Tests.go machine film (work Tests.go machine film task) task []
    ≡ at_end Tests.go machine film (process Tests.go machine calm true_engine film [])
process_ends_example = process_ends Tests.go machine film calm true_engine []

-- One step of the call.
abbrev step : Task Tests.go × List Action → Task Tests.go × List Action
step (t, w) = proceed Tests.go machine film t w

abbrev call : Task Tests.go → Underway Tests.go machine
call t = record { moments = calm; path = film; first = []; task = t }

-- The call of Process has come to its end, while the watcher reads.
abbrev last : Locked Tests.go machine
last = record {
  runtime = live;
  world = (step (step (step (task, [])))).1;
  readers = 2;
  others = 1;
  process = some (call (step (step (step (task, [])))).0);
}

last-Reach : Reach Tests.go machine live [] last
last-Reach =
    next
      (next
        (next
          (next (next here (enters calm film (unlocked Tests.go machine live []) refl)) (reads _))
          (proceeds (call task) _ refl))
        (proceeds (call (step (task, [])).0) _ refl))
      (proceeds (call (step (step (task, []))).0) _ refl)

abbrev taken : ProcessResult
taken = record {
  matched = true;
  rule_name = str "film";
  actions = to_string (exec (str "true")) ∷ [];
  dry_run = false;
}

over : (call (step (step (step (task, [])))).0).task ≡ returned taken none
unfolding begin_process begin_rules begin_rule proceed matches text_eq ℕ_discrete base
    effective_min_age int_eq since clamp_int64 ◌-ℤ◌ describe
over = refl

process_whole_example :
    process Tests.go machine calm true_engine film []
    ≡ record { result = taken; error = none; world = last.world }
process_whole_example =
    process_whole Tests.go machine live [] (call (step (step (step (task, [])))).0) taken none
      last-Reach refl over
