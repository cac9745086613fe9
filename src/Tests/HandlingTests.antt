-- ===== src/Tests/HandlingTests.antt =====
-- Tests of handlePath among other goroutines, and its theorems for one file.
use avella.Common.{ℕ, ◌≡◌, refl, true, false, [], ◌∷◌, none, some, ok, ℕ_discrete}
use avella.Common.Dict.{lookup}
use avella.Common.Int.{int_eq, clamp_int64, ◌-ℤ◌}
use avella.Common.Text.{str, text_eq}
use avella.Actions.{exec}
use avella.Daemon.Handling.{
  Handling, start, section, advance, Step, advances, toggles, Steps, stop, go, called,
}
use avella.Daemon.Handling
use avella.Daemon.Handling.Laws.{Steps-dry}
use avella.Daemon.Handling.Overtaken.{IsMatched, outcome, overtaken_reload}
use avella.Daemon.Runtime.{Runtime, handle_path, unhandled, set_dry_run}
use avella.Daemon.Tracker.{should_process}
use avella.Go.FilePath.{base, ext}
use avella.Go.Strings.{to_lower}
use avella.Rules.Engine.{CompiledRule, Engine, Moment}
use avella.Rules.Engine.Process.{process, fire, execute_rule, run_actions, run_hooks, should_ignore}
use avella.Rules.Match.{matches, effective_min_age, since}
use avella.Stabilizer.{should_skip}
use avella.Tests.{machine, calm, film, film_info, film_rule, engine, dry_engine}
use avella.Tests

-- The command succeeds, and the file stays where it is.
abbrev true_rule : CompiledRule Tests.go
true_rule = record film_rule { actions = exec (str "true") ∷ []; on_fail = [] }

abbrev pub true_engine : Engine Tests.go
true_engine = record engine { rules = true_rule ∷ [] }

abbrev pub live : Runtime Tests.go
live = record { engine = true_engine; dry_run = false; ssh_pools = []; tracker = some [] }

film-IsMatched : IsMatched Tests.go machine calm calm film film_info live []
unfolding should_skip should_ignore should_process process fire execute_rule run_actions run_hooks
    matches text_eq ℕ_discrete base ext to_lower lookup effective_min_age int_eq since clamp_int64
    ◌-ℤ◌
film-IsMatched = record {
  kept = refl;
  noticed = refl;
  there = refl;
  is_due = refl;
  good = refl;
  hit = refl;
}

film_stays :
    machine.stat (outcome Tests.go machine calm calm film film_info live []).world film
    ≡ ok film_info
unfolding text_eq ℕ_discrete
film_stays = refl

real_run : (outcome Tests.go machine calm calm film film_info live []).result.dry_run ≡ false
unfolding process fire execute_rule run_actions run_hooks matches text_eq ℕ_discrete base
    effective_min_age int_eq since clamp_int64 ◌-ℤ◌
real_run = refl

overtaken_reload_example :
    (t : Handling Tests.go machine) × Steps Tests.go machine (start Tests.go machine film live []) t
    × (t.runtime.engine ≡ dry_engine)
    × ((ignoring processing : ℕ → Moment)
        → handle_path Tests.go machine ignoring processing film t.runtime t.world
          ≡ unhandled Tests.go machine t.runtime t.world)
overtaken_reload_example =
    overtaken_reload Tests.go machine calm calm film film_info live [] dry_engine none
      film-IsMatched (λ e. cc e) (λ dry. absurd (cc (real_run, dry))) film_stays

-- The mode is set while the film is being handled, and set again.
abbrev dry : Handling Tests.go machine
dry = record { runtime = set_dry_run Tests.go true live; world = []; point = called film }

abbrev dry_steps : Steps Tests.go machine dry (
    advance Tests.go machine calm calm
      (record dry { runtime = set_dry_run Tests.go true dry.runtime }))
dry_steps = Handling.go (toggles true dry) (Handling.go (advances calm calm _) (stop _))

Steps-dry_example :
    (advance Tests.go machine calm calm
      (record dry { runtime = set_dry_run Tests.go true dry.runtime })).world
    ≡ []
Steps-dry_example =
    Steps-dry Tests.go machine dry_steps (unfold set_dry_run in refl) (refl, (tt, tt))
