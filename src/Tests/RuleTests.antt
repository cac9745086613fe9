-- ===== src/Tests/RuleTests.antt =====
-- Tests of the engine, and its theorems at the sample file.
use avella.Common.{
  ◌≡◌, refl, true, false, List, [], ◌∷◌, map, none, some, ◌⊎◌, inl, ok, ◌↔◌, ℕ_discrete,
}
use avella.Common.Int.{pos, int_eq, clamp_int64, ◌-ℤ◌}
use avella.Common.Text.{str, text_eq}
use avella.Config.{MatchRule}
use avella.Actions.{Action, exec, notify, describe}
use avella.Go.FilePath.{base}
use avella.Rules.Engine.{action_failed}
use avella.Rules.Engine.Process.{process, fire, run_hooks, execute_rule}
use avella.Rules.Engine.Process.Laws.{Selects, here, later, process-Selects}
use avella.Rules.Engine.Process.Actions.{AllSucceed, StopsAt, fire_executes}
use avella.Rules.Match.{matches, effective_min_age, since}
use avella.Rules.Match.Laws.{Meets, matches-iff-Meets}
use avella.Tests.{go, film, film_info, machine, calm, any_file, large_rule, film_rule, engine}

large_misses :
    matches go film film_info large_rule.criteria large_rule.regex large_rule.min_age (calm 0).now
    ≡ false
unfolding matches text_eq ℕ_discrete base effective_min_age int_eq since clamp_int64 ◌-ℤ◌
large_misses = refl

film-matches :
    matches go film film_info film_rule.criteria film_rule.regex film_rule.min_age (calm 1).now
    ≡ true
unfolding matches text_eq ℕ_discrete base effective_min_age int_eq since clamp_int64 ◌-ℤ◌
film-matches = refl

film_seen : machine.stat [] film ≡ ok film_info
unfolding text_eq ℕ_discrete
film_seen = refl

pub film_selected : Selects go calm film film_info film_rule 0 engine.rules
film_selected = later (refl, inl large_misses) (here (refl, film-matches, λ e. cc e))

film_fails :
    (process go machine calm engine film []).world
    ≡ notify (str "failed") ∷ exec (str "false") ∷ exec (str "true") ∷ []
unfolding process fire execute_rule matches text_eq ℕ_discrete base effective_min_age int_eq since
    clamp_int64 ◌-ℤ◌
film_fails = refl

film_taken : (process go machine calm engine film []).result.matched ≡ true
unfolding process fire execute_rule matches text_eq ℕ_discrete base effective_min_age int_eq since
    clamp_int64 ◌-ℤ◌
film_taken = refl

missing_file : (process go machine calm engine (str "/in/b") []).result.matched ≡ false
unfolding process text_eq ℕ_discrete
missing_file = refl

process-Selects_example :
    process go machine calm engine film [] ≡ fire go machine false film film_rule []
process-Selects_example =
    process-Selects go machine calm engine film [] film_info film_rule film_seen film_selected

fire_executes_example :
    let o = fire go machine false film film_rule [] in
    (o.result ≡ record {
      matched = true;
      rule_name = film_rule.name;
      actions = map (describe go (machine.stat []) film) film_rule.actions;
      dry_run = false;
    })
    × ((w' : List Action) × (((o.error ≡ none)
            × (o.world ≡ run_hooks go machine film film_rule.on_success w')
            × AllSucceed machine film film_rule.actions [] w')
          ⊎ ((o.error ≡ some (action_failed film_rule.name))
              × (o.world ≡ run_hooks go machine film film_rule.on_fail w')
              × StopsAt machine film film_rule.actions [] w')))
fire_executes_example = fire_executes go machine film film_rule []

matches-iff-Meets_example :
    (matches go film film_info film_rule.criteria film_rule.regex film_rule.min_age (calm 1).now
      ≡ true)
    ↔ Meets go film film_info film_rule.criteria film_rule.regex film_rule.min_age (calm 1).now
matches-iff-Meets_example =
    matches-iff-Meets go film film_info film_rule.criteria film_rule.regex film_rule.min_age
      (calm 1).now

-- 10,000,000,000 seconds, some 317 years, are more nanoseconds than an `int64` holds.
abbrev long_age : MatchRule
long_age = record any_file { min_age_seconds = pos 10_000_000_000 }
