-- ===== src/Tests/PipelineTests.antt =====
-- Tests of the daemon with its watcher, and its theorems at one file.
use avella.Common.{◌≡◌, refl, true, false, List, [], ◌∷◌, ◌++◌, some, ok, ℕ_discrete}
use avella.Common.Dict.{lookup}
use avella.Common.Int.{int_eq, clamp_int64, ◌-ℤ◌}
use avella.Common.Text.{str, text_eq}
use avella.Daemon.Pipeline.{
  Pipeline, looping, start, deliver, notice, asks, Step, Reach, here, next, watches, notices,
  begins, delivers, commands,
}
use avella.Daemon.Pipeline.Laws.{IsPiped, Reach-IsPiped}
use avella.Daemon.Pipeline.Unstable.{IsWaiting, IsExecuted, sweep_unstable}
use avella.Daemon.Runtime.{handle_path}
use avella.Daemon.Sweep.{
  Env, Sweep, handle_file, process_entries, process_dir, process_existing_files,
}
use avella.Daemon.Tracker.{should_process}
use avella.Go.FilePath.{base, join, ext}
use avella.Go.Strings.{to_lower}
use avella.Rules.Engine.Process.{process, fire, execute_rule, should_ignore}
use avella.Rules.Match.{matches, effective_min_age, since}
use avella.Stabilizer.{Poll, wait_stable, should_skip}
use avella.Tests.{go, film, film_info, machine, calm, disk, engine, film_rule}
use avella.Tests.LoopTests.{env, lines}
use avella.Tests.RuleTests.{film_selected}
use avella.Tests.WatcherTests.{created, saw, four, with_film}
use avella.Ui.{SocketUi, new_socket}
use avella.Watcher.{Turn, polling, offering, polled, looks, on_create}

abbrev tray : SocketUi
tray = record new_socket { st = record (new_socket.st) { status = str "Idle" }; clients = 1 ∷ [] }

abbrev pub begun : Sweep go machine
begun = record {
  runtime = record { engine = engine; dry_run = false; ssh_pools = []; tracker = some [] };
  world = [];
  ui = tray;
  files = 0;
}

-- The watcher waits for the film, and the daemon is in its loop.
abbrev pub waiting : Pipeline go machine
waiting = record (start go machine begun) {
  watch = record (with_film (polling [])) { receiving = true };
  stage = looping;
}

waiting-Reach : Reach go machine env [] begun waiting
unfolding notice on_create process_existing_files should_ignore should_skip to_lower ext text_eq
    ℕ_discrete
waiting-Reach =
    next (next here (notices created calm (start go machine begun) refl)) (begins _ refl)

abbrev with_turn : Turn → Pipeline go machine
with_turn turn = record waiting { watch = record (with_film turn) { receiving = true } }

look :
    (made : List Poll)
    → Step go machine env [] (with_turn (polling made)) (with_turn (polled (made ++ saw ∷ [])))
look made = watches _ (looks saw film [] [] made _ refl refl (λ h. absurd (cc h))) tt

ready-Reach : Reach go machine env [] begun (with_turn (offering four))
unfolding wait_stable int_eq ℕ_discrete
ready-Reach =
    next (next (next (next waiting-Reach (look [])) (look (saw ∷ []))) (look (saw ∷ saw ∷ [])))
      (look (saw ∷ saw ∷ saw ∷ []))

-- The film was stable, and the daemon took it.
abbrev taken : Pipeline go machine
taken = deliver go machine env [] lines film [] [] four (with_turn (offering four))

taken-Reach : Reach go machine env [] begun taken
taken-Reach = next ready-Reach (delivers lines film [] [] four _ refl refl)

-- A client then toggles dry-run, and its callback is still to come.
abbrev toggled : Pipeline go machine
toggled = asks go machine env [] (λ c. true) (str "toggle_dry_run") taken

toggled-Reach : Reach go machine env [] begun toggled
toggled-Reach = next taken-Reach (commands (λ c. true) (str "toggle_dry_run") taken)

Reach-IsPiped_example : IsPiped go machine env [] begun toggled
Reach-IsPiped_example = Reach-IsPiped go machine env [] begun refl refl toggled-Reach

-- The watched directory holds the film and nothing else, and the sweep at the start has already
-- tried its rule, which failed.
abbrev one_file : Env machine
one_file = record env {
  read_dir = λ w dir. some (record { name = str "a.mkv"; is_dir = false } ∷ []);
}

abbrev swept : Sweep go machine
swept = process_existing_files go machine one_file (str "/in" ∷ []) begun

film_joined : join (str "/in") (str "a.mkv") ≡ film
unfolding join text_eq ℕ_discrete
film_joined = refl

swept_runtime : swept.runtime ≡ begun.runtime
unfolding process_existing_files process_dir process_entries handle_file handle_path join
    should_skip to_lower ext should_ignore should_process lookup process fire execute_rule matches
    text_eq ℕ_discrete base effective_min_age int_eq since clamp_int64 ◌-ℤ◌
swept_runtime = refl

abbrev waiting_here : Pipeline go machine
waiting_here = record waiting { daemon = swept }

waiting_here-Reach : Reach go machine one_file (str "/in" ∷ []) begun waiting_here
unfolding notice on_create should_ignore should_skip to_lower ext text_eq ℕ_discrete
waiting_here-Reach =
    next (next here (notices created calm (start go machine begun) refl)) (begins _ refl)

film_there : machine.stat swept.world film ≡ ok film_info
unfolding text_eq ℕ_discrete
film_there = refl

film_noticed : should_ignore go disk calm engine film ≡ false
unfolding should_ignore text_eq ℕ_discrete
film_noticed = refl

sweep_unstable_example :
    (t : Pipeline go machine) × Step go machine one_file (str "/in" ∷ []) waiting_here t
    × IsWaiting (join (str "/in") (str "a.mkv")) t.watch
    × IsExecuted go machine (join (str "/in") (str "a.mkv")) film_rule swept.world t.daemon.world
unfolding lookup
sweep_unstable_example =
    sweep_unstable go machine one_file (str "/in") (str "a.mkv") begun lines film_rule film_info
      waiting_here waiting_here-Reach refl (rw film_joined ([], [], [], refl)) refl
      (rw film_joined film_there) (rw swept_runtime refl)
      (rw (film_joined, swept_runtime) film_noticed) (rw (film_joined, swept_runtime) refl)
      (rw (film_joined, swept_runtime) film_selected)
