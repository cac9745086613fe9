-- ===== src/Tests/LoopTests.antt =====
-- Tests of a whole run of the daemon, and its theorems at one.
use avella.Common.{◌≡◌, refl, true, false, List, [], ◌∷◌, some, err, All, ℕ_discrete}
use avella.Common.Int.{pos}
use avella.Common.Text.{Text, str, text_eq}
use avella.Config.Expand.{read_config}
use avella.Daemon.Loop.{Lines, Input, tick, emitted, commanded, reloaded, cancelled, run_daemon}
use avella.Daemon.Loop.Core.{core, shown_by, run_daemon-core}
use avella.Daemon.Loop.Modes.{IsAgreed, run_daemon-IsAgreed}
use avella.Daemon.Loop.Runs.{KeepsMode, run_daemon_dry}
use avella.Daemon.Sweep.{DirEntry, Env, Sweep}
use avella.Tests.{go, film, machine, calm, dry_engine}
use avella.Ui.{SocketUi, new_socket, command}

abbrev entries : List DirEntry
entries =
    record { name = str "sub"; is_dir = true } ∷ record { name = str "a.mkv"; is_dir = false } ∷ []

abbrev pub env : Env machine
env = record {
  ignoring = λ n. calm;
  processing = λ n. calm;
  now = λ n. pos n;
  writes = λ n c. true;
  read_dir = λ w dir. some entries;
  shows = true;
}

abbrev dirs : List Text
dirs = str "/in" ∷ []

abbrev idle_tray : SocketUi
idle_tray = record new_socket {
  st = record (new_socket.st) { status = str "Idle"; dry_run = true };
  clients = 1 ∷ [];
}

abbrev before : Sweep go machine
before = record {
  runtime = record { engine = dry_engine; dry_run = true; ssh_pools = []; tracker = some [] };
  world = [];
  ui = idle_tray;
  files = 0;
}

abbrev pub lines : Lines
lines = record { first = λ c. true; counted = λ c. true; last = λ c. true }

abbrev inputs : List Input
inputs =
    emitted lines film
    ∷ commanded (λ c. true) (str "open_config")
    ∷ tick lines
    ∷ reloaded 7 (err read_config)
    ∷ cancelled
    ∷ emitted lines film
    ∷ []

before-IsAgreed : IsAgreed go machine env dirs before
before-IsAgreed = record { idle = refl; shown_mode = refl; engine_mode = refl }

run_daemon-IsAgreed_example :
    IsAgreed go machine env dirs (run_daemon go machine env dirs inputs before)
run_daemon-IsAgreed_example = run_daemon-IsAgreed go machine env dirs inputs before before-IsAgreed

inputs-KeepsMode : All KeepsMode inputs
unfolding command text_eq ℕ_discrete
inputs-KeepsMode = (tt, ((λ e. cc e), (tt, (tt, (tt, (tt, tt))))))

run_daemon_dry_example : (run_daemon go machine env dirs inputs before).world ≡ []
run_daemon_dry_example =
    run_daemon_dry go machine env dirs inputs before inputs-KeepsMode before-IsAgreed refl

abbrev quiet : List Input
quiet = emitted lines film ∷ tick lines ∷ reloaded 7 (err read_config) ∷ cancelled ∷ []

-- The same daemon with a tray that shows other things to no client, and adds no files.
abbrev other_start : Sweep go machine
other_start = record before { ui = new_socket }

run_daemon-core_example :
    core (run_daemon go machine env dirs quiet before)
    ≡ core (
        run_daemon go machine
          (shown_by (λ n. pos 0) (λ n c. false) false env)
          dirs
          quiet
          other_start)
run_daemon-core_example =
    run_daemon-core go machine env (λ n. pos 0) (λ n c. false) false dirs quiet before other_start
      (tt, (tt, (tt, (tt, tt)))) refl
