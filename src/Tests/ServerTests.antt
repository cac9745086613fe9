-- ===== src/Tests/ServerTests.antt =====
-- Tests of the tray's server and of its goroutines.
use avella.Common.{◌≡◌, refl, true, [], ◌∷◌, some, nat_eq, ℕ_discrete}
use avella.Common.Text.{str, text_eq}
use avella.Go.FilePath.{join}
use avella.Ui.{new_socket}
use avella.Ui.Server.Restart.{IsAble, cleanup_socket, restart_serves}
use avella.Ui.Server.{
  Started, initial_status, resolve_socket_path, Answers, SocketFile, absent, stale, listening,
  serving, run,
}
use avella.Ui.Server.Laws.{IsStarted, run-IsStarted}
use avella.Ui.Threads.{
  Threads, Reach, here, next, no_threads, daemon, status_set, begins, accepts, begin, accept,
}
use avella.Ui.Threads.Laws.{IsAccounted, Reach-IsAccounted}
use avella.Ui.Threads.Order.{EndsBehind, overtaken}

abbrev answers : Answers
answers = record {
  home = some (str "/home/me");
  makes_dir = λ dir. true;
  in_time = λ d. true;
  removes = true;
  listens = true;
}

run-IsStarted_example :
    IsStarted answers 1 (listening 7) new_socket (run answers 1 (listening 7) new_socket)
run-IsStarted_example = run-IsStarted answers 1 new_socket (listening 7)

-- The file of a daemon that ended is taken over.
takes_over :
    (run answers 1 stale new_socket).start ≡ serving (str "/home/me/.cache/avella/avella.sock")
unfolding run join ℕ_discrete text_eq
takes_over = refl

-- A client was accepted, and a broadcast is about to be written to it.
abbrev greeting : Threads
greeting = begin daemon (status_set (str "Idle")) (accept 4 no_threads)

greeting-Reach : Reach greeting
unfolding accept
greeting-Reach = next (next here (accepts 4 no_threads refl)) (
    begins daemon (status_set (str "Idle")) _ tt tt
      (record { no_broadcast = tt; no_greeting = tt }))

Reach-IsAccounted_example : IsAccounted 4 greeting
Reach-IsAccounted_example = Reach-IsAccounted greeting-Reach 4

overtaken_example : EndsBehind (record new_socket { clients = 3 ∷ [] }) 3 (str "Idle") (3 ∷ [])
unfolding ℕ_discrete
overtaken_example =
    overtaken (record new_socket { clients = 3 ∷ [] }) 3 (str "Idle") (3 ∷ []) refl refl

able : IsAble answers (str "/home/me/.cache/avella/avella.sock")
unfolding resolve_socket_path join ℕ_discrete text_eq
able = record { resolved = refl; removes = refl; listens = refl }

-- One daemon at a time.
abbrev ended : SocketFile → SocketFile
ended absent = absent
ended stale = stale
ended (listening d) = stale

restart_serves_example :
    let left = (run answers 1 stale new_socket).file in
    let next : Started = record {
      start = serving (str "/home/me/.cache/avella/avella.sock");
      file = listening 2;
      ui = initial_status new_socket;
    } in
    (run answers 2 (ended (cleanup_socket answers left)) new_socket ≡ next)
    × (run answers 2 (ended left) new_socket ≡ next)
restart_serves_example =
    restart_serves answers answers ended 1 2 (str "/home/me/.cache/avella/avella.sock") stale
      new_socket new_socket (record { missing = refl; unused = refl; own = refl }) takes_over able
