-- ===== src/Tests/UiTests.antt =====
-- Tests of the tray's socket, and its theorems at two clients.
use avella.Common.{
  none, some, ℕ, ◌≡◌, ◌==◌, not, false, Bool, List, [], ◌∷◌, ◌++◌, take, nat_eq, arith,
}
use mathlib.Core.List.{reverse}
use avella.Common.Text.{Text, str, text_eq}
use avella.Ui.{Scanned, handle_client, SocketUi, RecentFile, new_socket, max_recent_files}
use avella.Ui.Recent.{add_all, files_of, add_all-recent}
use avella.Ui.Clients.{NodupClients}
use avella.Ui.Session.{IsServed, taken, handle_client-IsServed}

-- Client 2 does not take its line in time.
abbrev writes : ℕ → Bool
writes c = not (c == 2)

abbrev two_clients : SocketUi
two_clients = record new_socket { clients = 1 ∷ 2 ∷ [] }

abbrev recent : Text → RecentFile
recent name = record { filename = name; rule = []; action = []; dry_run = false; time = [] }

abbrev added : List ((ℕ → Bool) × RecentFile)
added = (writes, recent (str "a")) ∷ (writes, recent (str "b")) ∷ []

add_all-recent_example :
    (add_all added two_clients).st.recent_files
    ≡ take max_recent_files (reverse (files_of added) ++ two_clients.st.recent_files)
add_all-recent_example = add_all-recent added two_clients (omega arith)

two_clients-NodupClients : NodupClients two_clients.clients
two_clients-NodupClients = (ground arith, (ground arith, tt))

abbrev line : Text → Scanned
line cmd = record { decoded = some cmd; done = false; writes = writes }

abbrev lines : List Scanned
lines =
    line (str "toggle_dry_run")
    ∷ record { decoded = none; done = false; writes = writes }
    ∷ line (str "quit")
    ∷ []

handle_client-IsServed_example :
    IsServed 1 false [] (taken lines) (handle_client 1 lines two_clients)
handle_client-IsServed_example = handle_client-IsServed 1 lines two_clients
