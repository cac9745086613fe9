-- ===== src/Ui.antt =====
-- ui/ui.go and ui/socket.go: the state shown by the tray, its clients, and the tray's commands.
-- A call is one step here. Ui/Threads has the steps between which broadcastLocked releases the
-- mutex.
pub mod Recent
pub mod Clients
pub mod Server
pub mod Session
pub mod Threads
pub mod Wire
pub mod Interface
use avella.Common.{
  ℕ, suc, ◌≤◌, Bool, true, false, not, List, [], ◌∷◌, ◌++◌, Option, none, some, is_empty, take, ltb,
  length, if◌then◌else◌, ◌==◌, nat_eq,
}
use avella.Common.Text.{Text, str, text_eq}

pub record RuleInfo : Type 0 where
  pub name : Text
  pub action_type : Text

pub record RecentFile : Type 0 where
  pub filename : Text
  pub rule : Text
  pub action : Text
  pub dry_run : Bool
  pub time : Text

abbrev pub max_recent_files : ℕ
max_recent_files = 10

pub record State : Type 0 where
  pub status : Text
  pub processed : ℕ
  pub dry_run : Bool
  pub config_path : Text
  pub rules : List RuleInfo
  pub version : Text
  pub recent_files : List RecentFile

-- A line on a connection: the handshake, or a snapshot of the state in JSON.
pub data Message : Type 0 where
  hello : Message
  state : State → Message

-- Connections are numbered. `sent` and `closed` record the writes that succeeded and the closed
-- connections, the latest first.
pub record SocketUi : Type 0 where
  pub st : State
  pub clients : List ℕ
  pub sent : List (ℕ × Message)
  pub closed : List ℕ

abbrev pub new_socket : SocketUi
new_socket = record {
  st = record {
    status = [];
    processed = 0;
    dry_run = false;
    config_path = [];
    rules = [];
    version = [];
    recent_files = [];
  };
  clients = [];
  sent = [];
  closed = [];
}

-- `delete(u.clients, conn)`
unfoldable pub remove_client : ℕ → List ℕ → List ℕ
remove_client c [] = []
remove_client c (d ∷ cs) = let rest = remove_client c cs in if c == d then rest else d ∷ rest

-- `writeToClients`: the writes that succeed are recorded, and the clients that fail are returned.
unfoldable pub write_to_clients :
    (ℕ → Bool) → Message → List ℕ → List (ℕ × Message) → List (ℕ × Message) × List ℕ
write_to_clients writes m [] sent = (sent, [])
write_to_clients writes m (c ∷ cs) sent =
    let (sent', failed) = write_to_clients writes m cs (if writes c then (c, m) ∷ sent else sent) in
    (sent', if writes c then failed else c ∷ failed)

unfoldable pub drop_failed : List ℕ → SocketUi → SocketUi
unfolding remove_client
drop_failed [] u = u
drop_failed (c ∷ cs) u =
    drop_failed cs (record u { clients = remove_client c u.clients; closed = c ∷ u.closed })

-- `broadcastLocked`. `writes` says which connections take a line before their deadline.
unfoldable pub broadcast : (ℕ → Bool) → SocketUi → SocketUi
unfolding write_to_clients drop_failed
broadcast writes u =
    let (sent', failed) = write_to_clients writes (state u.st) u.clients u.sent in
    drop_failed failed (record u { sent = sent' })

unfoldable pub set_rules : List RuleInfo → SocketUi → SocketUi
set_rules rules u = record u { st = record (u.st) { rules = rules } }

unfoldable pub set_config_path : Text → SocketUi → SocketUi
set_config_path path u = record u { st = record (u.st) { config_path = path } }

unfoldable pub set_version : Text → SocketUi → SocketUi
set_version version u = record u { st = record (u.st) { version = version } }

unfoldable pub set_dry_run_toggle : Bool → SocketUi → SocketUi
set_dry_run_toggle initial u = record u { st = record (u.st) { dry_run = initial } }

unfoldable pub set_status : (ℕ → Bool) → Text → SocketUi → SocketUi
set_status writes status u = broadcast writes (record u { st = record (u.st) { status = status } })

unfoldable pub inc_processed : (ℕ → Bool) → SocketUi → SocketUi
inc_processed writes u =
    broadcast writes (record u { st = record (u.st) { processed = suc u.st.processed } })

-- The new file in front, and at most the first `max_recent_files`.
unfoldable pub push_recent : RecentFile → List RecentFile → List RecentFile
push_recent file files =
    if ltb max_recent_files (length (file ∷ files))
    then take max_recent_files (file ∷ files)
    else file ∷ files

unfoldable pub add_recent_file : (ℕ → Bool) → RecentFile → SocketUi → SocketUi
unfolding push_recent
add_recent_file writes file u =
    broadcast writes
      (record u { st = record (u.st) { recent_files = push_recent file u.st.recent_files } })

-- `removeClient`
unfoldable pub drop_client : ℕ → SocketUi → SocketUi
unfolding remove_client
drop_client c u = record u { clients = remove_client c u.clients; closed = c ∷ u.closed }

-- The writes of sendHelloAndState, of which each may fail on its own.
unfoldable pub greet : Bool → Bool → ℕ → State → SocketUi → SocketUi
unfolding drop_client
greet hello_written state_written c st u =
    if hello_written
    then (if state_written
        then record u { sent = (c, state st) ∷ (c, hello) ∷ u.sent }
        else drop_client c (record u { sent = (c, hello) ∷ u.sent }))
    else drop_client c u

-- `sendHelloAndState`
unfoldable pub send_hello_and_state : Bool → Bool → ℕ → SocketUi → SocketUi
unfolding greet
send_hello_and_state hello_written state_written c u = greet hello_written state_written c u.st u

pub data Command : Type 0 where
  toggle_dry_run open_config quit unknown : Command

unfoldable pub command : Text → Command
command cmd =
    if cmd == str "toggle_dry_run"
    then toggle_dry_run
    else if cmd == str "open_config"
    then open_config
    else if cmd == str "quit"
    then quit
    else unknown

-- What a command asks of the rest of the daemon.
pub data Request : Type 0 where
  dry_toggled : Bool → Request
  open_file : Text → Request
  cancels : Request

-- What is done for a command, up to the calls that are made without the mutex.
unfoldable pub answer : (ℕ → Bool) → Command → SocketUi → Option Request × SocketUi
answer writes toggle_dry_run u =
    let enabled = not u.st.dry_run in
    (
      some (dry_toggled enabled),
      broadcast writes (record u { st = record (u.st) { dry_run = enabled } }),
    )
answer writes open_config u =
    (if is_empty u.st.config_path then none else some (open_file u.st.config_path), u)
answer writes quit u = (some cancels, u)
answer writes unknown u = (none, u)

-- `handleCommand`
unfoldable pub handle_command : (ℕ → Bool) → Text → SocketUi → Option Request × SocketUi
unfolding answer
handle_command writes cmd u = answer writes (command cmd) u

-- A line that the scanner read: the command in it if it can be decoded, whether the context was
-- done at that moment, and which connections take the broadcast that it may cause.
pub record Scanned : Type 0 where
  pub decoded : Option Text
  pub done : Bool
  pub writes : ℕ → Bool

abbrev asked : Option Request → List Request → List Request
asked none rs = rs
asked (some q) rs = q ∷ rs

-- `handleClient`: the requests in their order, and the tray when the connection is gone.
unfoldable pub handle_client : ℕ → List Scanned → SocketUi → List Request × SocketUi
unfolding drop_client handle_command
handle_client c [] u = ([], drop_client c u)
handle_client c (l ∷ lines) u = elim l.decoded [
  | none ↦
      let (requests, u₁) = handle_client c lines u in
      if l.done then ([], drop_client c u) else (requests, u₁)
  | some cmd ↦
      let (request, u₁) = handle_command l.writes cmd u in
      let (requests, u₂) = handle_client c lines u₁ in
      if l.done then ([], drop_client c u) else (asked request requests, u₂)
]

-- `cleanup`
unfoldable pub close_all : List ℕ → List ℕ → List ℕ
close_all [] closed = closed
close_all (c ∷ cs) closed = close_all cs (c ∷ closed)

unfoldable pub cleanup : SocketUi → SocketUi
unfolding close_all
cleanup u = record u { clients = []; closed = close_all u.clients u.closed }
