-- ===== src/Ui/Threads.antt =====
-- ui/socket.go: the goroutines that share a SocketUI. broadcastLocked releases the mutex while it
-- writes, and sendHelloAndState writes without it, so that these come in any order. Where a
-- goroutine removes a connection under the mutex and closes it after that, these are two steps. A
-- broadcast belongs to the goroutine that makes it, and
-- each goroutine makes one at a time: runDaemon's those of the status, the count and the recent
-- files, and a client's handleClient that of a toggle.
pub mod Laws
pub mod Order
use avella.Common.{
  ℕ, suc, ◌≡◌, ◌≢◌, All, Bool, true, false, not, List, [], ◌∷◌, ◌++◌, contains, nat_eq,
  if◌then◌else◌, ◌==◌,
}
use avella.Common.Text.{Text}
use avella.Ui.{
  RecentFile, RuleInfo, set_rules, State, Message, hello, state, SocketUi, new_socket, push_recent,
  drop_failed, remove_client, cleanup,
}

-- The changes of the state that are broadcast.
pub data Update : Type 0 where
  status_set : Text → Update
  counted : Update
  file_added : RecentFile → Update
  dry_run_toggled : Update

unfoldable pub updated : Update → State → State
updated (status_set status) st = record st { status = status }
updated counted st = record st { processed = suc st.processed }
updated (file_added file) st = record st { recent_files = push_recent file st.recent_files }
updated dry_run_toggled st = record st { dry_run = not st.dry_run }

-- The goroutines that broadcast: runDaemon's, and handleClient of a connection.
pub data Author : Type 0 where
  daemon : Author
  client : ℕ → Author

-- The goroutine that makes a change.
abbrev pub Makes : Author → Update → Type 0
Makes daemon (status_set status) = Unit
Makes daemon counted = Unit
Makes daemon (file_added file) = Unit
Makes daemon dry_run_toggled = ⊥
Makes (client c) (status_set status) = ⊥
Makes (client c) counted = ⊥
Makes (client c) (file_added file) = ⊥
Makes (client c) dry_run_toggled = Unit

-- A call of broadcastLocked that released the mutex: its line, the clients to which it was not
-- written yet, and those that failed.
pub record Broadcast : Type 0 where
  pub author : Author
  pub line : State
  pub todo : List ℕ
  pub failed : List ℕ

-- `greetings` are the calls of sendHelloAndState that released the mutex, each with its connection
-- and its state, and `closing` the connections that a goroutine removed and is about to close.
-- `accepted` has all connections that were ever accepted.
pub record Threads : Type 0 where
  pub ui : SocketUi
  pub broadcasts : List Broadcast
  pub greetings : List (ℕ × State)
  pub closing : List ℕ
  pub accepted : List ℕ

abbrev pub no_threads : Threads
no_threads = record {
  ui = new_socket;
  broadcasts = [];
  greetings = [];
  closing = [];
  accepted = [];
}

-- The change, and the start of its broadcast.
unfoldable pub begin : Author → Update → Threads → Threads
begin a k s =
    let st = updated k s.ui.st in
    record s {
      ui = record (s.ui) { st = st };
      broadcasts =
          record { author = a; line = st; todo = s.ui.clients; failed = [] } ∷ s.broadcasts;
    }

-- The broadcast between `before` and `after` writes its line to the connection c.
unfoldable pub write_line :
    Bool
    → Author
    → State
    → ℕ
    → List ℕ
    → List ℕ
    → List Broadcast
    → List Broadcast
    → Threads
    → Threads
write_line good a line c todo failed before after s = record s {
  ui = record (s.ui) { sent = if good then (c, state line) ∷ s.ui.sent else s.ui.sent };
  broadcasts =
      before
      ++ record {
        author = a;
        line = line;
        todo = todo;
        failed = if good then failed else failed ++ c ∷ [];
      }
        ∷ after;
}

-- It has the mutex again, and drops the clients that failed.
unfoldable pub end_broadcast : List ℕ → List Broadcast → List Broadcast → Threads → Threads
end_broadcast failed before after s = record s {
  ui = drop_failed failed s.ui;
  broadcasts = before ++ after;
}

-- `u.clients[conn] = struct{}{}`
unfoldable pub accept : ℕ → Threads → Threads
accept c s = record s {
  ui = record (s.ui) { clients = c ∷ s.ui.clients };
  accepted = c ∷ s.accepted;
}

-- Nothing that the goroutine does in a broadcast or a greeting goes on.
pub record IsFree (a : Author) (s : Threads) : Type 0 where
  pub no_broadcast : All (λ b. b.author ≢ a) s.broadcasts
  pub no_greeting : All (λ g. client (g.0) ≢ a) s.greetings

-- `u.clients` had the connection of the goroutine once.
abbrev pub IsThere : Author → Threads → Type 0
IsThere daemon s = Unit
IsThere (client c) s = contains s.accepted c ≡ true

-- `delete(u.clients, conn)` of removeClient and of handleClient, whose Close is still to come.
unfoldable pub remove : ℕ → Threads → Threads
remove c s = record s {
  ui = record (s.ui) { clients = remove_client c s.ui.clients };
  closing = c ∷ s.closing;
}

-- `conn.Close()`
unfoldable pub close : ℕ → List ℕ → Threads → Threads
close c others s = record s { ui = record (s.ui) { closed = c ∷ s.ui.closed }; closing = others }

-- The writes of sendHelloAndState, of which a failed one removes the connection.
unfoldable pub greet : Bool → Bool → ℕ → State → Threads → Threads
unfolding remove
greet true true c st s = record s {
  ui = record (s.ui) { sent = (c, state st) ∷ (c, hello) ∷ s.ui.sent };
}
greet true false c st s =
    remove c (record s { ui = record (s.ui) { sent = (c, hello) ∷ s.ui.sent } })
greet false state_written c st s = remove c s

pub data Step : Threads → Threads → Type 0 where
  begins :
      (a : Author) (k : Update) (s : Threads)
      → Makes a k
      → IsThere a s
      → IsFree a s
      → Step s (begin a k s)
  -- The reloader sets the rules, and broadcasts nothing.
  sets_rules :
      (rules : List RuleInfo) (s : Threads) → Step s (record s { ui = set_rules rules s.ui })
  writes :
      (good : Bool) (a : Author) (line : State) (c : ℕ) (todo failed : List ℕ)
      (before after : List Broadcast) (s : Threads)
      → s.broadcasts
        ≡ before ++ record { author = a; line = line; todo = c ∷ todo; failed = failed } ∷ after
      → Step s (write_line good a line c todo failed before after s)
  ends :
      (a : Author) (line : State) (failed : List ℕ) (before after : List Broadcast) (s : Threads)
      → s.broadcasts
        ≡ before ++ record { author = a; line = line; todo = []; failed = failed } ∷ after
      → Step s (end_broadcast failed before after s)
  -- A new connection is not one of those before.
  accepts : (c : ℕ) (s : Threads) → contains s.accepted c ≡ false → Step s (accept c s)
  reads_state :
      (c : ℕ) (s : Threads)
      → contains s.accepted c ≡ true
      → Step s (record s { greetings = (c, s.ui.st) ∷ s.greetings })
  greets :
      (hello_written state_written : Bool) (c : ℕ) (st : State) (before after : List (ℕ × State))
      (s : Threads)
      → s.greetings ≡ before ++ (c, st) ∷ after
      → Step s (greet hello_written state_written c st (record s { greetings = before ++ after }))
  -- handleClient returns: the end of the input, an error, or the context.
  disconnects :
      (c : ℕ) (s : Threads)
      → contains s.accepted c ≡ true
      → IsFree (client c) s
      → Step s (remove c s)
  closes :
      (c : ℕ) (before after : List ℕ) (s : Threads)
      → s.closing ≡ before ++ c ∷ after
      → Step s (close c (before ++ after) s)
  cleans : (s : Threads) → Step s (record s { ui = cleanup s.ui })

pub data Reach : Threads → Type 0 where
  here : Reach no_threads
  next : {s t : Threads} → Reach s → Step s t → Reach t
