-- ===== src/Ui/Threads/Order.antt =====
-- In which order a client gets the states, with and without another broadcast in between.
-- runDaemon's goroutine and that of a client are the two that can overtake one another.
use mathlib.Core.List.{append-nil, append_assoc}
use avella.Common.{
  ℕ, ◌≡◌, refl, sym, ap, subst, Bool, true, false, Bool-cases, List, [], ◌∷◌, ◌++◌, nat_eq,
  contains, not, inl, inr, arith,
}
use avella.Common.Text.{Text}
use avella.Ui.{State, Message, state, SocketUi, write_to_clients, drop_failed, broadcast}
use avella.Ui.Clients.{received}
use avella.Ui.Threads.{
  Author, daemon, client, Makes, IsThere, IsFree, Update, status_set, dry_run_toggled, updated,
  Broadcast, Threads, begin, write_line, end_broadcast, Step, begins, writes, ends,
}

pub data Steps : Threads → Threads → Type 0 where
  none_more : (s : Threads) → Steps s s
  more : {s t u : Threads} → Step s t → Steps t u → Steps s u

-- The threads with one more broadcast, and with other lines sent.
abbrev writing : Author → State → List ℕ → List ℕ → List (ℕ × Message) → Threads → Threads
writing a line todo failed sent s = record s {
  ui = record (s.ui) { sent = sent };
  broadcasts = record { author = a; line = line; todo = todo; failed = failed } ∷ s.broadcasts;
}

finish_writing :
    (takes : ℕ → Bool) (a : Author) (line : State) (todo failed : List ℕ)
    (sent : List (ℕ × Message)) (s : Threads)
    → let (sent', lost) = write_to_clients takes (state line) todo sent in
      Steps
        (writing a line todo failed sent s)
        (record s { ui = drop_failed (failed ++ lost) (record (s.ui) { sent = sent' }) })
unfolding write_to_clients write_line end_broadcast
finish_writing takes a line [] failed sent s =
    rw (append-nil failed) (more (ends a line failed [] s.broadcasts _ refl) (none_more _))
finish_writing takes a line (c ∷ todo) failed sent s = elim (Bool-cases (takes c)) [
  | inl good ↦ rw good (
      more (writes true a line c todo failed [] s.broadcasts _ refl)
        (finish_writing takes a line todo failed ((c, state line) ∷ sent) s))
  | inr bad ↦
      let rest = (write_to_clients takes (state line) todo sent).1 in
      rw (bad, sym (append_assoc failed (c ∷ []) rest))
        (more (writes false a line c todo failed [] s.broadcasts _ refl)
          (finish_writing takes a line todo (failed ++ c ∷ []) sent s))
]

-- A broadcast with nothing in between does what the tray's call as a whole does.
Steps-broadcast :
    (takes : ℕ → Bool) (a : Author) (k : Update) (s : Threads)
    → Makes a k
    → IsThere a s
    → IsFree a s
    → Steps s (record s { ui = broadcast takes (record (s.ui) { st = updated k s.ui.st }) })
unfolding broadcast begin
Steps-broadcast takes a k s makes there free = more (begins a k s makes there free) (
    finish_writing takes a (updated k s.ui.st) s.ui.clients [] s.ui.sent
      (record s { ui = record (s.ui) { st = updated k s.ui.st } }))

-- The state with another status, and in the other mode.
abbrev pub with_status : Text → SocketUi → State
with_status status u = record (u.st) { status = status }

abbrev pub toggled : State → State
toggled st = record st { dry_run = not st.dry_run }

-- The threads with no call that goes on.
abbrev pub quiet : SocketUi → List ℕ → Threads
quiet u accepted = record {
  ui = u;
  broadcasts = [];
  greetings = [];
  closing = [];
  accepted = accepted;
}

-- A run after which the mode is the other one and the last line of the client c says the old one.
abbrev pub EndsBehind : SocketUi → ℕ → Text → List ℕ → Type 0
EndsBehind u c status accepted =
    let set = with_status status u in
    (t : Threads) × Steps (quiet u accepted) t
    × (t.ui.st ≡ toggled set)
    × (t.broadcasts ≡ [])
    × (received c t.ui.sent ≡ state set ∷ state (toggled set) ∷ received c u.sent)

overtaken_one :
    (u : SocketUi) (c : ℕ) (status : Text) (accepted : List ℕ)
    → contains accepted c ≡ true
    → EndsBehind (record u { clients = c ∷ [] }) c status accepted
unfolding begin write_line end_broadcast drop_failed updated
overtaken_one u c status accepted known =
    let set = with_status status u in
    let first : Broadcast = record { author = daemon; line = set; todo = c ∷ []; failed = [] } in
    (
      _,
      more
          (begins daemon (status_set status) _ tt tt
            (record { no_broadcast = tt; no_greeting = tt }))
          (more
            (begins (client c) dry_run_toggled _ tt known
              (record { no_broadcast = ((λ e. cc e), tt); no_greeting = tt }))
            (more (writes true (client c) (toggled set) c [] [] [] (first ∷ []) _ refl) (
              more (ends (client c) (toggled set) [] [] (first ∷ []) _ refl) (
                more (writes true daemon set c [] [] [] [] _ refl)
                  (more (ends daemon set [] [] [] _ refl) (none_more _)))))),
      refl,
      refl,
      ground arith,
    )

-- The only client of the tray is c, which takes all lines. The daemon sets a status, and while that
-- is written c's own toggle is handled and broadcast. If the broadcast of the toggle is written
-- first, then the last line that c got says the mode from before the toggle, while the tray's state
-- has the other mode and nothing more is to be sent.
pub overtaken :
    (u : SocketUi) (c : ℕ) (status : Text) (accepted : List ℕ)
    → u.clients ≡ c ∷ []
    → contains accepted c ≡ true
    → EndsBehind u c status accepted
overtaken u c status accepted only known =
    subst (λ u. EndsBehind u c status accepted) (sym (ap (λ cs. record u { clients = cs }) only))
      (overtaken_one u c status accepted known)
