-- ===== src/Ui/Clients.antt =====
-- Who gets a broadcast, and who is still connected after it.
use avella.Common.{
  ℕ, ◌≡◌, refl, ap, ◌∙◌, Bool, false, not, ◌&&◌, List, [], ◌∷◌, arith, ◌==◌, contains, nat_eq,
  if◌then◌else◌,
}
use avella.Ui.{SocketUi, Message, state, remove_client, write_to_clients, drop_failed, broadcast}

-- The lines that a client received, the latest first.
abbrev pub received : ℕ → List (ℕ × Message) → List Message
received c [] = []
received c ((d, m) ∷ sent) = if c == d then m ∷ received c sent else received c sent

abbrev pub NodupClients : List ℕ → Type 0
NodupClients [] = Unit
NodupClients (c ∷ cs) = (contains cs c ≡ false) × NodupClients cs

pub contains-remove_client :
    (c d : ℕ) (cs : List ℕ) → contains (remove_client d cs) c ≡ (contains cs c && not (c == d))
unfolding remove_client
contains-remove_client c d [] = refl
contains-remove_client c d (e ∷ cs) = ground (arith, contains-remove_client c d cs)

pub contains-drop_failed :
    (c : ℕ) (failed : List ℕ) (u : SocketUi)
    → contains (drop_failed failed u).clients c ≡ (contains u.clients c && not (contains failed c))
unfolding drop_failed
contains-drop_failed c [] u = ground arith
contains-drop_failed c (d ∷ failed) u =
    contains-drop_failed c failed
      (record u { clients = remove_client d u.clients; closed = d ∷ u.closed })
    ∙ rw (contains-remove_client c d u.clients) (ground arith)

contains-failed :
    (c : ℕ) (writes : ℕ → Bool) (m : Message) (cs : List ℕ) (sent : List (ℕ × Message))
    → contains (write_to_clients writes m cs sent).1 c ≡ (contains cs c && not (writes c))
unfolding write_to_clients
contains-failed c writes m [] sent = refl
contains-failed c writes m (d ∷ cs) sent =
    ground (arith, contains-failed c writes m cs (if writes d then (d, m) ∷ sent else sent))

-- After a broadcast exactly the clients that took the line are still connected.
contains-broadcast :
    (writes : ℕ → Bool) (u : SocketUi) (c : ℕ)
    → contains (broadcast writes u).clients c ≡ (contains u.clients c && writes c)
unfolding broadcast
contains-broadcast writes u c =
    let (sent', failed) = write_to_clients writes (state u.st) u.clients u.sent in
    contains-drop_failed c failed (record u { sent = sent' })
    ∙ rw (contains-failed c writes (state u.st) u.clients u.sent) (ground arith)

received-write :
    (c : ℕ) (writes : ℕ → Bool) (m : Message) (cs : List ℕ) (sent : List (ℕ × Message))
    → NodupClients cs
    → received c (write_to_clients writes m cs sent).0
      ≡ (if contains cs c && writes c then m ∷ received c sent else received c sent)
unfolding write_to_clients
received-write c writes m [] sent nodup = refl
received-write c writes m (d ∷ cs) sent nodup = ground (
  arith,
  received-write c writes m cs (if writes d then (d, m) ∷ sent else sent) nodup.1,
  nodup.0,
)

drop_failed-sent : (cs : List ℕ) (u : SocketUi) → (drop_failed cs u).sent ≡ u.sent
unfolding drop_failed
drop_failed-sent [] u = refl
drop_failed-sent (c ∷ cs) u = drop_failed-sent cs _

-- A broadcast sends the current state once to each client that takes it, and nothing to others.
received-broadcast :
    (writes : ℕ → Bool) (u : SocketUi) (c : ℕ)
    → NodupClients u.clients
    → received c (broadcast writes u).sent ≡ (
        if contains u.clients c && writes c
        then state u.st ∷ received c u.sent
        else received c u.sent)
unfolding broadcast
received-broadcast writes u c nodup =
    let (sent', failed) = write_to_clients writes (state u.st) u.clients u.sent in
    ap (received c) (drop_failed-sent failed (record u { sent = sent' }))
    ∙ received-write c writes (state u.st) u.clients u.sent nodup

-- A broadcast sends the current state once to each client that takes it and nothing to others, and
-- afterwards exactly the clients that took it are connected.
broadcast-received :
    (writes : ℕ → Bool) (u : SocketUi) (c : ℕ)
    → NodupClients u.clients
    → (received c (broadcast writes u).sent ≡ (
        if contains u.clients c && writes c
        then state u.st ∷ received c u.sent
        else received c u.sent))
      × (contains (broadcast writes u).clients c ≡ (contains u.clients c && writes c))
broadcast-received writes u c nodup =
    (received-broadcast writes u c nodup, contains-broadcast writes u c)
