-- ===== src/Ui/Server/Laws.antt =====
-- When a daemon starts, and what its Run leaves at the socket's path.
use avella.Common.{
  ℕ, ◌≡◌, ◌↔◌, refl, true, false, ok, err, is_empty, arith, ◌⊎◌, inl, inr, Result-cases, Bool-cases,
}
use avella.Common.Text.{Text}
use avella.Ui.{SocketUi}
use avella.Ui.Server.{
  SocketFile, absent, stale, listening, Answers, SocketError, listen_failed, remove_failed,
  resolve_socket_path, probe, unlink, remove_stale_socket, listen, Start, headless, refused,
  serving, Started, initial_status, run_listening, run_failed, run_resolved, run,
}

abbrev pub Refused : Start → Type 0
Refused refused = Unit
Refused (headless e) = ⊥
Refused (serving path) = ⊥

-- A path that was resolved, at which another daemon takes the connection in time.
abbrev pub IsTaken : Answers → SocketFile → Type 0
IsTaken a file = (path : Text) × (resolve_socket_path a ≡ ok path) × (probe a file ≡ true)

pub record IsStarted (a : Answers) (me : ℕ) (file : SocketFile) (u : SocketUi) (o : Started)
    : Type 0 where
  -- The daemon runs, with a socket or without one, unless another one answers.
  pub refused_iff : (o.start ≡ refused) ↔ IsTaken a file
  pub refused_keeps : o.start ≡ refused → (o.file ≡ file) × (o.ui ≡ u)
  pub headless_keeps : (e : SocketError) → o.start ≡ headless e → o.ui ≡ u
  pub serves :
      (path : Text)
      → o.start ≡ serving path
      → (o.file ≡ listening me) × (o.ui ≡ initial_status u) × (is_empty o.ui.st.status ≡ false)

initial_status_shown : (u : SocketUi) → is_empty (initial_status u).st.status ≡ false
unfolding initial_status
initial_status_shown u = ground arith

unlink-cases :
    (a : Answers) (file : SocketFile)
    → (unlink a file ≡ ok absent) ⊎ (unlink a file ≡ err remove_failed)
unfolding unlink
unlink-cases a absent = inl refl
unlink-cases a stale = ground arith
unlink-cases a (listening d) = ground arith

listen-cases :
    (a : Answers) (me : ℕ)
    → (listen a me absent ≡ ok (listening me)) ⊎ (listen a me absent ≡ err listen_failed)
unfolding listen
listen-cases a me = ground arith

module _ (a : Answers) (me : ℕ) (u : SocketUi) where
  -- A Run that goes on without a socket.
  without_socket :
      (file left : SocketFile) (e : SocketError)
      → (IsTaken a file → ⊥)
      → IsStarted a me file u (record { start = headless e; file = left; ui = u })
  without_socket file left e free = record {
    refused_iff = (λ r. absurd (cc r), λ taken. absurd (free taken));
    refused_keeps = λ r. absurd (cc r);
    headless_keeps = λ e' h. refl;
    serves = λ path h. absurd (cc h);
  }

  run_listening-IsStarted :
      (path : Text) (file : SocketFile)
      → (IsTaken a file → ⊥)
      → IsStarted a me file u (run_listening a me path absent u)
  unfolding run_listening
  run_listening-IsStarted path file free = elim (listen-cases a me) [
    | inr fails ↦ rw (fails, run_listening) (without_socket file absent listen_failed free)
    | inl opened ↦
        rw (opened, run_listening)
          (record {
            refused_iff = (λ r. absurd (cc r), λ taken. absurd (free taken));
            refused_keeps = λ r. absurd (cc r);
            headless_keeps = λ e' h. absurd (cc h);
            serves = λ path h. (refl, refl, initial_status_shown u);
          })
  ]

  run_answered-IsStarted :
      (path : Text) (file : SocketFile)
      → resolve_socket_path a ≡ ok path
      → probe a file ≡ true
      → IsStarted a me file u (record { start = refused; file = file; ui = u })
  run_answered-IsStarted path file resolved answers = record {
    refused_iff = (λ r. (path, resolved, answers), λ taken. refl);
    refused_keeps = λ r. (refl, refl);
    headless_keeps = λ e h. absurd (cc h);
    serves = λ path h. absurd (cc h);
  }

  run_unanswered-IsStarted :
      (path : Text) (file : SocketFile)
      → probe a file ≡ false
      → IsStarted a me file u (run_resolved a me path file u)
  unfolding run_resolved remove_stale_socket run_failed
  run_unanswered-IsStarted path file unanswered =
      let free : IsTaken a file → ⊥ = λ (p, r, answers). cc (answers, unanswered) in
      elim (unlink-cases a file) [
        | inl gone ↦
            rw (unanswered, gone, remove_stale_socket, run_resolved)
              (run_listening-IsStarted path file free)
        | inr kept ↦
            rw (unanswered, kept, remove_stale_socket, run_resolved)
              (without_socket file file remove_failed free)
      ]

  run_resolved-IsStarted :
      (path : Text) (file : SocketFile)
      → resolve_socket_path a ≡ ok path
      → IsStarted a me file u (run_resolved a me path file u)
  unfolding run_resolved remove_stale_socket run_failed
  run_resolved-IsStarted path file resolved = elim (Bool-cases (probe a file)) [
    | inl answers ↦ rw (answers, run_resolved) (run_answered-IsStarted path file resolved answers)
    | inr unanswered ↦ run_unanswered-IsStarted path file unanswered
  ]

  -- Run calls the daemon, with a socket or without one, unless its path is known and another daemon
  -- answers there in time; then it touches neither the socket's file nor the tray's state. If it
  -- serves, the socket is its own and the status that it shows is not empty.
  pub run-IsStarted : (file : SocketFile) → IsStarted a me file u (run a me file u)
  unfolding run
  run-IsStarted file = elim (Result-cases (resolve_socket_path a)) [
    | inl (path, resolved) ↦ rw (resolved, run) (run_resolved-IsStarted path file resolved)
    | inr (e, failed) ↦
        rw (failed, run)
          (without_socket file file e (λ (path, resolved, answers). cc (resolved, failed)))
  ]
