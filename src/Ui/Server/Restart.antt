-- ===== src/Ui/Server/Restart.antt =====
-- ui/socket.go: what cleanup does to the socket's file, and the next daemon's Run.
use avella.Common.{ℕ, ◌≡◌, refl, sym, subst, true, Bool-cases, ok, err, inl, inr, nat_eq}
use avella.Common.Text.{Text}
use avella.Ui.{SocketUi}
use avella.Ui.Server.{
  SocketFile, absent, stale, listening, Answers, resolve_socket_path, probe, unlink,
  remove_stale_socket, listen, serving, Started, initial_status, run_listening, run_resolved, run,
}
use avella.Ui.Server.Laws.{run-IsStarted}

-- `os.Remove`, whose error is ignored. Closing the listener removes the file in the same way.
unfoldable pub remove_socket : Answers → SocketFile → SocketFile
remove_socket a file = elim (unlink a file) [ ok left ↦ left | err e ↦ file ]

-- The file part of `cleanup`.
unfoldable pub cleanup_socket : Answers → SocketFile → SocketFile
unfolding remove_socket
cleanup_socket a file = remove_socket a (remove_socket a file)

-- The end of the process closes what it listens on: its socket's file, if it is still there, has no
-- listener any more.
pub record IsExit (exits : SocketFile → SocketFile) (me : ℕ) : Type 0 where
  pub missing : exits absent ≡ absent
  pub unused : exits stale ≡ stale
  pub own : exits (listening me) ≡ stale

-- A daemon whose system lets it have a socket at a path.
pub record IsAble (a : Answers) (path : Text) : Type 0 where
  pub resolved : resolve_socket_path a ≡ ok path
  pub removes : a.removes ≡ true
  pub listens : a.listens ≡ true

-- Nobody listens at the socket's path.
abbrev pub IsFree : SocketFile → Type 0
IsFree absent = Unit
IsFree stale = Unit
IsFree (listening d) = ⊥

free-serves :
    (a : Answers) (me : ℕ) (path : Text) (file : SocketFile) (u : SocketUi)
    → IsAble a path
    → IsFree file
    → run a me file u ≡ record { start = serving path; file = listening me; ui = initial_status u }
unfolding run run_resolved remove_stale_socket probe unlink run_listening listen
free-serves a me path absent u able free = rw (able.resolved, run) (rw able.listens refl)
free-serves a me path stale u able free =
    rw (able.resolved, run) (rw able.removes (rw able.listens refl))
free-serves a me path (listening d) u able free = absurd free

-- Nobody but this process listens at the path.
abbrev IsOwn : ℕ → SocketFile → Type 0
IsOwn me absent = Unit
IsOwn me stale = Unit
IsOwn me (listening d) = d ≡ me

removed-IsOwn :
    (a : Answers) (me : ℕ) (file : SocketFile) → IsOwn me file → IsOwn me (remove_socket a file)
unfolding remove_socket unlink
removed-IsOwn a me absent own = tt
removed-IsOwn a me stale own = elim (Bool-cases a.removes) [
  | inl gone ↦ rw gone tt
  | inr kept ↦ rw kept tt
]
removed-IsOwn a me (listening d) own = elim (Bool-cases a.removes) [
  | inl gone ↦ rw gone tt
  | inr kept ↦ rw kept own
]

exits-IsFree :
    (exits : SocketFile → SocketFile) (me : ℕ) (file : SocketFile)
    → IsExit exits me
    → IsOwn me file
    → IsFree (exits file)
exits-IsFree exits me absent is_exit own = subst IsFree (sym is_exit.missing) tt
exits-IsFree exits me stale is_exit own = subst IsFree (sym is_exit.unused) tt
exits-IsFree exits me (listening d) is_exit own =
    subst (λ n. IsFree (exits (listening n))) (sym own) (subst IsFree (sym is_exit.own) tt)

-- A daemon that served at a path never keeps the next one from serving there, whether it ended by
-- cleanup, which may fail to remove the file, or was killed before it: if the next one finds that
-- path, and may remove a file and listen, it serves.
pub restart_serves :
    (a b : Answers) (exits : SocketFile → SocketFile) (me other : ℕ) (path : Text)
    (file : SocketFile) (u v : SocketUi)
    → IsExit exits me
    → (run a me file u).start ≡ serving path
    → IsAble b path
    → let left = (run a me file u).file in
      let next : Started = record {
        start = serving path;
        file = listening other;
        ui = initial_status v;
      } in
      (run b other (exits (cleanup_socket a left)) v ≡ next) × (run b other (exits left) v ≡ next)
unfolding cleanup_socket
restart_serves a b exits me other path file u v is_exit served able =
    let left = (run a me file u).file in
    let held = ((run-IsStarted a me u file).serves path served).0 in
    let own : IsOwn me left = subst (IsOwn me) (sym held) refl in
    let removed = removed-IsOwn a me _ (removed-IsOwn a me left own) in
    (
      free-serves b other path _ v able (exits-IsFree exits me _ is_exit removed),
      free-serves b other path _ v able (exits-IsFree exits me left is_exit own),
    )
