-- ===== src/Ui/Server.antt =====
-- ui/socket.go: Run, with resolveSocketPath and removeStaleSocket, over the file of the socket.
pub mod Laws
pub mod Restart
use avella.Common.{
  ℕ, Bool, true, false, List, [], ◌∷◌, Option, none, some, Result, ok, err, is_empty, if◌then◌else◌,
}
use avella.Common.Text.{Text, str}
use avella.Go.FilePath.{join}
use avella.Ui.{SocketUi, State}

-- What stands at the socket's path: nothing, a file that nobody listens on, or the socket of a
-- daemon.
pub data SocketFile : Type 0 where
  absent stale : SocketFile
  listening : ℕ → SocketFile

-- What the system answers in the course of one Run.
pub record Answers : Type 0 where
  -- `os.UserHomeDir`, and `os.MkdirAll` of the directory
  pub home : Option Text
  pub makes_dir : Text → Bool
  -- A daemon that listens takes a connection within the 500 milliseconds.
  pub in_time : ℕ → Bool
  -- `os.Remove` of a file that is there, and `Listen` where no file is, return nil.
  pub removes : Bool
  pub listens : Bool

pub data SocketError : Type 0 where
  no_home mkdir_failed daemon_running remove_failed listen_failed : SocketError

abbrev default_socket_dir : Text
default_socket_dir = str ".cache/avella"

abbrev socket_file_name : Text
socket_file_name = str "avella.sock"

unfoldable pub resolve_socket_path : Answers → Result SocketError Text
resolve_socket_path a = elim a.home [
  | none ↦ err no_home
  | some home ↦
      let dir = join home default_socket_dir in
      if a.makes_dir dir then ok (join dir socket_file_name) else err mkdir_failed
]

-- The dial of removeStaleSocket connects.
unfoldable pub probe : Answers → SocketFile → Bool
probe a absent = false
probe a stale = false
probe a (listening d) = a.in_time d

-- `os.Remove`, where a missing file is no error.
unfoldable pub unlink : Answers → SocketFile → Result SocketError SocketFile
unlink a absent = ok absent
unlink a stale = if a.removes then ok absent else err remove_failed
unlink a (listening d) = if a.removes then ok absent else err remove_failed

unfoldable pub remove_stale_socket : Answers → SocketFile → Result SocketError SocketFile
unfolding probe unlink
remove_stale_socket a file = if probe a file then err daemon_running else unlink a file

-- `Listen`: there must be no file at the path.
unfoldable pub listen : Answers → ℕ → SocketFile → Result SocketError SocketFile
listen a me absent = if a.listens then ok (listening me) else err listen_failed
listen a me stale = err listen_failed
listen a me (listening d) = err listen_failed

-- How Run goes on: `daemon(ctx)` on its own goroutine and without a socket, `cancel()`, or the
-- socket at a path with the accept loop and the daemon in goroutines.
pub data Start : Type 0 where
  headless : SocketError → Start
  refused : Start
  serving : Text → Start

pub record Started : Type 0 where
  pub start : Start
  pub file : SocketFile
  pub ui : SocketUi

-- `if u.st.Status == "" { u.st.Status = "Idle" }`
unfoldable pub initial_status : SocketUi → SocketUi
initial_status u =
    if is_empty u.st.status then record u { st = record (u.st) { status = str "Idle" } } else u

unfoldable pub run_listening : Answers → ℕ → Text → SocketFile → SocketUi → Started
unfolding listen initial_status
run_listening a me path file u = elim (listen a me file) [
  | err e ↦ record { start = headless e; file = file; ui = u }
  | ok opened ↦ record { start = serving path; file = opened; ui = initial_status u }
]

-- `errors.Is(staleErr, errDaemonRunning)`
unfoldable pub run_failed : SocketError → Start
run_failed daemon_running = refused
run_failed no_home = headless no_home
run_failed mkdir_failed = headless mkdir_failed
run_failed remove_failed = headless remove_failed
run_failed listen_failed = headless listen_failed

unfoldable pub run_resolved : Answers → ℕ → Text → SocketFile → SocketUi → Started
unfolding remove_stale_socket run_listening run_failed
run_resolved a me path file u = elim (remove_stale_socket a file) [
  | err e ↦ record { start = run_failed e; file = file; ui = u }
  | ok free ↦ run_listening a me path free u
]

-- `Run` of the daemon `me`, up to where it waits for the context.
unfoldable pub run : Answers → ℕ → SocketFile → SocketUi → Started
unfolding resolve_socket_path run_resolved
run a me file u = elim (resolve_socket_path a) [
  | err e ↦ record { start = headless e; file = file; ui = u }
  | ok path ↦ run_resolved a me path file u
]
