-- ===== src/Lib.antt =====
-- Verification of avella, a daemon that watches directories and applies rules to the files that
-- appear in them.
--
-- The program and its model:
--   config/config.go reads, expands and validates the configuration: Config (the types, TypeName),
--     Config/Expand (expandPaths, Load), Config/Validate (Validate and its helpers), with the
--     specification of a valid configuration in Config/Validate/Spec.
--   internal/pathutil/pathutil.go: PathUtil (ExpandHome).
--   template/: Template (template.go) and Template/FileType (filetype.go).
--   actions/: Actions (FromConfig, String, Describe), Actions/Move (MoveAction.Execute, copyFile),
--     Actions/Upload (scp.go), Actions/ValidateZip (validate_zip.go), and Actions/Execute (exec.go,
--     notify.go, and the `Runner` that all of them make, which the engine runs).
--   ssh/pool.go: SshPool (Pool).
--   rules/match.go: Rules/Match (Matches). rules/engine.go: Rules/Engine (the types, SetDryRun),
--     Rules/Engine/Compile (NewEngine), Rules/Engine/Process (ShouldIgnore, Process, runHooks),
--     Rules/Engine/Process/Announce (logDryRun), Rules/Engine/Process/Stepwise (Process again, one
--     call of Execute at a time). Rules/Engine/Compile/Order has the ignore rules as a quotient, since
--     their map has no order.
--   stabilizer/stabilizer.go: Stabilizer (ShouldSkip, WaitStable).
--   sweep.go: Daemon/Tracker (processTracker). Its Reset is called `clear`.
--   main.go: Daemon/Main (main, with logging.go), Daemon/Runtime (runtimeState, handlePath),
--     Daemon/Runtime/Reload (reloadConfig), Daemon/Sweep (processExistingFiles, runOnce,
--     addRecentFromResult, ruleInfoFromConfig), Daemon/Loop (runDaemon), Daemon/Reloader
--     (startConfigReloader, watchConfigFile). newSSH is in Rules/Engine/Compile.
--     Daemon/Runtime/Reload/Notice has what a reload tells the user. Five files put the parts
--     together: Daemon/Locked has the lock of runtimeState, under which Process is executed action by
--     action, Daemon/Handling has handlePath among the other goroutines, Daemon/Pipeline
--     runDaemon with the watcher that feeds it, Daemon/Pools the runtime state with the SSH pools up
--     to their Close, and Daemon/Lifetime the process up to the end of Run.
--   watcher/watcher.go: Watcher (New, Start).
--   ui/ui.go and ui/socket.go: Ui (SocketUI, each call as one step, and handleClient), Ui/Threads (its
--     goroutines), Ui/Wire (the JSON lines), Ui/Interface (UI, with NoopUI and SocketUI behind
--     it), and Ui/Server (Run, removeStaleSocket, the end of the socket's file).
-- main loads the configuration, compiles it into an engine, and starts the tray's server with the
-- daemon. The watcher, and sweeps, give paths to handlePath, which filters a path, asks the
-- tracker, and lets the engine process the file by its actions; the reloader replaces the engine;
-- the tray's socket shows the state and toggles dry-run.
--
-- Goroutines are step relations: Watcher, Daemon/Reloader, Daemon/Runtime/Reload, Daemon/Locked, Daemon/Handling,
-- Daemon/Pipeline, Daemon/Pools, Daemon/Lifetime and Ui/Threads, whose steps come in any order.
--
-- Conventions: a Go string is the list of its bytes (Common/Text), an `int64` a signed integer with
-- its wrap-around written out (Common/Int), a map an association list in the order in which a range
-- over it goes (Common/Dict), a nil pointer `none`, an error a constructor. A function that reads the
-- clock or a context in a loop takes a family of moments, one for each round. Shared SSH pools stand
-- by identity. A write to a connection succeeds or fails as an argument says.
--
-- Parameters: `Std` (Go) has the engines of Go's standard library that the program only consults:
-- regexp, glob patterns, durations, time formats, text/template, Unicode case. `Runner`
-- (Rules/Engine) is the world that actions change, with os.Stat and each Execute. `Files`
-- (Actions/Move) has the calls of a move, with what they do to the contents of files in
-- `IsLawful`. `Remote` (Actions/Upload) has those of an SFTP session with `IsFaithful`, `Archive`
-- what package archive/zip finds in a file, `Host` (Actions/Execute) all of these and the programs
-- that are run, and `Network` (SshPool) what the network and the agent answer to one call, as
-- `Answers` (Ui/Server) does for Run. `Json` (Ui/Wire) is package encoding/json, and the lines
-- that bufio.Scanner reads from a connection are an argument of handleClient. Decoding the
-- configuration file is an argument of `load`.
--
-- Bounds: no definition takes fuel. WaitStable runs over the finite list of the polls that it makes,
-- and its liveness says which lists make it return.
--
-- Not modelled: the parsing of the command line and the calls of osascript and open (libraries and
-- programs that the source calls), signals (a run's `cancelled` input), the permissions of the socket
-- of ui/socket.go, whose failure is only logged, log lines but those of a dry run (I/O only), and
-- tray/ (another program).
pub mod Common
pub mod Go
pub mod PathUtil
pub mod Template
pub mod Config
pub mod Actions
pub mod Rules
pub mod Daemon
pub mod Stabilizer
pub mod Watcher
pub mod SshPool
pub mod Ui
mod Tests
