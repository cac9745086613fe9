-- ===== src/Tests/LifetimeTests.antt =====
-- Tests of the life of the process, and its theorems for a daemon whose watcher could not be made.
use avella.Common.{refl, true, false, [], some}
use avella.Common.Text.{str}
use avella.Daemon.Lifetime.{Lifetime, launch, Steps, stop, works, exits}
use avella.Daemon.Lifetime
use avella.Daemon.Pipeline.{start, watches, returned}
use avella.Tests.{go, machine}
use avella.Tests.LoopTests.{env}
use avella.Tests.PipelineTests.{begun}
use avella.Ui.Server.{serving}
use avella.Watcher.{context_ends, not_added, closed, idle}

abbrev failed : Lifetime go machine
failed = record {
  runs = record (start go machine begun) {
    watch = record idle { phase = closed };
    stage = returned;
  };
  ended = false;
}

abbrev signalled : Lifetime go machine
signalled = record failed {
  runs = record (failed.runs) { watch = record idle { phase = closed; done = true } };
}

-- runDaemon has returned already, and the process goes on until a signal.
failed-Steps :
    Steps go machine env []
      (serving (str "/sock"))
      (launch go machine (some (not_added (str "/in"))) begun)
      (record signalled { ended = true })
unfolding launch
failed-Steps =
    Lifetime.go
      (works failed refl tt (watches failed.runs (context_ends failed.runs.watch refl) tt))
      (Lifetime.go (exits signalled refl refl) (stop _))
