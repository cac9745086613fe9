-- ===== src/Tests/WatcherTests.antt =====
-- Tests of the watcher, and its theorems at one file.
use avella.Common.{◌≡◌, ◌≤◌, ◌⊎◌, refl, true, false, List, [], ◌∷◌, ◌++◌, ok, ℕ_discrete}
use avella.Common.Int.{int_eq}
use avella.Common.Text.{text_eq}
use avella.Daemon.Reloader.{Event}
use avella.Go.FilePath.{ext}
use avella.Go.Strings.{to_lower}
use avella.Stabilizer.{Poll, wait_stable, should_skip}
use avella.Tests.{go, film, film_info}
use avella.Watcher.Shutdown.{Run, stays, goes, work, IsAlone, shutdown_ends, sent-closed}
use avella.Watcher.{
  Turn, polling, offering, polled, Watch, idle, Step, running, draining, closed, context_ends,
  context_seen, fsnotify_closed, closes, event, receiver_comes, looks, sends, drops, leaves, Reach,
  here, next, on_create, finish, forget,
}
use avella.Watcher.Laws.{IsConsistent, Reach-IsConsistent}

abbrev pub created : Event
created = record {
  name = film;
  op = record { create = true; write = false; remove = false; rename = false; chmod = false };
}

abbrev pub saw : Poll
saw = record { done = false; stat = ok film_info; interrupted = false }

abbrev pub four : List Poll
four = saw ∷ saw ∷ saw ∷ saw ∷ []

-- The film's goroutine, in the given turn.
abbrev pub with_film : Turn → Watch
with_film turn = record idle {
  pending = film ∷ [];
  waits = record { path = film; turn = turn } ∷ [];
}

-- The file appeared, was stable, and was sent to a receiver.
abbrev emitted : Watch
emitted = record {
  phase = running;
  done = false;
  receiving = false;
  pending = [];
  waits = [];
  sent = (film, four) ∷ [];
}

created-Reach : Reach go (with_film (polling []))
unfolding on_create should_skip to_lower ext text_eq ℕ_discrete
created-Reach = next here (event created false _ refl)

look :
    (made : List Poll) → Step go (with_film (polling made)) (with_film (polled (made ++ saw ∷ [])))
look made = looks saw film [] [] made _ refl refl (λ h. absurd (cc h))

ready-Reach : Reach go (with_film (offering four))
unfolding wait_stable int_eq ℕ_discrete
ready-Reach =
    next (next (next (next created-Reach (look [])) (look (saw ∷ []))) (look (saw ∷ saw ∷ [])))
      (look (saw ∷ saw ∷ saw ∷ []))

emitted-Reach : Reach go emitted
unfolding finish forget text_eq ℕ_discrete
emitted-Reach =
    let there = next ready-Reach (receiver_comes _ refl) in
    next (next there (sends film [] [] four _ refl refl)) (leaves film [] [] _ refl)

Reach-IsConsistent_example : IsConsistent go emitted
Reach-IsConsistent_example = Reach-IsConsistent go emitted-Reach

-- The context ended while one goroutine offered its file and nobody received.
abbrev stopping : Watch
stopping = record (with_film (offering four)) { phase = draining; done = true }

stopping-Reach : Reach go stopping
stopping-Reach = next (next ready-Reach (context_ends _ refl)) (context_seen _ refl refl)

abbrev stopped : Watch
stopped = record idle { phase = closed; done = true }

-- It gives up, and the channel is closed.
stopping-Run : Run go 3 stopping stopped
unfolding finish forget text_eq ℕ_discrete
stopping-Run =
    goes (drops film [] [] four _ refl refl) (λ h. h)
      (goes (leaves film [] [] _ refl) (λ h. h) (goes (closes _ refl refl) (λ h. h) (stays _)))

shutdown_ends_example :
    (3 ≤ work stopping.waits)
    × ((stopped.phase ≡ closed) ⊎ ((u : Watch) × (st : Step go stopped u) × IsAlone go st))
shutdown_ends_example = shutdown_ends go stopping-Reach refl refl stopping-Run

-- The file was sent before fsnotify was closed, and the context ends last.
abbrev shut : Watch
shut = record emitted { phase = closed }

shut-Reach : Reach go shut
shut-Reach = next (next emitted-Reach (fsnotify_closed _ refl)) (closes _ refl refl)

sent-closed_example :
    let t : Watch = record shut { done = true } in (t.phase ≡ closed) × (t.sent ≡ shut.sent)
sent-closed_example =
    sent-closed go shut-Reach refl (goes (context_ends shut refl) (λ h. h) (stays _))
