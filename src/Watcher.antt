-- ===== src/Watcher.antt =====
-- watcher/watcher.go: Start, its loop over the events and the goroutine that it starts for a file.
-- Each step is one round of the loop, or one round of WaitStable, one case of the select or the
-- deferred function of a goroutine; the order is left open.
pub mod Laws
pub mod Shutdown
use avella.Common.{
  ℕ, ◌≡◌, Bool, true, false, not, List, [], ◌∷◌, ◌++◌, Option, none, some, contains, if◌then◌else◌,
  ◌==◌,
}
use avella.Common.Int.{ℤ, pos}
use avella.Common.Text.{Text, text_eq}
use avella.Daemon.Reloader.{Event}
use avella.Go.{Std}
use avella.Stabilizer.{
  Poll, WaitResult, stable, cancelled, file_removed, stat_error, wait_stable, should_skip,
}

abbrev pub default_stable_checks : ℤ
default_stable_checks = pos 3

-- The failures of New. After a failed Add it closes the fsnotify watcher.
pub data NewError : Type 0 where
  no_watcher : NewError
  not_added : Text → NewError

add_dirs : (Text → Bool) → List Text → Option NewError
add_dirs adds [] = none
add_dirs adds (dir ∷ dirs) =
    let rest = add_dirs adds dirs in if adds dir then rest else some (not_added dir)

-- `New`: whether fsnotify makes a watcher, and which directories it can add.
unfoldable pub new_watcher : Bool → (Text → Bool) → List Text → Option NewError
unfolding add_dirs
new_watcher made adds dirs = if made then add_dirs adds dirs else some no_watcher

-- A goroutine is in WaitStable, which has made some polls; in its select, with the polls on which
-- WaitStable returned nil; or in its deferred function.
pub data Turn : Type 0 where
  polling : List Poll → Turn
  offering : List Poll → Turn
  leaving : Turn

-- What WaitStable does after its latest poll.
abbrev pub after_poll : List Poll → Option WaitResult → Turn
after_poll polls none = polling polls
after_poll polls (some stable) = offering polls
after_poll polls (some cancelled) = leaving
after_poll polls (some file_removed) = leaving
after_poll polls (some stat_error) = leaving

pub record Wait : Type 0 where
  pub path : Text
  pub turn : Turn

-- The loop over the events runs; it returned, and `wg.Wait()` waits; the channel is closed.
pub data Phase : Type 0 where
  running draining closed : Phase

-- The keys of `pending`, the goroutines that run, and what was sent on the channel with the polls
-- that led to it, the latest first. `done` says that the context is done, and `receiving` that
-- somebody receives from the channel, which has no buffer.
pub record Watch : Type 0 where
  pub phase : Phase
  pub done : Bool
  pub receiving : Bool
  pub pending : List Text
  pub waits : List Wait
  pub sent : List (Text × List Poll)

abbrev pub idle : Watch
idle = record {
  phase = running;
  done = false;
  receiving = false;
  pending = [];
  waits = [];
  sent = [];
}

abbrev pub polled : List Poll → Turn
polled made = after_poll made (wait_stable default_stable_checks made)

-- The goroutine between `before` and `after` goes on.
abbrev pub turned : Text → Turn → List Wait → List Wait → Watch → Watch
turned path turn before after s = record s {
  waits = before ++ record { path = path; turn = turn } ∷ after;
}

-- `delete(pending, path)`
unfoldable pub forget : Text → List Text → List Text
forget path [] = []
forget path (p ∷ ps) = let rest = forget path ps in if path == p then rest else p ∷ rest

module _ (std : Std) where
  -- `case event := <-w.fsw.Events`. `ignored` is what IgnoreFunc returns at that moment.
  unfoldable pub on_create : Event → Bool → Watch → Watch
  on_create e ignored s =
      if not e.op.create
      then s
      else if should_skip std e.name
      then s
      else if ignored
      then s
      else if contains s.pending e.name
      then s
      else record s {
        pending = e.name ∷ s.pending;
        waits = record { path = e.name; turn = polling [] } ∷ s.waits;
      }

  -- The goroutine between `before` and `after` ends: its deferred function runs.
  unfoldable pub finish : Text → List Wait → List Wait → Watch → Watch
  finish path before after s = record s { pending = forget path s.pending; waits = before ++ after }

  pub data Step : Watch → Watch → Type 0 where
    event :
        (e : Event) (ignored : Bool) (s : Watch)
        → s.phase ≡ running
        → Step s (on_create e ignored s)
    watcher_error : (s : Watch) → s.phase ≡ running → Step s s
    context_ends : (s : Watch) → s.done ≡ false → Step s (record s { done = true })
    -- The loop returns: the context is done, or a channel of fsnotify was closed.
    context_seen :
        (s : Watch) → s.phase ≡ running → s.done ≡ true → Step s (record s { phase = draining })
    fsnotify_closed : (s : Watch) → s.phase ≡ running → Step s (record s { phase = draining })
    -- Whoever reads the channel comes to receive, and turns to something else.
    receiver_comes : (s : Watch) → s.receiving ≡ false → Step s (record s { receiving = true })
    receiver_goes : (s : Watch) → s.receiving ≡ true → Step s (record s { receiving = false })
    -- A round of WaitStable, which looks at the context first. A context that ends in its interval is
    -- seen there or by the next round.
    looks :
        (p : Poll) (path : Text) (before after : List Wait) (made : List Poll) (s : Watch)
        → s.waits ≡ before ++ record { path = path; turn = polling made } ∷ after
        → p.done ≡ s.done
        → (p.interrupted ≡ true → s.done ≡ true)
        → Step s (turned path (polled (made ++ p ∷ [])) before after s)
    -- The two cases of the select.
    sends :
        (path : Text) (before after : List Wait) (made : List Poll) (s : Watch)
        → s.waits ≡ before ++ record { path = path; turn = offering made } ∷ after
        → s.receiving ≡ true
        → Step s (record (turned path leaving before after s) {
          receiving = false;
          sent = (path, made) ∷ s.sent;
        })
    drops :
        (path : Text) (before after : List Wait) (made : List Poll) (s : Watch)
        → s.waits ≡ before ++ record { path = path; turn = offering made } ∷ after
        → s.done ≡ true
        → Step s (turned path leaving before after s)
    leaves :
        (path : Text) (before after : List Wait) (s : Watch)
        → s.waits ≡ before ++ record { path = path; turn = leaving } ∷ after
        → Step s (finish path before after s)
    -- `wg.Wait()` returns, and the deferred `close(out)` runs.
    closes : (s : Watch) → s.phase ≡ draining → s.waits ≡ [] → Step s (record s { phase = closed })

  pub data Reach : Watch → Type 0 where
    here : Reach idle
    next : {s t : Watch} → Reach s → Step s t → Reach t
