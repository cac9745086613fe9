-- ===== src/Tests/DaemonTests.antt =====
-- Tests of the reloader, the tracker and the stabilizer, and their theorems at short runs.
use avella.Common.{
  ℕ, ◌≡◌, ◌≤◌, ◌↔◌, refl, sym, ap, true, false, List, [], ◌∷◌, ◌++◌, some, ok, ok-injective,
  ℕ_discrete,
}
use avella.Common.Int.{pos, int_eq}
use avella.Common.Text.{str, text_eq}
use avella.Daemon.Reloader.{
  Reloader, start, running, Event, on_event, on_timer, event, expire, receive, Reach, here, next,
}
use avella.Daemon.Reloader.Laws.{reloads-le-one, Relevant}
use avella.Daemon.Tracker.{should_process, is_missing}
use avella.Daemon.Tracker.Laws.{Call, mark, prunes, after, latest, IsDue, should_process-after}
use avella.Go.FilePath.{base}
use avella.Go.Os.{FileInfo}
use avella.Stabilizer.{Poll, wait_stable, at_least_one, stable}
use avella.Stabilizer.Laws.{SizeIsNatural, Settles, wait_stable-sound}
use avella.Stabilizer.Liveness.{wait_stable_live}
use avella.Tests.{film, film_info, dir_info, disk}

abbrev written : Event
written = record {
  name = str "/etc/avella.toml";
  op = record { create = false; write = true; remove = false; rename = false; chmod = false };
}

written-Relevant : Relevant (str "avella.toml") written
unfolding base text_eq ℕ_discrete
written-Relevant = (refl, refl)

-- A write, its reload, and another write.
abbrev reloaded : Reloader
reloaded = record { timer = some running; listening = false; reloads = 1 }

reloaded-Reach : Reach (str "avella.toml") start reloaded
unfolding on_event on_timer base text_eq ℕ_discrete
reloaded-Reach =
    let due = next here (event written start) in
    let done = next (next due (expire _ refl)) (receive _ refl refl) in next done (event written _)

reloads-le-one_example : reloaded.reloads ≤ 1
reloads-le-one_example = reloads-le-one (str "avella.toml") reloaded reloaded-Reach

abbrev history : List Call
history = mark film film_info true ∷ prunes disk ∷ mark film dir_info false ∷ []

should_process-after_example :
    (should_process film film_info false (after history) ≡ true)
    ↔ IsDue (latest film history) film_info false
should_process-after_example = should_process-after history film film_info false

film_present : is_missing (disk film) ≡ false
unfolding text_eq ℕ_discrete
film_present = refl

abbrev saw : ℕ → Poll
saw size = record {
  done = false;
  stat = ok (record film_info { size = pos size });
  interrupted = false;
}

saw-SizeIsNatural : (size : ℕ) → SizeIsNatural (saw size)
saw-SizeIsNatural size info e = (size, ap (λ (i : FileInfo). i.size) (sym (ok-injective e)))

abbrev growing : List Poll
growing = saw 10 ∷ saw 20 ∷ saw 20 ∷ saw 20 ∷ []

growing_stable : wait_stable (pos 2) growing ≡ some stable
unfolding wait_stable int_eq ℕ_discrete
growing_stable = refl

wait_stable-sound_example : Settles (at_least_one (pos 2)) growing
wait_stable-sound_example =
    wait_stable-sound (pos 2) growing
      (
        saw-SizeIsNatural 10,
        (saw-SizeIsNatural 20, (saw-SizeIsNatural 20, (saw-SizeIsNatural 20, tt))),
      )
      growing_stable

wait_stable_live_example :
    wait_stable (pos 2) ((saw 10 ∷ []) ++ saw 20 ∷ saw 20 ∷ saw 20 ∷ []) ≡ some stable
unfolding at_least_one
wait_stable_live_example =
    wait_stable_live (pos 2) (saw 10 ∷ []) (saw 20 ∷ saw 20 ∷ saw 20 ∷ []) (pos 20)
      ((refl, refl, (_, refl)), tt)
      ((refl, refl, (_, refl)), ((refl, refl, (_, refl)), ((refl, refl, (_, refl)), tt)))
      ((refl, (_, refl, refl)), ((refl, (_, refl, refl)), ((refl, (_, refl, refl)), tt)))
