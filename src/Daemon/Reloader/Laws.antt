-- ===== src/Daemon/Reloader/Laws.antt =====
-- What the debouncing loop guarantees, and what it does not.
use avella.Common.{
  suc, ◌≤◌, ◌≡◌, ◌≢◌, refl, ◌⊎◌, inl, inr, true, false, ◌||◌, none, some, arith, ap,
}
use avella.Common.Text.{Text, text_eq}
use avella.Daemon.Reloader.{
  running, Reloader, start, Event, schedule_reload, on_event, on_timer, Step, event, watcher_error,
  expire, receive, Reach, here, next,
}
use avella.Go.FilePath.{base}

-- The three phases of a daemon's life: no event yet, a first reload due, that reload done.
abbrev IsPhased : Reloader → Type 0
IsPhased s =
    ((s.timer ≡ none) × (s.listening ≡ false) × (s.reloads ≡ 0))
    ⊎ (((s.timer ≢ none) × (s.listening ≡ true) × (s.reloads ≡ 0))
        ⊎ ((s.timer ≢ none) × (s.listening ≡ false) × (s.reloads ≡ 1)))

schedule_reload-IsPhased : (s : Reloader) → IsPhased s → IsPhased (schedule_reload s)
unfolding schedule_reload
schedule_reload-IsPhased s p = ground arith

on_event-cases :
    (watched : Text) (e : Event) (s : Reloader)
    → (on_event watched e s ≡ s) ⊎ (on_event watched e s ≡ schedule_reload s)
unfolding on_event
on_event-cases watched e s = ground arith

Step-IsPhased : (watched : Text) {s t : Reloader} → Step watched s t → IsPhased s → IsPhased t
unfolding on_timer
Step-IsPhased watched (event e s) p = elim (on_event-cases watched e s) [
  | inl same ↦ rw same p
  | inr scheduled ↦ rw scheduled (schedule_reload-IsPhased s p)
]
Step-IsPhased watched (watcher_error s) p = p
Step-IsPhased watched (expire s r) p = ground arith
Step-IsPhased watched (receive s l r) p = ground arith

Reach-IsPhased : (watched : Text) {s : Reloader} → Reach watched start s → IsPhased s
Reach-IsPhased watched here = inl (refl, refl, refl)
Reach-IsPhased watched (next r st) = Step-IsPhased watched st (Reach-IsPhased watched r)

-- However often the file changes, a daemon reloads its configuration at most once: the first
-- reload sets the channel to nil, and only the creation of the timer sets it again.
pub reloads-le-one : (watched : Text) (s : Reloader) → Reach watched start s → s.reloads ≤ 1
reloads-le-one watched s r = ground (arith, Reach-IsPhased watched r)

abbrev pub Relevant : Text → Event → Type 0
Relevant watched e =
    (base e.name ≡ watched) × ((e.op.write || e.op.create || e.op.rename || e.op.chmod) ≡ true)

on_event-Relevant :
    (watched : Text) (e : Event) (s : Reloader)
    → Relevant watched e
    → on_event watched e s ≡ schedule_reload s
unfolding on_event
on_event-Relevant watched e s rel = ground arith

schedule_reload-timer : (s : Reloader) → (schedule_reload s).timer ≡ some running
unfolding schedule_reload
schedule_reload-timer s = ground arith

schedule_reload-listening :
    (s : Reloader)
    → IsPhased s
    → s.reloads ≡ 0
    → ((schedule_reload s).listening ≡ true) × ((schedule_reload s).reloads ≡ 0)
unfolding schedule_reload
schedule_reload-listening s p z = ground arith

reload_due :
    (watched : Text) (t : Reloader)
    → t.timer ≡ some running
    → t.listening ≡ true
    → t.reloads ≡ 0
    → (u : Reloader) × Reach watched t u × (u.reloads ≡ 1)
unfolding on_timer
reload_due watched t runs listening z =
    (_, next (next here (expire t runs)) (receive _ listening refl), ap suc z)

-- As long as no reload was done, one can follow every relevant event of the file: with nothing but
-- the timer running out and being received from, the count reaches 1.
first_reload :
    (watched : Text) (s : Reloader) (e : Event)
    → Reach watched start s
    → s.reloads ≡ 0
    → Relevant watched e
    → (u : Reloader) × Reach watched (on_event watched e s) u × (u.reloads ≡ 1)
first_reload watched s e r z rel =
    let (listening, none_yet) = schedule_reload-listening s (Reach-IsPhased watched r) z in
    rw (on_event-Relevant watched e s rel)
      (reload_due watched (schedule_reload s) (schedule_reload-timer s) listening none_yet)
