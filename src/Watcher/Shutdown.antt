-- ===== src/Watcher/Shutdown.antt =====
-- How the watcher ends: its goroutines first, then the channel.
use avella.Common.{
  ℕ, zero, suc, ◌+◌, ◌≤◌, ◌≡◌, ◌≢◌, refl, sym, ap, ◌∙◌, true, false, List, [], ◌∷◌, ◌++◌, none,
  some, err, arith, ◌⊎◌, inl, inr, ◌==◌, Bool-cases, Result-cases, All-parts,
}
use avella.Common.Int.{ℤ, negsuc, int_eq}
use avella.Common.Text.{Text}
use avella.Go.{Std}
use avella.Go.Os.{os_failure}
use avella.Stabilizer.{Poll, cancelled, at_least_one, wait_loop, wait_stable}
use avella.Watcher.{
  Turn, polling, offering, leaving, after_poll, polled, Wait, Watch, finish, Step, event,
  watcher_error, context_ends, context_seen, fsnotify_closed, receiver_comes, receiver_goes, looks,
  sends, drops, leaves, closes, Reach, Phase, running, draining, closed, default_stable_checks,
}
use avella.Watcher.Laws.{IsSound, IsConsistent, Reach-IsConsistent, Step-IsConsistent, some_wait}

Phase-cases : (p : Phase) → (p ≡ running) ⊎ (p ≡ draining) ⊎ (p ≡ closed)
Phase-cases running = inl refl
Phase-cases draining = inr (inl refl)
Phase-cases closed = inr (inr refl)

-- A poll that finds the context done.
abbrev pub done_poll : Poll
done_poll = record { done = true; stat = err os_failure; interrupted = false }

-- A round that finds the context done ends WaitStable, whatever the rounds before it saw.
module _ (checks : ℕ) (p : Poll) (done : p.done ≡ true) where
  wait_loop-done :
      (last : ℤ) (count : ℕ) (made : List Poll)
      → wait_loop checks last count made ≡ none
      → wait_loop checks last count (made ++ p ∷ []) ≡ some cancelled
  unfolding wait_loop
  wait_loop-done last count [] e = rw done refl
  wait_loop-done last count (q ∷ made) e = elim (Bool-cases q.done) [
    | inl ended ↦ absurd (ground arith)
    | inr live ↦ elim (Result-cases q.stat) [
      | inr (x, failed) ↦ absurd (ground arith)
      | inl (info, there) ↦ elim (Bool-cases (info.size == last)) [
        | inl same ↦ ground (arith, wait_loop-done last (suc count) made)
        | inr differs ↦ ground (arith, wait_loop-done info.size 0 made)
      ]
    ]
  ]

wait_stable-done :
    (checks : ℤ) (p : Poll) (made : List Poll)
    → p.done ≡ true
    → wait_stable checks made ≡ none
    → wait_stable checks (made ++ p ∷ []) ≡ some cancelled
unfolding wait_stable
wait_stable-done checks p made done e =
    wait_loop-done (at_least_one checks) p done (negsuc 0) 0 made e

-- The turns that a goroutine has left once the context is done: one in WaitStable or in its select,
-- and its deferred function.
abbrev turns : Turn → ℕ
turns (polling made) = 2
turns (offering made) = 2
turns leaving = 1

abbrev pub work : List Wait → ℕ
work [] = 1
work (w ∷ ws) = turns w.turn + work ws

work-middle :
    (before after : List Wait) (w : Wait)
    → work (before ++ w ∷ after) ≡ turns w.turn + work (before ++ after)
work-middle [] after w = refl
work-middle (v ∷ before) after w = omega (arith, work-middle before after w)

module _ (std : Std) where
  -- The steps of whoever reads the channel.
  abbrev pub IsReceiver : {s t : Watch} → Step std s t → Type 0
  IsReceiver (event e ignored s runs) = ⊥
  IsReceiver (watcher_error s runs) = ⊥
  IsReceiver (context_ends s going) = ⊥
  IsReceiver (context_seen s runs stopped) = ⊥
  IsReceiver (fsnotify_closed s runs) = ⊥
  IsReceiver (receiver_comes s away) = Unit
  IsReceiver (receiver_goes s there) = Unit
  IsReceiver (looks p path before after made s e context cut) = ⊥
  IsReceiver (sends path before after made s e there) = ⊥
  IsReceiver (drops path before after made s e stopped) = ⊥
  IsReceiver (leaves path before after s e) = ⊥
  IsReceiver (closes s drains none_left) = ⊥

  -- The steps for which nobody has to receive: not the receiver's, and not the sends.
  abbrev pub IsAlone : {s t : Watch} → Step std s t → Type 0
  IsAlone (event e ignored s runs) = Unit
  IsAlone (watcher_error s runs) = Unit
  IsAlone (context_ends s going) = Unit
  IsAlone (context_seen s runs stopped) = Unit
  IsAlone (fsnotify_closed s runs) = Unit
  IsAlone (receiver_comes s away) = ⊥
  IsAlone (receiver_goes s there) = ⊥
  IsAlone (looks p path before after made s e context cut) = Unit
  IsAlone (sends path before after made s e there) = ⊥
  IsAlone (drops path before after made s e stopped) = Unit
  IsAlone (leaves path before after s e) = Unit
  IsAlone (closes s drains none_left) = Unit

  -- n steps from one state to another, with any number of the receiver's in between.
  pub data Run : ℕ → Watch → Watch → Type 0 where
    stays : (s : Watch) → Run zero s s
    goes :
        {n : ℕ} {s t u : Watch} (st : Step std s t) → ¬ IsReceiver st → Run n t u → Run (suc n) s u
    receives : {n : ℕ} {s t u : Watch} (st : Step std s t) → IsReceiver st → Run n t u → Run n s u

  -- The steps that are left once the loop has returned and the context is done.
  abbrev pub left : Phase → List Wait → ℕ
  left closed waits = 0
  left draining waits = work waits
  left running waits = work waits

  -- The loop has returned, and the context is done.
  pub record IsEnding (s : Watch) : Type 0 where
    pub consistent : IsConsistent std s
    pub returned : s.phase ≢ running
    pub stopped : s.done ≡ true

  goroutine-draining :
      (before after : List Wait) (w : Wait) (s : Watch)
      → IsEnding s
      → s.waits ≡ before ++ w ∷ after
      → s.phase ≡ draining
  goroutine-draining before after w s i e = elim (Phase-cases s.phase) [
    | inl runs ↦ absurd (i.returned runs)
    | inr (inl drains) ↦ drains
    | inr (inr shut) ↦ absurd (some_wait before after w (sym e ∙ i.consistent.ended shut))
  ]

  turned_left :
      (path : Text) (before after : List Wait) (old new : Turn) (s : Watch)
      → IsEnding s
      → s.waits ≡ before ++ record { path = path; turn = old } ∷ after
      → suc (turns new) ≤ turns old
      → suc (left s.phase (before ++ record { path = path; turn = new } ∷ after))
        ≤ left s.phase s.waits
  turned_left path before after old new s i e fewer =
      let w : Wait = record { path = path; turn = old } in
      let v : Wait = record { path = path; turn = new } in
      rw (goroutine-draining before after w s i e, e)
        (omega (arith, work-middle before after w, work-middle before after v, fewer))

  -- The poll of a goroutine whose context is done.
  last_look :
      (p : Poll) (path : Text) (before after : List Wait) (made : List Poll) (s : Watch)
      → IsEnding s
      → s.waits ≡ before ++ record { path = path; turn = polling made } ∷ after
      → p.done ≡ s.done
      → polled (made ++ p ∷ []) ≡ leaving
  last_look p path before after made s i e context =
      let waiting : Wait = record { path = path; turn = polling made } in
      let sound = (All-parts (IsSound std) before after waiting (rw e at i.consistent.sound)).0 in
      ap (after_poll (made ++ p ∷ []))
        (wait_stable-done default_stable_checks p made (context ∙ i.stopped) sound.polled)

  Step-left :
      {s t : Watch} (st : Step std s t)
      → ¬ IsReceiver st
      → IsEnding s
      → suc (left t.phase t.waits) ≤ left s.phase s.waits
  unfolding finish
  Step-left (event e ignored s runs) own i = absurd (i.returned runs)
  Step-left (watcher_error s runs) own i = absurd (i.returned runs)
  Step-left (context_ends s going) own i = absurd (cc (going, i.stopped))
  Step-left (context_seen s runs stopped) own i = absurd (i.returned runs)
  Step-left (fsnotify_closed s runs) own i = absurd (i.returned runs)
  Step-left (receiver_comes s away) own i = absurd (own tt)
  Step-left (receiver_goes s there) own i = absurd (own tt)
  Step-left (looks p path before after made s e context cut) own i =
      turned_left path before after (polling made) (polled (made ++ p ∷ [])) s i e
        (rw (last_look p path before after made s i e context) (omega arith))
  Step-left (sends path before after made s e there) own i =
      turned_left path before after (offering made) leaving s i e (omega arith)
  Step-left (drops path before after made s e stopped) own i =
      turned_left path before after (offering made) leaving s i e (omega arith)
  Step-left (leaves path before after s e) own i =
      let w : Wait = record { path = path; turn = leaving } in
      rw (goroutine-draining before after w s i e, e) (omega (arith, work-middle before after w))
  Step-left (closes s drains none_left) own i = rw (drains, none_left) (omega arith)

  -- The receiver's steps change nothing of the goroutines.
  receiver_left :
      {s t : Watch} (st : Step std s t)
      → IsReceiver st
      → left t.phase t.waits ≡ left s.phase s.waits
  receiver_left (event e ignored s runs) r = absurd r
  receiver_left (watcher_error s runs) r = absurd r
  receiver_left (context_ends s going) r = absurd r
  receiver_left (context_seen s runs stopped) r = absurd r
  receiver_left (fsnotify_closed s runs) r = absurd r
  receiver_left (receiver_comes s away) r = refl
  receiver_left (receiver_goes s there) r = refl
  receiver_left (looks p path before after made s e context cut) r = absurd r
  receiver_left (sends path before after made s e there) r = absurd r
  receiver_left (drops path before after made s e stopped) r = absurd r
  receiver_left (leaves path before after s e) r = absurd r
  receiver_left (closes s drains none_left) r = absurd r

  Step-over : {s t : Watch} → Step std s t → IsEnding s → (t.phase ≢ running) × (t.done ≡ true)
  unfolding finish
  Step-over (event e ignored s runs) i = absurd (i.returned runs)
  Step-over (watcher_error s runs) i = (i.returned, i.stopped)
  Step-over (context_ends s going) i = (i.returned, refl)
  Step-over (context_seen s runs stopped) i = absurd (i.returned runs)
  Step-over (fsnotify_closed s runs) i = absurd (i.returned runs)
  Step-over (receiver_comes s away) i = (i.returned, i.stopped)
  Step-over (receiver_goes s there) i = (i.returned, i.stopped)
  Step-over (looks p path before after made s e context cut) i = (i.returned, i.stopped)
  Step-over (sends path before after made s e there) i = (i.returned, i.stopped)
  Step-over (drops path before after made s e stopped) i = (i.returned, i.stopped)
  Step-over (leaves path before after s e) i = (i.returned, i.stopped)
  Step-over (closes s drains none_left) i = (λ runs. absurd (cc runs), i.stopped)

  Step-IsEnding : {s t : Watch} → Step std s t → IsEnding s → IsEnding t
  Step-IsEnding {s} {t} st i =
      let (returned, stopped) = Step-over st i in
      record {
        consistent = Step-IsConsistent std st i.consistent;
        returned = returned;
        stopped = stopped;
      }

  Run-left :
      {n : ℕ} {s t : Watch} → Run n s t → IsEnding s → (n ≤ left s.phase s.waits) × IsEnding t
  Run-left (stays s) i = (omega arith, i)
  Run-left (goes st own run) i =
      let (few, ending) = Run-left run (Step-IsEnding st i) in
      (omega (arith, few, Step-left st own i), ending)
  Run-left (receives st r run) i =
      let (few, ending) = Run-left run (Step-IsEnding st i) in
      (rw (receiver_left st r) at few, ending)

  -- The next step of a goroutine whose context is done, which nobody has to receive from.
  some_turn :
      (path : Text) (turn : Turn) (waits : List Wait) (s : Watch)
      → s.waits ≡ record { path = path; turn = turn } ∷ waits
      → s.done ≡ true
      → (t : Watch) × (st : Step std s t) × IsAlone st
  some_turn path (polling made) waits s e stopped =
      (_, looks done_poll path [] waits made s e (sym stopped) (λ h. stopped), tt)
  some_turn path (offering made) waits s e stopped = (_, drops path [] waits made s e stopped, tt)
  some_turn path leaving waits s e stopped = (_, leaves path [] waits s e, tt)

  some_step :
      (waits : List Wait) (s : Watch)
      → s.waits ≡ waits
      → s.phase ≡ draining
      → s.done ≡ true
      → (t : Watch) × (st : Step std s t) × IsAlone st
  some_step [] s e drains stopped = (_, closes s drains e, tt)
  some_step (w ∷ waits) s e drains stopped = some_turn w.path w.turn waits s e stopped

  can_go_on :
      (s : Watch)
      → IsEnding s
      → (s.phase ≡ closed) ⊎ ((t : Watch) × (st : Step std s t) × IsAlone st)
  can_go_on s i = elim (Phase-cases s.phase) [
    | inl runs ↦ absurd (i.returned runs)
    | inr (inl drains) ↦ inr (some_step s.waits s refl drains i.stopped)
    | inr (inr shut) ↦ inl shut
  ]

  -- Once the loop has returned and the context is done, the watcher comes to its end: it takes at
  -- most one step for the close and two for each goroutine that runs, in whatever order, and as long
  -- as the channel is not closed another step can be taken, even if nobody ever receives from the
  -- channel again. What the receiver does is not counted.
  pub shutdown_ends :
      {s t : Watch} {n : ℕ}
      → Reach std s
      → s.phase ≡ draining
      → s.done ≡ true
      → Run n s t
      → (n ≤ work s.waits) × ((t.phase ≡ closed) ⊎ ((u : Watch) × (st : Step std t u) × IsAlone st))
  shutdown_ends {s} {t} reached drains stopped run =
      let ending : IsEnding s = record {
        consistent = Reach-IsConsistent std reached;
        returned = λ runs. absurd (cc (drains, runs));
        stopped = stopped;
      } in
      let (few, last) = Run-left run ending in (rw drains at few, can_go_on t last)

  -- A step from a closed channel: the context may still end, and nothing else happens.
  closed_step :
      {s t : Watch}
      → Step std s t
      → IsConsistent std s
      → s.phase ≡ closed
      → (t.phase ≡ closed) × (t.sent ≡ s.sent)
  closed_step (event e ignored s runs) c shut = absurd (cc (runs, shut))
  closed_step (watcher_error s runs) c shut = (shut, refl)
  closed_step (context_ends s going) c shut = (shut, refl)
  closed_step (context_seen s runs stopped) c shut = absurd (cc (runs, shut))
  closed_step (fsnotify_closed s runs) c shut = absurd (cc (runs, shut))
  closed_step (receiver_comes s away) c shut = (shut, refl)
  closed_step (receiver_goes s there) c shut = (shut, refl)
  closed_step (looks p path before after made s e context cut) c shut =
      absurd (some_wait before after _ (sym e ∙ c.ended shut))
  closed_step (sends path before after made s e there) c shut =
      absurd (some_wait before after _ (sym e ∙ c.ended shut))
  closed_step (drops path before after made s e stopped) c shut =
      absurd (some_wait before after _ (sym e ∙ c.ended shut))
  closed_step (leaves path before after s e) c shut =
      absurd (some_wait before after _ (sym e ∙ c.ended shut))
  closed_step (closes s drains none_left) c shut = (refl, refl)

  closed-Run :
      {n : ℕ} {s t : Watch}
      → Run n s t
      → IsConsistent std s
      → s.phase ≡ closed
      → (t.phase ≡ closed) × (t.sent ≡ s.sent)
  closed-Run (stays s) c shut = (shut, refl)
  closed-Run (goes st own run) c shut =
      let (still, same) = closed_step st c shut in
      let (last, none_more) = closed-Run run (Step-IsConsistent std st c) still in
      (last, none_more ∙ same)
  closed-Run (receives st r run) c shut =
      let (still, same) = closed_step st c shut in
      let (last, none_more) = closed-Run run (Step-IsConsistent std st c) still in
      (last, none_more ∙ same)

  -- No goroutine sends on the closed channel, which would panic: once it is closed, nothing more is
  -- sent in any run, and it stays closed.
  pub sent-closed :
      {n : ℕ} {s t : Watch}
      → Reach std s
      → s.phase ≡ closed
      → Run n s t
      → (t.phase ≡ closed) × (t.sent ≡ s.sent)
  sent-closed reached shut run = closed-Run run (Reach-IsConsistent std reached) shut
