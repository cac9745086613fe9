-- ===== src/Watcher/Laws.antt =====
-- At most one goroutine waits for a path, and what is sent was seen stable.
use avella.Common.{
  ◌≡◌, ◌≢◌, refl, ap, sym, subst, ◌∙◌, Bool, true, false, List, [], ◌∷◌, ◌++◌, Option, none, some,
  contains, arith, All, All-parts, All-join, ◌⊎◌, inl, inr,
}
use avella.Common.Text.{Text, text_eq}
use avella.Daemon.Reloader.{Event}
use avella.Go.{Std}
use avella.Stabilizer.{
  Poll, WaitResult, stable, cancelled, file_removed, stat_error, wait_stable, should_skip,
}
use avella.Watcher.{
  Turn, polling, offering, leaving, after_poll, turned, Wait, Watch, forget, on_create, finish,
  Step, event, watcher_error, receiver_comes, receiver_goes, looks, sends, drops, leaves, Reach,
  here, next, Phase, running, draining, closed, context_ends, context_seen, fsnotify_closed, closes,
  default_stable_checks,
}

abbrev pub Nodup : List Text → Type 0
Nodup [] = Unit
Nodup (p ∷ ps) = (contains ps p ≡ false) × Nodup ps

abbrev pub paths : List Wait → List Text
paths [] = []
paths (w ∷ ws) = w.path ∷ paths ws

forget_absent : (p : Text) (ps : List Text) → contains ps p ≡ false → forget p ps ≡ ps
unfolding forget
forget_absent p [] h = refl
forget_absent p (q ∷ ps) h = ground (arith, forget_absent p ps)

contains-forget :
    (p q : Text) (ps : List Text) → contains ps q ≡ false → contains (forget p ps) q ≡ false
unfolding forget
contains-forget p q [] h = refl
contains-forget p q (x ∷ ps) h = ground (arith, contains-forget p q ps)

forget-Nodup : (p : Text) (ps : List Text) → Nodup ps → Nodup (forget p ps)
unfolding forget
forget-Nodup p [] n = tt
forget-Nodup p (q ∷ ps) n = ground (arith, contains-forget p q ps n.0, forget-Nodup p ps n.1)

contains-paths :
    (before after : List Wait) (w : Wait) → contains (paths (before ++ w ∷ after)) w.path ≡ true
contains-paths [] after w = ground arith
contains-paths (v ∷ before) after w = ground (arith, contains-paths before after w)

-- Without duplicates, forgetting a goroutine's path removes that goroutine's entry and no other.
forget-paths :
    (before after : List Wait) (w : Wait)
    → Nodup (paths (before ++ w ∷ after))
    → forget w.path (paths (before ++ w ∷ after)) ≡ paths (before ++ after)
unfolding forget
forget-paths [] after w n = ground (arith, forget_absent w.path (paths after) n.0)
forget-paths (v ∷ before) after w n =
    ground (arith, forget-paths before after w n.1, contains-paths before after w, n.0)

-- A goroutine goes on: the paths stay.
paths_turned :
    (before after : List Wait) (path : Text) (a b : Turn)
    → paths (before ++ record { path = path; turn = a } ∷ after)
      ≡ paths (before ++ record { path = path; turn = b } ∷ after)
paths_turned [] after path a b = refl
paths_turned (v ∷ before) after path a b =
    ap (λ ps. v.path ∷ ps) (paths_turned before after path a b)

pub some_wait : (before after : List Wait) (w : Wait) → before ++ w ∷ after ≢ []
some_wait [] after w e = cc e
some_wait (v ∷ before) after w e = cc e

module _ (std : Std) where
  -- The path is no temporary file, and WaitStable returned nil after the polls.
  abbrev pub IsReady : Text × List Poll → Type 0
  IsReady (path, polls) =
      (should_skip std path ≡ false) × (wait_stable default_stable_checks polls ≡ some stable)

  -- WaitStable goes on after the polls of a goroutine that is in it, and returned nil after those
  -- of one that is in its select.
  abbrev pub IsPolled : Turn → Type 0
  IsPolled (polling made) = wait_stable default_stable_checks made ≡ none
  IsPolled (offering made) = wait_stable default_stable_checks made ≡ some stable
  IsPolled leaving = Unit

  pub record IsSound (w : Wait) : Type 0 where
    pub kept : should_skip std w.path ≡ false
    pub polled : IsPolled w.turn

  after_poll-IsPolled :
      (made : List Poll) (o : Option WaitResult)
      → wait_stable default_stable_checks made ≡ o
      → IsPolled (after_poll made o)
  after_poll-IsPolled made none e = e
  after_poll-IsPolled made (some stable) e = e
  after_poll-IsPolled made (some cancelled) e = tt
  after_poll-IsPolled made (some file_removed) e = tt
  after_poll-IsPolled made (some stat_error) e = tt

  -- `pending` holds the paths of the goroutines that run, each once.
  pub record IsConsistent (s : Watch) : Type 0 where
    pub tracked : s.pending ≡ paths s.waits
    pub nodup : Nodup (paths s.waits)
    pub sound : All IsSound s.waits
    pub sent_ready : All IsReady s.sent
    pub ended : s.phase ≡ closed → s.waits ≡ []

  -- A new goroutine runs only for a path that has none.
  on_create-cases :
      (e : Event) (ignored : Bool) (s : Watch)
      → (on_create std e ignored s ≡ s)
        ⊎ ((should_skip std e.name ≡ false)
            × (contains s.pending e.name ≡ false)
            × (on_create std e ignored s ≡ record s {
              pending = e.name ∷ s.pending;
              waits = record { path = e.name; turn = polling [] } ∷ s.waits;
            }))
  unfolding on_create
  on_create-cases e ignored s = ground arith

  on_create-IsConsistent :
      (e : Event) (ignored : Bool) (s : Watch)
      → s.phase ≡ running
      → IsConsistent s
      → IsConsistent (on_create std e ignored s)
  unfolding wait_stable
  on_create-IsConsistent e ignored s runs c = elim (on_create-cases e ignored s) [
    | inl same ↦ rw same c
    | inr (kept, fresh, made) ↦ rw made (record {
      tracked = ap (λ ps. e.name ∷ ps) c.tracked;
      nodup = (ap (λ ps. contains ps e.name) (sym c.tracked) ∙ fresh, c.nodup);
      sound = (record { kept = kept; polled = refl }, c.sound);
      sent_ready = c.sent_ready;
      ended = λ shut. absurd cc;
    })
  ]

  finish-IsConsistent :
      (path : Text) (before after : List Wait) (turn : Turn) (s : Watch)
      → s.waits ≡ before ++ record { path = path; turn = turn } ∷ after
      → IsConsistent s
      → IsConsistent (finish std path before after s)
  unfolding finish
  finish-IsConsistent path before after turn s e c =
      let w : Wait = record { path = path; turn = turn } in
      let removed = forget-paths before after w (rw e at c.nodup) in
      record {
        tracked = ap (forget path) (c.tracked ∙ ap paths e) ∙ removed;
        nodup =
            subst Nodup removed (forget-Nodup path (paths (before ++ w ∷ after)) (rw e at c.nodup));
        sound = (All-parts IsSound before after w (rw e at c.sound)).1;
        sent_ready = c.sent_ready;
        ended = λ shut. absurd (some_wait before after w (sym e ∙ c.ended shut));
      }

  turned-IsConsistent :
      (path : Text) (before after : List Wait) (old new : Turn) (s : Watch)
      → s.waits ≡ before ++ record { path = path; turn = old } ∷ after
      → IsPolled new
      → IsConsistent s
      → IsConsistent (turned path new before after s)
  turned-IsConsistent path before after old new s e polled c =
      let same = paths_turned before after path old new in
      let (was, rest) =
        All-parts IsSound before after (record { path = path; turn = old }) (rw e at c.sound) in
      record {
        tracked = c.tracked ∙ ap paths e ∙ same;
        nodup = subst Nodup same (rw e at c.nodup);
        sound =
            All-join IsSound before after (record { path = path; turn = new })
              (record { kept = was.kept; polled = polled }) rest;
        sent_ready = c.sent_ready;
        ended = λ shut.
            absurd
              (some_wait before after (record { path = path; turn = old }) (sym e ∙ c.ended shut));
      }

  -- A send, whether or not the receiver comes back.
  pub sent-IsConsistent :
      (path : Text) (before after : List Wait) (made : List Poll) (receiving : Bool) (s : Watch)
      → s.waits ≡ before ++ record { path = path; turn = offering made } ∷ after
      → IsConsistent s
      → IsConsistent (record (turned path leaving before after s) {
        receiving = receiving;
        sent = (path, made) ∷ s.sent;
      })
  sent-IsConsistent path before after made receiving s e c =
      let rest = turned-IsConsistent path before after (offering made) leaving s e tt c in
      let w : Wait = record { path = path; turn = offering made } in
      let sound = (All-parts IsSound before after w (rw e at c.sound)).0 in
      record {
        tracked = rest.tracked;
        nodup = rest.nodup;
        sound = rest.sound;
        sent_ready = ((sound.kept, sound.polled), rest.sent_ready);
        ended = rest.ended;
      }

  -- Only the receiver moves.
  pub received-IsConsistent :
      (receiving : Bool) (s : Watch)
      → IsConsistent s
      → IsConsistent (record s { receiving = receiving })
  received-IsConsistent receiving s c = record {
    tracked = c.tracked;
    nodup = c.nodup;
    sound = c.sound;
    sent_ready = c.sent_ready;
    ended = c.ended;
  }

  -- The loop's end and the context's change no goroutine.
  shut_down-IsConsistent :
      (s : Watch) (phase : Phase) (done : Bool)
      → (phase ≡ closed → s.waits ≡ [])
      → IsConsistent s
      → IsConsistent (record s { phase = phase; done = done })
  shut_down-IsConsistent s phase done ended c = record {
    tracked = c.tracked;
    nodup = c.nodup;
    sound = c.sound;
    sent_ready = c.sent_ready;
    ended = ended;
  }

  pub Step-IsConsistent : {s t : Watch} → Step std s t → IsConsistent s → IsConsistent t
  unfolding finish
  Step-IsConsistent (event e ignored s runs) c = on_create-IsConsistent e ignored s runs c
  Step-IsConsistent (watcher_error s runs) c = c
  Step-IsConsistent (context_ends s going) c = shut_down-IsConsistent s s.phase true c.ended c
  Step-IsConsistent (context_seen s runs stopped) c =
      shut_down-IsConsistent s draining s.done (λ e. absurd (cc e)) c
  Step-IsConsistent (fsnotify_closed s runs) c =
      shut_down-IsConsistent s draining s.done (λ e. absurd (cc e)) c
  Step-IsConsistent (closes s drains none_left) c =
      shut_down-IsConsistent s closed s.done (λ _. none_left) c
  Step-IsConsistent (receiver_comes s away) c = received-IsConsistent true s c
  Step-IsConsistent (receiver_goes s there) c = received-IsConsistent false s c
  Step-IsConsistent (looks p path before after made s e context cut) c =
      turned-IsConsistent path before after (polling made) _ s e
        (after_poll-IsPolled (made ++ p ∷ []) _ refl) c
  Step-IsConsistent (sends path before after made s e there) c =
      sent-IsConsistent path before after made false s e c
  Step-IsConsistent (drops path before after made s e stopped) c =
      turned-IsConsistent path before after (offering made) leaving s e tt c
  Step-IsConsistent (leaves path before after s e) c =
      finish-IsConsistent path before after leaving s e c

  -- In every state that the watcher reaches, the pending paths are those of the running goroutines,
  -- each path has one goroutine at most, and every path sent is no temporary file and was sent
  -- after polls on which WaitStable returns nil. Once the channel is closed no goroutine runs.
  pub Reach-IsConsistent : {s : Watch} → Reach std s → IsConsistent s
  Reach-IsConsistent here = record {
    tracked = refl;
    nodup = tt;
    sound = tt;
    sent_ready = tt;
    ended = λ e. absurd (cc e);
  }
  Reach-IsConsistent (next r st) = Step-IsConsistent st (Reach-IsConsistent r)
