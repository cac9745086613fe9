-- ===== src/Ui/Threads/Laws.antt =====
-- Every accepted connection is either a client or closed, whatever the goroutines do.
use avella.Common.{
  contains-append, ℕ, ◌≡◌, refl, ap, ◌∙◌, Bool, true, false, not, ◌||◌, List, [], ◌∷◌, ◌++◌,
  contains, nat_eq, ◌==◌, All, All-parts, All-join, arith,
}
use avella.Ui.{
  State, RuleInfo, set_rules, SocketUi, Message, state, hello, remove_client, drop_failed, cleanup,
  close_all,
}
use avella.Ui.Clients.{contains-remove_client, contains-drop_failed}
use avella.Ui.Threads.{
  Author, Update, sets_rules, Broadcast, Threads, begin, write_line, end_broadcast, accept, remove,
  close, greet, Step, begins, writes, ends, accepts, reads_state, greets, disconnects, closes,
  cleans, Reach, here, next,
}

closed-drop_failed :
    (c : ℕ) (failed : List ℕ) (u : SocketUi)
    → contains (drop_failed failed u).closed c ≡ (contains failed c || contains u.closed c)
unfolding drop_failed
closed-drop_failed c [] u = refl
closed-drop_failed c (d ∷ failed) u = ground (
  arith,
  closed-drop_failed c failed
      (record u { clients = remove_client d u.clients; closed = d ∷ u.closed }),
)

contains-close_all :
    (c : ℕ) (cs closed : List ℕ)
    → contains (close_all cs closed) c ≡ (contains cs c || contains closed c)
unfolding close_all
contains-close_all c [] closed = refl
contains-close_all c (d ∷ cs) closed = ground (arith, contains-close_all c cs (d ∷ closed))

module _ (c : ℕ) where
  -- A call that will write to the connection, or drop it, is about one that was accepted.
  abbrev pub mentions : Broadcast → Bool
  mentions b = contains b.todo c || contains b.failed c

  pub record IsAccounted (s : Threads) : Type 0 where
    pub once :
        contains s.accepted c ≡ true
        → contains s.ui.clients c ≡ not (contains s.ui.closed c || contains s.closing c)
    pub fresh :
        contains s.accepted c ≡ false
        → (contains s.ui.clients c ≡ false)
          × (contains s.ui.closed c ≡ false)
          × All (λ b. mentions b ≡ false) s.broadcasts
          × All (λ g. (c == g.0) ≡ false) s.greetings
    pub not_closing : contains s.accepted c ≡ false → contains s.closing c ≡ false

  remove-IsAccounted :
      (d : ℕ) (s : Threads)
      → (contains s.accepted c ≡ false → (c == d) ≡ false)
      → IsAccounted s
      → IsAccounted (remove d s)
  unfolding remove
  remove-IsAccounted d s other i = record {
    once = λ known. ground (arith, contains-remove_client c d s.ui.clients, i.once known);
    fresh = λ new.
        let (clients, closed, quiet, rest) = i.fresh new in
        (ground (arith, contains-remove_client c d s.ui.clients, clients), closed, quiet, rest);
    not_closing = λ new. ground (arith, other new, i.not_closing new);
  }

  contains-middle :
      (d : ℕ) (before after : List ℕ)
      → contains (before ++ d ∷ after) c ≡ ((c == d) || contains (before ++ after) c)
  contains-middle d [] after = ground arith
  contains-middle d (x ∷ before) after = ground (arith, contains-middle d before after)

  close-IsAccounted :
      (d : ℕ) (before after : List ℕ) (s : Threads)
      → s.closing ≡ before ++ d ∷ after
      → IsAccounted s
      → IsAccounted (close d (before ++ after) s)
  unfolding close
  close-IsAccounted d before after s e i =
      let parts = ap (λ ds. contains ds c) e ∙ contains-middle d before after in
      record {
        once = λ known. ground (arith, parts, i.once known);
        fresh = λ new.
            let (clients, closed, quiet, rest) = i.fresh new in
            (clients, ground (arith, parts, i.not_closing new, closed), quiet, rest);
        not_closing = λ new. ground (arith, parts, i.not_closing new);
      }

  begin-IsAccounted :
      (a : Author) (k : Update) (s : Threads) → IsAccounted s → IsAccounted (begin a k s)
  unfolding begin
  begin-IsAccounted a k s i = record {
    once = i.once;
    fresh = λ new.
        let (clients, closed, quiet, rest) = i.fresh new in
        (clients, closed, (ground (arith, clients), quiet), rest);
    not_closing = i.not_closing;
  }

  write_line-IsAccounted :
      (good : Bool) (a : Author) (line : State) (d : ℕ) (todo failed : List ℕ)
      (before after : List Broadcast) (s : Threads)
      → s.broadcasts
        ≡ before ++ record { author = a; line = line; todo = d ∷ todo; failed = failed } ∷ after
      → IsAccounted s
      → IsAccounted (write_line good a line d todo failed before after s)
  unfolding write_line
  write_line-IsAccounted good a line d todo failed before after s e i = record {
    once = i.once;
    fresh = λ new.
        let (clients, closed, quiet, rest) = i.fresh new in
        let b : Broadcast = record { author = a; line = line; todo = d ∷ todo; failed = failed } in
        let (silent, others) = All-parts (λ b. mentions b ≡ false) before after b (rw e at quiet) in
        (
          clients,
          closed,
          All-join (λ b. mentions b ≡ false) before after _
              (ground (arith, silent, contains-append failed (d ∷ []) c)) others,
          rest,
        );
    not_closing = i.not_closing;
  }

  end_broadcast-IsAccounted :
      (a : Author) (line : State) (failed : List ℕ) (before after : List Broadcast) (s : Threads)
      → s.broadcasts
        ≡ before ++ record { author = a; line = line; todo = []; failed = failed } ∷ after
      → IsAccounted s
      → IsAccounted (end_broadcast failed before after s)
  unfolding end_broadcast
  end_broadcast-IsAccounted a line failed before after s e i = record {
    once = λ known.
        ground (
          arith,
          contains-drop_failed c failed s.ui,
          closed-drop_failed c failed s.ui,
          i.once known,
        );
    fresh = λ new.
        let (clients, closed, quiet, rest) = i.fresh new in
        let b : Broadcast = record { author = a; line = line; todo = []; failed = failed } in
        let (silent, others) = All-parts (λ b. mentions b ≡ false) before after b (rw e at quiet) in
        (
          ground (arith, contains-drop_failed c failed s.ui, clients),
          ground (arith, closed-drop_failed c failed s.ui, closed, silent),
          others,
          rest,
        );
    not_closing = i.not_closing;
  }

  accept-IsAccounted :
      (d : ℕ) (s : Threads)
      → contains s.accepted d ≡ false
      → IsAccounted s
      → IsAccounted (accept d s)
  unfolding accept
  accept-IsAccounted d s unknown i = record {
    once = λ known. ground (arith, unknown, i.once, i.fresh, i.not_closing);
    fresh = λ new.
        let (clients, closed, quiet, rest) = i.fresh (ground arith) in
        (ground (arith, clients), closed, quiet, rest);
    not_closing = λ new. i.not_closing (ground arith);
  }

  -- A greeting of another connection ends; the lines do not matter.
  greeted-IsAccounted :
      (sent : List (ℕ × Message)) (d : ℕ) (st : State) (before after : List (ℕ × State))
      (s : Threads)
      → s.greetings ≡ before ++ (d, st) ∷ after
      → IsAccounted s
      → (contains s.accepted c ≡ false → (c == d) ≡ false)
        × IsAccounted (record s { ui = record (s.ui) { sent = sent }; greetings = before ++ after })
  greeted-IsAccounted sent d st before after s e i =
      let parts = λ (new : contains s.accepted c ≡ false).
        All-parts (λ g. (c == g.0) ≡ false) before after (d, st) (rw e at (i.fresh new).3) in
      (
        λ new. (parts new).0,
        record {
          once = i.once;
          fresh = λ new.
              let (clients, closed, quiet, rest) = i.fresh new in
              (clients, closed, quiet, (parts new).1);
          not_closing = i.not_closing;
        },
      )

  greet-IsAccounted :
      (hello_written state_written : Bool) (d : ℕ) (st : State) (before after : List (ℕ × State))
      (s : Threads)
      → s.greetings ≡ before ++ (d, st) ∷ after
      → IsAccounted s
      → IsAccounted
          (greet hello_written state_written d st (record s { greetings = before ++ after }))
  unfolding greet
  greet-IsAccounted true true d st before after s e i =
      (greeted-IsAccounted ((d, state st) ∷ (d, hello) ∷ s.ui.sent) d st before after s e i).1
  greet-IsAccounted true false d st before after s e i =
      let (other, kept) = greeted-IsAccounted ((d, hello) ∷ s.ui.sent) d st before after s e i in
      remove-IsAccounted d _ other kept
  greet-IsAccounted false w d st before after s e i =
      let (other, kept) = greeted-IsAccounted s.ui.sent d st before after s e i in
      remove-IsAccounted d _ other kept

  cleanup-IsAccounted : (s : Threads) → IsAccounted s → IsAccounted (record s { ui = cleanup s.ui })
  unfolding cleanup
  cleanup-IsAccounted s i = record {
    once = λ known. ground (arith, contains-close_all c s.ui.clients s.ui.closed, i.once known);
    fresh = λ new.
        let (clients, closed, quiet, rest) = i.fresh new in
        (
          refl,
          ground (arith, contains-close_all c s.ui.clients s.ui.closed, clients, closed),
          quiet,
          rest,
        );
    not_closing = i.not_closing;
  }

  rules-IsAccounted :
      (rules : List RuleInfo) (s : Threads)
      → IsAccounted s
      → IsAccounted (record s { ui = set_rules rules s.ui })
  unfolding set_rules
  rules-IsAccounted rules s i = record {
    once = i.once;
    fresh = i.fresh;
    not_closing = i.not_closing;
  }

  Step-IsAccounted : {s t : Threads} → Step s t → IsAccounted s → IsAccounted t
  Step-IsAccounted (begins a k s makes there free) i = begin-IsAccounted a k s i
  Step-IsAccounted (sets_rules rules s) i = rules-IsAccounted rules s i
  Step-IsAccounted (writes good a line d todo failed before after s e) i =
      write_line-IsAccounted good a line d todo failed before after s e i
  Step-IsAccounted (ends a line failed before after s e) i =
      end_broadcast-IsAccounted a line failed before after s e i
  Step-IsAccounted (accepts d s unknown) i = accept-IsAccounted d s unknown i
  Step-IsAccounted (reads_state d s known) i = record {
    once = i.once;
    fresh = λ new.
        let (clients, closed, quiet, rest) = i.fresh new in
        (clients, closed, quiet, (ground (arith, known, new), rest));
    not_closing = i.not_closing;
  }
  Step-IsAccounted (greets hello_written state_written d st before after s e) i =
      greet-IsAccounted hello_written state_written d st before after s e i
  Step-IsAccounted (disconnects d s known free) i =
      remove-IsAccounted d s (λ new. ground (arith, known, new)) i
  Step-IsAccounted (closes d before after s e) i = close-IsAccounted d before after s e i
  Step-IsAccounted (cleans s) i = cleanup-IsAccounted s i

-- Whatever the goroutines do, and in whatever order: each connection that was accepted is either a
-- client, or closed or removed by a goroutine that is about to close it, and never a client and one
-- of these; and no connection is a client, or closed, or about to be closed, or written to by a
-- broadcast or a greeting that goes on, unless it was accepted.
pub Reach-IsAccounted : {s : Threads} → Reach s → (c : ℕ) → IsAccounted c s
Reach-IsAccounted here c = record {
  once = λ h. absurd (cc h);
  fresh = λ new. (refl, refl, tt, tt);
  not_closing = λ new. refl;
}
Reach-IsAccounted (next r st) c = Step-IsAccounted c st (Reach-IsAccounted r c)
