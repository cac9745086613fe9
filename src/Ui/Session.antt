-- ===== src/Ui/Session.antt =====
-- ui/socket.go: what a client's session asks of the daemon, and what it leaves.
use avella.Common.{
  ℕ, zero, suc, ◌≡◌, refl, ap, Bool, false, Bool-cases, not, List, [], ◌∷◌, Option, none, some,
  Option-cases, ◌⊎◌, inl, inr, contains, nat_eq, arith, is_empty, if◌then◌else◌, ◌==◌, ℕ_discrete,
  subst,
}
use avella.Common.Text.{Text, str, text_eq}
use avella.Ui.{
  State, SocketUi, Request, dry_toggled, open_file, cancels, toggle_dry_run, open_config, quit,
  unknown, answer, command, handle_command, Scanned, asked, handle_client, drop_client,
}
use avella.Ui.Clients.{contains-remove_client}
use avella.Ui.Recent.{broadcast-st}

abbrev heard : Option Text → List Text → List Text
heard none cmds = cmds
heard (some cmd) cmds = cmd ∷ cmds

-- The commands of the lines up to the one at which the context was done. A line that cannot be
-- decoded is passed over.
abbrev pub taken : List Scanned → List Text
taken [] = []
taken (l ∷ lines) = let rest = taken lines in if l.done then [] else heard l.decoded rest

abbrev pub times : Text → List Text → ℕ
times cmd [] = 0
times cmd (c ∷ cmds) = if c == cmd then suc (times cmd cmds) else times cmd cmds

-- n modes in turn, from the one that follows.
abbrev pub alternate : Bool → ℕ → List Bool
alternate mode zero = []
alternate mode (suc n) = not mode ∷ alternate (not mode) n

abbrev pub flipped : Bool → ℕ → Bool
flipped mode zero = mode
flipped mode (suc n) = flipped (not mode) n

abbrev pub copies : ℕ → Text → List Text
copies zero path = []
copies (suc n) path = path ∷ copies n path

-- The requests of each kind, in their order.
abbrev pub modes : List Request → List Bool
modes [] = []
modes (dry_toggled enabled ∷ rs) = enabled ∷ modes rs
modes (open_file path ∷ rs) = modes rs
modes (cancels ∷ rs) = modes rs

abbrev pub opened : List Request → List Text
opened [] = []
opened (dry_toggled enabled ∷ rs) = opened rs
opened (open_file path ∷ rs) = path ∷ opened rs
opened (cancels ∷ rs) = opened rs

abbrev pub cancelled : List Request → ℕ
cancelled [] = 0
cancelled (dry_toggled enabled ∷ rs) = cancelled rs
cancelled (open_file path ∷ rs) = cancelled rs
cancelled (cancels ∷ rs) = suc (cancelled rs)

-- What a session has done for the commands, with the mode and the path from its start.
pub record IsServed (c : ℕ) (mode : Bool) (path : Text) (cmds : List Text)
    (o : List Request × SocketUi) : Type 0 where
  pub told : modes o.0 ≡ alternate mode (times (str "toggle_dry_run") cmds)
  pub shown : o.1.st.dry_run ≡ flipped mode (times (str "toggle_dry_run") cmds)
  pub files :
      opened o.0 ≡ (if is_empty path then [] else copies (times (str "open_config") cmds) path)
  pub quits : cancelled o.0 ≡ times (str "quit") cmds
  pub gone : contains o.1.clients c ≡ false

-- The four kinds of commands.
command-cases :
    (cmd : Text)
    → ((cmd ≡ str "toggle_dry_run") × (command cmd ≡ toggle_dry_run))
      ⊎ ((cmd ≡ str "open_config") × (command cmd ≡ open_config))
      ⊎ ((cmd ≡ str "quit") × (command cmd ≡ quit))
      ⊎ ((command cmd ≡ unknown)
          × ((cmd == str "toggle_dry_run") ≡ false)
          × ((cmd == str "open_config") ≡ false)
          × ((cmd == str "quit") ≡ false))
unfolding command
command-cases cmd = elim (Bool-cases (cmd == str "toggle_dry_run")) [
  | inl t ↦ inl (ground arith, ground arith)
  | inr nt ↦ elim (Bool-cases (cmd == str "open_config")) [
    | inl o ↦ inr (inl (ground arith, ground arith))
    | inr nope ↦ elim (Bool-cases (cmd == str "quit")) [
      | inl q ↦ inr (inr (inl (ground arith, ground arith)))
      | inr nq ↦ inr (inr (inr (ground arith, nt, nope, nq)))
    ]
  ]
]

module _ (c : ℕ) (writes : ℕ → Bool) (cmds : List Text) where
  -- The session after its next command, from what the rest of it does.
  abbrev Rest : SocketUi → List Request × SocketUi → Type 0
  Rest u o = IsServed c u.st.dry_run u.st.config_path cmds o

  toggled-IsServed :
      (u : SocketUi) (o : List Request × SocketUi)
      → Rest (answer writes toggle_dry_run u).1 o
      → IsServed c u.st.dry_run u.st.config_path
          (str "toggle_dry_run" ∷ cmds)
          (dry_toggled (not u.st.dry_run) ∷ o.0, o.1)
  unfolding answer text_eq ℕ_discrete
  toggled-IsServed u o rest =
      let e =
        broadcast-st writes (record u { st = record (u.st) { dry_run = not u.st.dry_run } }) in
      let r = subst (λ (st : State). IsServed c st.dry_run st.config_path cmds o) e rest in
      record {
        told = ap (λ ms. not u.st.dry_run ∷ ms) r.told;
        shown = r.shown;
        files = r.files;
        quits = r.quits;
        gone = r.gone;
      }

  opened-IsServed :
      (u : SocketUi) (o : List Request × SocketUi)
      → Rest u o
      → IsServed c u.st.dry_run u.st.config_path
          (str "open_config" ∷ cmds)
          (asked (answer writes open_config u).0 o.0, o.1)
  unfolding answer text_eq ℕ_discrete
  opened-IsServed u o rest = elim (Bool-cases (is_empty u.st.config_path)) [
    | inl empty ↦
        let files : opened o.0 ≡ [] = rw empty at rest.files in
        rw empty (record {
          told = rest.told;
          shown = rest.shown;
          files = rw empty files;
          quits = rest.quits;
          gone = rest.gone;
        })
    | inr path ↦
        let files : opened o.0 ≡ copies (times (str "open_config") cmds) u.st.config_path =
          rw path at rest.files in
        rw path (record {
          told = rest.told;
          shown = rest.shown;
          files = rw path (ap (λ ps. u.st.config_path ∷ ps) files);
          quits = rest.quits;
          gone = rest.gone;
        })
  ]

  quit-IsServed :
      (u : SocketUi) (o : List Request × SocketUi)
      → Rest u o
      → IsServed c u.st.dry_run u.st.config_path (str "quit" ∷ cmds) (cancels ∷ o.0, o.1)
  unfolding text_eq ℕ_discrete
  quit-IsServed u o rest = record {
    told = rest.told;
    shown = rest.shown;
    files = rest.files;
    quits = ap suc rest.quits;
    gone = rest.gone;
  }

  answered-IsServed :
      (cmd : Text) (u : SocketUi) (o : List Request × SocketUi)
      → Rest (handle_command writes cmd u).1 o
      → IsServed c u.st.dry_run u.st.config_path
          (cmd ∷ cmds)
          (asked (handle_command writes cmd u).0 o.0, o.1)
  unfolding handle_command
  answered-IsServed cmd u o rest = elim (command-cases cmd) [
    | inl (e, k) ↦
        let rest' = rw k at rest in rw (k, e) (unfold answer in toggled-IsServed u o rest')
    | inr (inl (e, k)) ↦
        let rest' = rw k at rest in rw (k, e) (opened-IsServed u o (unfold answer in rest'))
    | inr (inr (inl (e, k))) ↦
        let rest' = rw k at rest in
        rw (k, e) (unfold answer in quit-IsServed u o (unfold answer in rest'))
    | inr (inr (inr (k, nt, nope, nq))) ↦
        let rest' = rw k at rest in
        rw k (
          unfold answer in
          record {
            told = rw nt rest'.told;
            shown = rw nt rest'.shown;
            files = rw nope rest'.files;
            quits = rw nq rest'.quits;
            gone = rest'.gone;
          })
  ]

dropped-IsServed :
    (c : ℕ) (u : SocketUi) → IsServed c u.st.dry_run u.st.config_path [] ([], drop_client c u)
unfolding drop_client
dropped-IsServed c u = record {
  told = refl;
  shown = refl;
  files = ground arith;
  quits = refl;
  gone = ground (arith, contains-remove_client c c u.clients);
}

-- Whatever a client writes, as long as nothing else changes the tray's state: up to the line at
-- which the context is done, each toggle tells the daemon the other mode, starting from the mode
-- that was shown, each open_config opens the configuration if its path is known, each quit cancels
-- the context, and nothing else is asked. In the end the tray shows the mode that the toggles give,
-- and the client is gone.
pub handle_client-IsServed :
    (c : ℕ) (lines : List Scanned) (u : SocketUi)
    → IsServed c u.st.dry_run u.st.config_path (taken lines) (handle_client c lines u)
unfolding handle_client
handle_client-IsServed c [] u = dropped-IsServed c u
handle_client-IsServed c (l ∷ lines) u = elim (Bool-cases l.done) [
  | inl done ↦ elim (Option-cases l.decoded) [
    | inl garbled ↦ rw (garbled, done, handle_client) (dropped-IsServed c u)
    | inr (cmd, read) ↦ rw (read, done, handle_client) (dropped-IsServed c u)
  ]
  | inr going ↦ elim (Option-cases l.decoded) [
    | inl garbled ↦ rw (garbled, going, handle_client) (handle_client-IsServed c lines u)
    | inr (cmd, read) ↦
        rw (read, going, handle_client)
          (answered-IsServed c l.writes (taken lines) cmd u _
            (handle_client-IsServed c lines (handle_command l.writes cmd u).1))
  ]
]
