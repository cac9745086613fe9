-- ===== src/Ui/Recent.antt =====
-- The list of recent files, which the tray shows.
use mathlib.Core.List.{reverse, reverse-cons, append_assoc}
use avella.Common.{
  ℕ, ◌≤◌, ◌≡◌, refl, sym, ap, ◌∙◌, Bool, List, [], ◌∷◌, ◌++◌, take, length, arith, take_all,
  take-append_take, length-take, ltb, Bool-cases, inl, inr,
}
use avella.Ui.{
  SocketUi, State, RecentFile, max_recent_files, push_recent, add_recent_file, broadcast,
  drop_failed, write_to_clients, state,
}

push_recent-take :
    (file : RecentFile) (files : List RecentFile)
    → push_recent file files ≡ take max_recent_files (file ∷ files)
unfolding push_recent
push_recent-take file files = elim (Bool-cases (ltb max_recent_files (length (file ∷ files)))) [
  | inl long ↦ rw long
  | inr short ↦ rw short (sym (take_all max_recent_files (file ∷ files) (ground arith)))
]

drop_failed-st : (cs : List ℕ) (u : SocketUi) → (drop_failed cs u).st ≡ u.st
unfolding drop_failed
drop_failed-st [] u = refl
drop_failed-st (c ∷ cs) u = drop_failed-st cs _

-- A broadcast changes nothing of the state that it sends.
pub broadcast-st : (writes : ℕ → Bool) (u : SocketUi) → (broadcast writes u).st ≡ u.st
unfolding broadcast
broadcast-st writes u =
    let (sent', failed) = write_to_clients writes (state u.st) u.clients u.sent in
    drop_failed-st failed (record u { sent = sent' })

-- Files added one after the other, each with the fate of its broadcast.
pub add_all : List ((ℕ → Bool) × RecentFile) → SocketUi → SocketUi
add_all [] u = u
add_all ((writes, file) ∷ more) u = add_all more (add_recent_file writes file u)

abbrev pub files_of : List ((ℕ → Bool) × RecentFile) → List RecentFile
files_of [] = []
files_of ((writes, file) ∷ more) = file ∷ files_of more

add_recent_file-recent :
    (writes : ℕ → Bool) (file : RecentFile) (u : SocketUi)
    → (add_recent_file writes file u).st.recent_files
      ≡ take max_recent_files (file ∷ u.st.recent_files)
unfolding add_recent_file
add_recent_file-recent writes file u =
    ap (λ (s : State). s.recent_files)
      (broadcast-st writes
        (record u { st = record (u.st) { recent_files = push_recent file u.st.recent_files } }))
    ∙ push_recent-take file u.st.recent_files

-- After any number of files were added, the tray shows the last ones added before those it showed,
-- the newest first, and ten in all at most.
pub add_all-recent :
    (added : List ((ℕ → Bool) × RecentFile)) (u : SocketUi)
    → length u.st.recent_files ≤ max_recent_files
    → (add_all added u).st.recent_files
      ≡ take max_recent_files (reverse (files_of added) ++ u.st.recent_files)
unfolding add_all
add_all-recent [] u h = sym (take_all max_recent_files u.st.recent_files h)
add_all-recent ((writes, file) ∷ more) u h =
    let u' = add_recent_file writes file u in
    let recent = add_recent_file-recent writes file u in
    let earlier = reverse (files_of more) in
    add_all-recent more u'
      (rw recent (omega (arith, length-take max_recent_files (file ∷ u.st.recent_files))))
    ∙ ap (λ (fs : List RecentFile). take max_recent_files (earlier ++ fs)) recent
    ∙ take-append_take max_recent_files earlier (file ∷ u.st.recent_files)
    ∙ rw (reverse-cons, append_assoc)
