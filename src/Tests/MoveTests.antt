-- ===== src/Tests/MoveTests.antt =====
-- The move over a world of two devices, in which every rename across them is a link error.
use avella.Common.{
  ◌≡◌, ◌≢◌, refl, Bool, true, false, Option, none, some, ok, [], ◌∷◌, is_some, arith, ℕ_discrete,
  Option-cases, inl, inr,
}
use avella.Common.Dict.{Dict, lookup, insert, erase, lookup-insert, lookup-erase}
use avella.Common.Text.{Text, str, text_eq}
use avella.Actions.Move.{Files, IsLawful, link_error, move_execute}
use avella.Actions.Move.Laws.{IsKept, move_execute-IsKept}
use avella.Go.FilePath.{base, join}
use avella.Go.Strings.{contains_text}
use avella.Template.{resolve_dest, has_placeholders}
use avella.Tests.{go, film, disk}

copied_to : Text → Option Text → Dict Text Text → Bool × Dict Text Text
copied_to dst none w = (false, w)
copied_to dst (some c) w = (true, insert dst c w)

abbrev devices : Files
devices = record {
  World = Dict Text Text;
  stat = λ w. disk;
  mkdir_all = λ dir w. (true, w);
  rename = λ src dst w. (link_error, w);
  can_open = λ w p. is_some (lookup p w);
  can_stat = λ w p. true;
  create = λ dst w. (true, insert dst [] w);
  copy = λ src dst w. copied_to dst (lookup src w) w;
  close_written = λ dst w. (true, w);
  close_read = λ p w. true;
  remove = λ src w. (true, erase src w);
  content = λ w p. lookup p w;
}

insert_keeps :
    (dst p c : Text) (w : Dict Text Text) → dst ≢ p → lookup p (insert dst c w) ≡ lookup p w
insert_keeps dst p c w away = rw lookup-insert (ground arith)

devices-IsLawful : IsLawful devices
unfolding copied_to
devices-IsLawful = record {
  mkdir_keeps = λ dir p w. refl;
  rename_moves = λ src dst w e. absurd (cc e);
  rename_keeps = λ src dst p w e. refl;
  create_keeps = λ dst p w away. insert_keeps dst p [] w away;
  copy_keeps = λ src dst p w away. elim (Option-cases (lookup src w)) [
    | inl gone ↦ rw gone
    | inr (c, e) ↦ rw e (insert_keeps dst p c w away)
  ];
  copy_copies = λ src dst w e. elim (Option-cases (lookup src w)) [
    | inl gone ↦ absurd (cc (rw gone at e))
    | inr (c, e) ↦ rw e (rw lookup-insert (ground arith))
  ];
  close_keeps = λ dst p w. refl;
  remove_keeps = λ src p w away. rw lookup-erase (ground arith);
}

abbrev before : Dict Text Text
before = (film, str "data") ∷ []

resolved : resolve_dest go disk (str "/out") film ≡ ok (str "/out")
unfolding resolve_dest has_placeholders contains_text ℕ_discrete
resolved = refl

elsewhere : join (str "/out") (base film) ≢ film
unfolding join base text_eq ℕ_discrete
elsewhere = λ e. cc e

film_held : lookup film before ≡ some (str "data")
unfolding lookup text_eq ℕ_discrete
film_held = refl

move_execute-IsKept_example :
    IsKept devices film
      (join (str "/out") (base film))
      (str "data")
      (move_execute devices go (str "/out") film before)
move_execute-IsKept_example =
    move_execute-IsKept devices devices-IsLawful go (str "/out") film (str "/out") (str "data")
      before resolved elsewhere film_held
