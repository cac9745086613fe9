-- ===== src/Tests/ActionTests.antt =====
-- Tests of the actions on one host: its files, and those of a remote host.
use avella.Common.{
  ◌≡◌, ◌≢◌, ◌↔◌, ◌++◌, refl, Bool, true, false, Option, none, some, Result, ok, err, [], ◌∷◌,
  is_some, All, arith, ℕ_discrete, length, Option-cases, inl, inr,
}
use avella.Common.Dict.{Dict, lookup, insert, erase, lookup-insert, lookup-erase}
use avella.Common.Int.{ℤ, pos}
use avella.Common.Text.{Text, str, text_eq}
use avella.Actions.{move, notify}
use avella.Actions.Execute.{Host, execute, runner}
use avella.Actions.Execute.Gone.{TakesAway}
use avella.Actions.Execute.Hooks.{IsTemplated, fire_move_notify}
use avella.Actions.Move.{Files, Renaming, renamed, link_error, move_execute}
use avella.Actions.Upload.{Remote, IsFaithful, scp_execute}
use avella.Actions.Upload.Laws.{IsUploaded, scp_execute-IsUploaded}
use avella.Actions.ValidateZip.{Archive, validate_zip_file}
use avella.Actions.ValidateZip.Laws.{IsValidZip, validate_zip_file_iff}
use avella.Go.FilePath.{base, join}
use avella.Go.Os.{OsError, FileInfo, not_exist}
use avella.Go.Strings.{contains_text}
use avella.Rules.Engine.{CompiledRule}
use avella.Rules.Engine.Process.{fire, execute_rule}
use avella.Template.{resolve_dest, has_placeholders}
use avella.Tests.{go, film, any_file}

-- The files here, and those of the remote hosts.
abbrev Disks : Type 0
Disks = Dict Text Text × Dict Text Text

info_of : Option Text → Result OsError FileInfo
info_of none = err not_exist
info_of (some c) = ok (record { size = pos (length c); mod_time = pos 5; is_dir = false })

rename_to : Text → Text → Option Text → Disks → Renaming × Disks
rename_to src dst none w = (link_error, w)
rename_to src dst (some c) w = (renamed, (insert dst c (erase src w.0), w.1))

copied_to : Text → Option Text → Disks → Bool × Disks
copied_to dst none w = (false, w)
copied_to dst (some c) w = (true, (insert dst c w.0, w.1))

abbrev files : Files
files = record {
  World = Disks;
  stat = λ w p. info_of (lookup p w.0);
  mkdir_all = λ dir w. (true, w);
  rename = λ src dst w. rename_to src dst (lookup src w.0) w;
  can_open = λ w p. is_some (lookup p w.0);
  can_stat = λ w p. true;
  create = λ dst w. (true, (insert dst [] w.0, w.1));
  copy = λ src dst w. copied_to dst (lookup src w.0) w;
  close_written = λ dst w. (true, w);
  close_read = λ p w. true;
  remove = λ src w. (true, (erase src w.0, w.1));
  content = λ w p. lookup p w.0;
}

sent_to : Text → Option Text → Disks → (Bool × ℤ) × Disks
sent_to key none w = ((false, pos 0), w)
sent_to key (some c) w = ((true, pos (length c)), (w.0, insert key c w.1))

size_of : Option Text → Option ℤ
size_of none = none
size_of (some c) = some (pos (length c))

abbrev remote : Remote files
remote = record {
  connect = λ pool host w. (true, w);
  close_session = λ host w. (true, w);
  source_size = λ w p. size_of (lookup p w.0);
  create_remote = λ host p w. (true, (w.0, insert (host ++ p) [] w.1));
  copy_remote = λ src host p w. sent_to (host ++ p) (lookup src w.0) w;
  close_remote = λ host p w. (true, w);
  cancelled = λ w. false;
  remote_content = λ w host p. lookup (host ++ p) w.1;
}

remote-IsFaithful : IsFaithful files remote
unfolding sent_to size_of
remote-IsFaithful = record {
  connect_keeps = λ pool host p w. refl;
  create_keeps = λ host q p w. refl;
  copy_keeps = λ path host q p w. elim (Option-cases (lookup path w.0)) [
    | inl gone ↦ rw gone
    | inr (c, e) ↦ rw e
  ];
  copy_whole = λ path host q size w sized done. elim (Option-cases (lookup path w.0)) [
    | inl gone ↦ absurd (cc (rw gone at sized))
    | inr (c, e) ↦ rw e (rw lookup-insert (ground arith))
  ];
  create_size = λ host q path w. refl;
  close_keeps = λ host q p w. refl;
  close_flushes = λ host q w done. refl;
  session_keeps = λ host p w. refl;
  session_keeps_remote = λ host q w. refl;
  remove_keeps_remote = λ path host q w. refl;
}

files-TakesAway : TakesAway files
unfolding rename_to info_of
files-TakesAway = record {
  rename_gone = λ src dst w away done. elim (Option-cases (lookup src w.0)) [
    | inl gone ↦ absurd (cc (rw gone at done))
    | inr (c, e) ↦ rw e (rw (lookup-insert, lookup-erase) (ground arith))
  ];
  remove_gone = λ src w done. rw lookup-erase (ground arith);
}

abbrev before : Disks
before = ((film, str "data") ∷ [], [])

resolved : resolve_dest go (files.stat before) (str "/out") film ≡ ok (str "/out")
unfolding resolve_dest has_placeholders contains_text ℕ_discrete
resolved = refl

film_held : lookup film before.0 ≡ some (str "data")
unfolding lookup text_eq ℕ_discrete
film_held = refl

scp_execute-IsUploaded_example :
    IsUploaded files remote
      (str "nas")
      (join (str "/out") (base film))
      film
      (str "data")
      true
      (scp_execute files remote go (str "nas") (str "/out") 7 true film before)
scp_execute-IsUploaded_example =
    scp_execute-IsUploaded files remote remote-IsFaithful go (str "nas") (str "/out") film
      (str "/out") (str "data") 7 true before resolved film_held

abbrev archive : Archive
archive = record {
  opens = true;
  stats = true;
  closes = true;
  entries = some (record { name = str "a"; opens = true; reads = false } ∷ []);
}

validate_zip_file_iff_example : (validate_zip_file archive true ≡ none) ↔ IsValidZip archive true
validate_zip_file_iff_example = validate_zip_file_iff archive true

abbrev host : Host
host = record {
  files = files;
  remote = remote;
  archive = λ w p. archive;
  command = λ args w. (true, w);
  quote = λ s. s;
}

abbrev sorted : CompiledRule go
sorted = record {
  name = str "video_files";
  criteria = any_file;
  regex = none;
  min_age = pos 0;
  actions = move (str "/out") ∷ [];
  on_success = notify (str "Sorted {{.Filename}}") ∷ [];
  on_fail = [];
}

templated : All IsTemplated sorted.on_success
unfolding has_placeholders contains_text ℕ_discrete
templated = (refl, tt)

elsewhere : join (str "/out") (base film) ≢ film
unfolding join base text_eq ℕ_discrete
elsewhere = λ e. cc e

sorted_succeeds : (fire go (runner go host) false film sorted before).error ≡ none
unfolding fire execute move_execute rename_to execute_rule resolve_dest has_placeholders
    contains_text ℕ_discrete lookup text_eq
sorted_succeeds = refl

fire_move_notify_example :
    let moved = move_execute files go (str "/out") film before in
    (moved.0 ≡ none)
    × ((fire go (runner go host) false film sorted before).world ≡ moved.1)
    × All (λ a. (execute go host a film moved.1).0 ≢ none) sorted.on_success
fire_move_notify_example =
    fire_move_notify go host files-TakesAway film (str "/out") (str "/out") sorted before refl
      templated resolved elsewhere sorted_succeeds
