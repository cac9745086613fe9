-- ===== src/Actions/Execute/Gone.antt =====
-- After a move there is no file at the path that the rule's later actions and hooks are given.
use avella.Common.{◌≡◌, ◌≢◌, true, none, ok, err, arith}
use avella.Common.Text.{Text}
use avella.Actions.Move.{Files, renamed, copy_file, copy_and_remove, move_to, move_execute}
use avella.Go.{Std}
use avella.Go.FilePath.{base, join}
use avella.Go.Os.{not_exist}
use avella.Template.{resolve_dest}

-- What `os.Stat` says of a path that was renamed or removed.
pub record TakesAway (f : Files) : Type 0 where
  pub rename_gone :
      (src dst : Text) (w : f.World)
      → dst ≢ src
      → (f.rename src dst w).0 ≡ renamed
      → f.stat (f.rename src dst w).1 src ≡ err not_exist
  pub remove_gone :
      (src : Text) (w : f.World)
      → (f.remove src w).0 ≡ true
      → f.stat (f.remove src w).1 src ≡ err not_exist

module _ (f : Files) (laws : TakesAway f) (path dest : Text) where
  copy_and_remove_gone :
      (w : f.World)
      → (copy_and_remove f path dest w).0 ≡ none
      → f.stat (copy_and_remove f path dest w).1 path ≡ err not_exist
  unfolding copy_and_remove
  copy_and_remove_gone w h = ground (arith, laws.remove_gone path (copy_file f path dest w).1)

  move_to_gone :
      (w : f.World)
      → dest ≢ path
      → (move_to f path dest w).0 ≡ none
      → f.stat (move_to f path dest w).1 path ≡ err not_exist
  unfolding move_to
  move_to_gone w away h =
      ground
        (arith, laws.rename_gone path dest w away, copy_and_remove_gone (f.rename path dest w).1)

pub move_execute_gone :
    (f : Files) (laws : TakesAway f) (std : Std) (tmpl path dir : Text) (w : f.World)
    → resolve_dest std (f.stat w) tmpl path ≡ ok dir
    → join dir (base path) ≢ path
    → (move_execute f std tmpl path w).0 ≡ none
    → f.stat (move_execute f std tmpl path w).1 path ≡ err not_exist
unfolding move_execute
move_execute_gone f laws std tmpl path dir w resolved away h =
    ground
      (arith, resolved, move_to_gone f laws path (join dir (base path)) (f.mkdir_all dir w).1 away)
