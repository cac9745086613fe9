-- ===== src/Actions/Move.antt =====
-- actions/move.go: Execute, with the copy that it falls back to, over an interface of file operations.
pub mod Laws
use avella.Common.{
  ◌≡◌, ◌≢◌, Bool, true, false, not, ◌&&◌, Option, none, some, Result, ok, err, if◌then◌else◌,
}
use avella.Common.Text.{Text}
use avella.Go.{Std}
use avella.Go.FilePath.{base, join}
use avella.Go.Os.{Stat}
use avella.Template.{TemplateError, resolve_dest}

-- `os.Rename`: nil, a `*os.LinkError`, or another error.
pub data Renaming : Type 0 where
  renamed link_error rename_failed : Renaming

-- The calls of package os and io.Copy. A Boolean says whether the call returned nil.
pub record Files : Type 1 where
  pub World : Type 0
  pub stat : World → Stat
  pub mkdir_all : Text → World → Bool × World
  pub rename : Text → Text → World → Renaming × World
  pub can_open : World → Text → Bool
  pub can_stat : World → Text → Bool
  pub create : Text → World → Bool × World
  pub copy : Text → Text → World → Bool × World
  pub close_written : Text → World → Bool × World
  pub close_read : Text → World → Bool
  pub remove : Text → World → Bool × World
  -- what a path holds, for the laws only
  pub content : World → Text → Option Text

pub data MoveError : Type 0 where
  resolve_failed : TemplateError → MoveError
  mkdir_failed not_renamed copy_failed remove_failed : MoveError

module _ (f : Files) where
  -- The destination is closed first, then the source; any error of the three is returned.
  unfoldable pub copy_file : Text → Text → f.World → Bool × f.World
  copy_file src dst w =
      if not (f.can_open w src && f.can_stat w src)
      then (false, w)
      else let (created, w₁) = f.create dst w in
        let (copied, w₂) = f.copy src dst w₁ in
        let (closed, w₃) = f.close_written dst w₂ in
        if not created then (false, w₁) else (copied && closed && f.close_read src w₃, w₃)

  unfoldable pub copy_and_remove : Text → Text → f.World → Option MoveError × f.World
  unfolding copy_file
  copy_and_remove path dest w =
      let (copied, w₁) = copy_file path dest w in
      let (removed, w₂) = f.remove path w₁ in
      if not copied
      then (some copy_failed, w₁)
      else (if removed then none else some remove_failed, w₂)

  unfoldable pub move_to : Text → Text → f.World → Option MoveError × f.World
  unfolding copy_and_remove
  move_to path dest w =
      let (result, w₁) = f.rename path dest w in
      elim result [
        | renamed ↦ (none, w₁)
        | link_error ↦ copy_and_remove path dest w₁
        | rename_failed ↦ (some not_renamed, w₁)
      ]

  unfoldable pub move_execute : Std → Text → Text → f.World → Option MoveError × f.World
  unfolding move_to
  move_execute std dest path w = elim (resolve_dest std (f.stat w) dest path) [
    | err e ↦ (some (resolve_failed e), w)
    | ok dir ↦
        let (made, w₁) = f.mkdir_all dir w in
        if made then move_to path (join dir (base path)) w₁ else (some mkdir_failed, w₁)
  ]

-- What the calls do to the contents of files.
pub record IsLawful (f : Files) : Type 0 where
  pub mkdir_keeps : (dir p : Text) (w : f.World) → f.content (f.mkdir_all dir w).1 p ≡ f.content w p
  pub rename_moves :
      (src dst : Text) (w : f.World)
      → (f.rename src dst w).0 ≡ renamed
      → f.content (f.rename src dst w).1 dst ≡ f.content w src
  pub rename_keeps :
      (src dst p : Text) (w : f.World)
      → (f.rename src dst w).0 ≢ renamed
      → f.content (f.rename src dst w).1 p ≡ f.content w p
  pub create_keeps :
      (dst p : Text) (w : f.World) → dst ≢ p → f.content (f.create dst w).1 p ≡ f.content w p
  pub copy_keeps :
      (src dst p : Text) (w : f.World) → dst ≢ p → f.content (f.copy src dst w).1 p ≡ f.content w p
  pub copy_copies :
      (src dst : Text) (w : f.World)
      → (f.copy src dst w).0 ≡ true
      → f.content (f.copy src dst w).1 dst ≡ f.content w src
  pub close_keeps :
      (dst p : Text) (w : f.World) → f.content (f.close_written dst w).1 p ≡ f.content w p
  pub remove_keeps :
      (src p : Text) (w : f.World) → src ≢ p → f.content (f.remove src w).1 p ≡ f.content w p
