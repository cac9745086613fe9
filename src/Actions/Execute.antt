-- ===== src/Actions/Execute.antt =====
-- actions/: Execute of every kind of action, over the host that it runs on, and the runner that
-- the engine gets by it. exec.go and notify.go are here, the others in their own modules.
pub mod Gone
pub mod Hooks
use avella.Common.{
  ℕ, Bool, List, [], ◌∷◌, ◌++◌, Option, none, some, ok, err, is_some, not, if◌then◌else◌,
}
use avella.Common.Text.{Text, str}
use avella.Actions.{Action, move, exec, scp, validate_zip, notify}
use avella.Actions.Move.{Files, MoveError, move_execute}
use avella.Actions.Upload.{Remote, UploadError, scp_execute}
use avella.Actions.ValidateZip.{Archive, ZipError, validate_zip_file}
use avella.Go.{Std}
use avella.Rules.Engine.{Runner}
use avella.Template.{TemplateError, resolve_dest}

pub record Host : Type 1 where
  pub files : Files
  pub remote : Remote files
  pub archive : files.World → Text → Archive
  -- `exec.CommandContext` and its run: the program with its arguments
  pub command : List Text → files.World → Bool × files.World
  -- `%q` of package fmt
  pub quote : Text → Text

pub data ExecuteError : Type 0 where
  move_error : MoveError → ExecuteError
  exec_error : Text → ExecuteError
  upload_error : UploadError → ExecuteError
  zip_error : ZipError → ExecuteError
  notify_error : TemplateError → ExecuteError

abbrev pub wrap : {E : Type 0} → (E → ExecuteError) → Option E → Option ExecuteError
wrap f none = none
wrap f (some e) = some (f e)

module _ (std : Std) (h : Host) where
  unfoldable pub exec_execute : Text → Text → h.files.World → Option ExecuteError × h.files.World
  exec_execute cmd path w =
      let (good, w₁) = h.command (cmd ∷ path ∷ []) w in
      (if good then none else some (exec_error cmd), w₁)

  script : Text → Text
  script message = str "display notification " ++ (h.quote message ++ str " with title \"Avella\"")

  -- A notification that could not be shown is only logged.
  unfoldable pub notify_execute : Text → Text → h.files.World → Option ExecuteError × h.files.World
  unfolding script
  notify_execute message path w = elim (resolve_dest std (h.files.stat w) message path) [
    | err e ↦ (some (notify_error e), w)
    | ok text ↦ (none, (h.command (str "osascript" ∷ str "-e" ∷ script text ∷ []) w).1)
  ]

  unfoldable pub execute : Action → Text → h.files.World → Option ExecuteError × h.files.World
  unfolding exec_execute notify_execute
  execute (move dest) path w =
      let (e, w₁) = move_execute h.files std dest path w in (wrap move_error e, w₁)
  execute (exec cmd) path w = exec_execute cmd path w
  execute (scp host dest pool delete) path w =
      let (e, w₁) = scp_execute h.files h.remote std host dest pool delete path w in
      (wrap upload_error e, w₁)
  execute (validate_zip full) path w =
      (wrap zip_error (validate_zip_file (h.archive w path) full), w)
  execute (notify message) path w = notify_execute message path w

  -- What the engine runs the actions by.
  abbrev pub runner : Runner
  runner = record {
    World = h.files.World;
    stat = h.files.stat;
    execute = λ a path w. let (e, w₁) = execute a path w in (not (is_some e), w₁);
  }
