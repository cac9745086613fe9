-- ===== src/Actions.antt =====
-- actions/action.go: the actions, made from their configuration, and how they describe themselves.
pub mod Move
pub mod Upload
pub mod ValidateZip
pub mod Execute
use avella.Common.{ℕ, [], ◌∷◌, ◌++◌, Option, none, some, Result, ok, err, Bool, ◌==◌, if◌then◌else◌}
use avella.Common.Text.{Text, str, text_eq}
use avella.Config.{ActionConfig}
use avella.Go.{Std}
use avella.Go.Os.{Stat}
use avella.Template.{resolve_dest}

-- The SSH pool that an upload uses is shared: `pool` is its identity.
pub data Action : Type 0 where
  move : (dest : Text) → Action
  exec : (command : Text) → Action
  scp : (host dest : Text) (pool : ℕ) (delete_source : Bool) → Action
  validate_zip : (full : Bool) → Action
  notify : (message : Text) → Action

pub data FromConfigError : Type 0 where
  needs_ssh_hosts no_action_type : FromConfigError

from_scp : ActionConfig → Option ℕ → Result FromConfigError Action
from_scp ac pool = elim ac.scp [
  | some c ↦ elim pool [
    | none ↦ err needs_ssh_hosts
    | some p ↦ ok (scp c.host c.dest p c.delete_source)
  ]
  | none ↦ elim ac.validate_zip [
    | some z ↦ ok (validate_zip (z.mode == str "full"))
    | none ↦ elim ac.notify [ some n ↦ ok (notify n.message) | none ↦ err no_action_type ]
  ]
]

-- The first field set, in the order move, exec, scp, validate_zip, notify.
unfoldable pub from_config : ActionConfig → Option ℕ → Result FromConfigError Action
unfolding from_scp
from_config ac pool = elim ac.move [
  | some m ↦ ok (move m.dest)
  | none ↦ elim ac.exec [ some e ↦ ok (exec e.command) | none ↦ from_scp ac pool ]
]

-- The arrow in a description, in UTF-8.
abbrev arrow : Text
arrow = 0x20 ∷ 0xE2 ∷ 0x86 ∷ 0x92 ∷ 0x20 ∷ []

-- `String`
abbrev move_string : Text → Text
move_string dest = str "move" ++ (arrow ++ dest)

abbrev exec_string : Text → Text
exec_string command = str "exec" ++ (arrow ++ command)

abbrev scp_string : Text → Text → Text
scp_string host dest = str "scp" ++ (arrow ++ (host ++ (str ":" ++ dest)))

abbrev validate_zip_string : Bool → Text
validate_zip_string full =
    str "validate_zip (" ++ ((if full then str "full" else str "structure") ++ str ")")

abbrev notify_string : Text → Text
notify_string message = str "notify" ++ (arrow ++ message)

unfoldable pub to_string : Action → Text
to_string (move dest) = move_string dest
to_string (exec command) = exec_string command
to_string (scp host dest _ _) = scp_string host dest
to_string (validate_zip full) = validate_zip_string full
to_string (notify message) = notify_string message

-- The three actions whose description depends on the file.
abbrev move_describe : Std → Stat → Text → Text → Text
move_describe std stat dest path = elim (resolve_dest std stat dest path) [
  | ok d ↦ move_string d
  | err _ ↦ move_string dest
]

abbrev scp_describe : Std → Stat → Text → Text → Text → Text
scp_describe std stat host dest path = elim (resolve_dest std stat dest path) [
  | ok d ↦ scp_string host d
  | err _ ↦ scp_string host dest
]

abbrev notify_describe : Std → Stat → Text → Text → Text
notify_describe std stat message path = elim (resolve_dest std stat message path) [
  | ok m ↦ notify_string m
  | err _ ↦ notify_string message
]

-- `Describe`, or `String` for an `ExecAction`, which has no Describe.
unfoldable pub describe : Std → Stat → Text → Action → Text
unfolding to_string
describe std stat path (move dest) = move_describe std stat dest path
describe std stat path (exec command) = to_string (exec command)
describe std stat path (scp host dest pool del) = scp_describe std stat host dest path
describe std stat path (validate_zip full) = validate_zip_string full
describe std stat path (notify message) = notify_describe std stat message path
