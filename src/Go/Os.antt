-- ===== src/Go/Os.antt =====
-- What package os reports of a file.
use avella.Common.{Bool, Result}
use avella.Common.Int.{ℤ}
use avella.Common.Text.{Text}

-- `errors.Is(err, os.ErrNotExist)`, or another error.
pub data OsError : Type 0 where
  not_exist os_failure : OsError

-- `os.FileInfo`: the size in bytes and the modification time in nanoseconds.
pub record FileInfo : Type 0 where
  pub size : ℤ
  pub mod_time : ℤ
  pub is_dir : Bool

-- `os.Stat` at one moment.
abbrev pub Stat : Type 0
Stat = Text → Result OsError FileInfo

-- `os.UserHomeDir`
abbrev pub HomeDir : Type 0
HomeDir = Result OsError Text
