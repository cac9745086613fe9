-- ===== src/PathUtil.antt =====
-- internal/pathutil/pathutil.go: the expansion of a leading `~`.
pub mod Laws
use avella.Common.{ok, err, Result, drop, ◌==◌, if◌then◌else◌}
use avella.Common.Text.{Text, str, text_eq}
use avella.Go.FilePath.{join}
use avella.Go.Os.{OsError, HomeDir}
use avella.Go.Strings.{has_prefix}

-- `path[2:]` is in range: a path that begins with `~` and is not `~` has two bytes.
abbrev expanded : Text → Text → Text
expanded path home = if path == str "~" then home else join home (drop 2 path)

unfoldable pub expand_home : HomeDir → Text → Result OsError Text
unfolding has_prefix
expand_home home_dir path =
    if has_prefix path (str "~")
    then (elim home_dir [ ok home ↦ ok (expanded path home) | err e ↦ err e ])
    else ok path
