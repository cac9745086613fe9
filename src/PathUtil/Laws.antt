-- ===== src/PathUtil/Laws.antt =====
-- What ExpandHome returns on each kind of path.
use avella.Common.{ℕ, ◌≡◌, ◌≢◌, ok, err, ◌∷◌, nat_eq, if◌then◌else◌, arith}
use avella.Common.Text.{Text, str, text_eq}
use avella.Go.FilePath.{join}
use avella.Go.Os.{OsError, HomeDir}
use avella.Go.Strings.{has_prefix}
use avella.PathUtil.{expand_home}

abbrev tilde : ℕ
tilde = b'~'

-- A path is left alone unless its first byte is `~`, whether or not the home directory is known.
pub expand_home_plain :
    (home_dir : HomeDir) (c : ℕ) (s : Text) → c ≢ tilde → expand_home home_dir (c ∷ s) ≡ ok (c ∷ s)
unfolding expand_home
expand_home_plain home_dir c s h = ground arith

-- With the home directory known, the byte behind the `~` is dropped, whatever it is.
pub expand_home-tilde :
    (home : Text) (c : ℕ) (s : Text) → expand_home (ok home) (tilde ∷ c ∷ s) ≡ ok (join home s)
unfolding expand_home
expand_home-tilde home c s = ground arith

-- No call fails while the home directory is known; if it is not, exactly the `~` paths fail.
pub expand_home_fails :
    (e : OsError) (path : Text)
    → expand_home (err e) path ≡ (if has_prefix path (str "~") then err e else ok path)
unfolding expand_home
expand_home_fails e path = ground arith
