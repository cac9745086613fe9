-- ===== src/Go/FilePath.antt =====
-- Package path/filepath on Unix: Base, Dir, Ext, Clean and Join.
use mathlib.Core.List.{reverse}
use avella.Common.{
  ℕ, ◌≡◌, refl, Bool, true, false, ◌||◌, List, [], ◌∷◌, ◌++◌, ◌==◌, nat_eq, if◌then◌else◌,
  ℕ_discrete,
}
use avella.Common.Text.{Text, str, text_eq}
use avella.Go.Strings.{has_prefix}

abbrev slash : ℕ
slash = b'/'

drop_slashes : Text → Text
drop_slashes [] = []
drop_slashes (c ∷ s) = if c == slash then drop_slashes s else c ∷ s

-- Both walk the reversed path, and build the result in order.
last_element : Text → Text → Text
last_element [] out = out
last_element (c ∷ s) out = if c == slash then out else last_element s (c ∷ out)

or_slash : Text → Text
or_slash [] = str "/"
or_slash (c ∷ s) = c ∷ s

unfoldable pub base : Text → Text
unfolding drop_slashes last_element or_slash
base [] = str "."
base (c ∷ s) = or_slash (last_element (drop_slashes (reverse (c ∷ s))) [])

last_dot : Text → Text → Text
last_dot [] out = []
last_dot (c ∷ s) out =
    if c == slash then [] else if c == b'.' then c ∷ out else last_dot s (c ∷ out)

unfoldable pub ext : Text → Text
unfolding last_dot
ext path = last_dot (reverse path) []

-- The elements between slashes.
add_byte : ℕ → List Text → List Text
add_byte c [] = (c ∷ []) ∷ []
add_byte c (s ∷ ss) = (c ∷ s) ∷ ss

elements : Text → List Text
unfolding add_byte
elements [] = [] ∷ []
elements (c ∷ s) = if c == slash then [] ∷ elements s else add_byte c (elements s)

-- `..` goes back over the element before it; at the root it stays there.
go_up : Bool → List Text → List Text
go_up true [] = []
go_up true (e ∷ kept) = kept
go_up false [] = str ".." ∷ []
go_up false (e ∷ kept) = if e == str ".." then str ".." ∷ e ∷ kept else kept

-- The elements that `Clean` keeps, the last one first.
keep_elements : Bool → List Text → List Text → List Text
unfolding go_up
keep_elements rooted [] kept = kept
keep_elements rooted (e ∷ es) kept = keep_elements rooted es (
    if e == [] || e == str "." then kept else if e == str ".." then go_up rooted kept else e ∷ kept)

join_slash : List Text → Text
join_slash [] = []
join_slash (e ∷ []) = e
join_slash (e ∷ f ∷ es) = e ++ slash ∷ join_slash (f ∷ es)

or_dot : Text → Text
or_dot [] = str "."
or_dot (c ∷ s) = c ∷ s

unfoldable pub clean : Text → Text
unfolding elements keep_elements join_slash or_dot has_prefix
clean path =
    let rooted = has_prefix path (str "/") in
    let kept = join_slash (reverse (keep_elements rooted (elements path) [])) in
    if rooted then slash ∷ kept else or_dot kept

-- The path up to its last slash, cleaned; this walks the reversed path.
drop_element : Text → Text
drop_element [] = []
drop_element (c ∷ s) = if c == slash then c ∷ s else drop_element s

unfoldable pub dir : Text → Text
unfolding clean drop_element
dir path = clean (reverse (drop_element (reverse path)))

unfoldable pub join : Text → Text → Text
unfolding clean
join [] [] = []
join [] (c ∷ s) = clean (c ∷ s)
join (d ∷ dir) s = clean ((d ∷ dir) ++ slash ∷ s)

base_examples :
    (base (str "/a/b.mkv") ≡ str "b.mkv")
    × (base (str "/a/b//") ≡ str "b")
    × (base (str "//") ≡ str "/")
unfolding base ℕ_discrete
base_examples = (refl, refl, refl)

dir_examples :
    (dir (str "/a/b.mkv") ≡ str "/a")
    × (dir (str "b") ≡ str ".")
    × (dir (str "/a//") ≡ str "/a")
    × (dir (str "/a") ≡ str "/")
unfolding dir text_eq ℕ_discrete
dir_examples = (refl, refl, refl, refl)

ext_examples : (ext (str "/a.b/c.tar.gz") ≡ str ".gz") × (ext (str "/a.b/c") ≡ [])
unfolding ext ℕ_discrete
ext_examples = (refl, refl)

join_examples :
    (join (str "/home/u") (str "x/../y//z/.") ≡ str "/home/u/y/z")
    × (join (str "/home/u") [] ≡ str "/home/u")
    × (clean (str "a/../../b") ≡ str "../b")
    × (clean (str "/../a") ≡ str "/a")
unfolding join text_eq ℕ_discrete
join_examples = (refl, refl, refl, refl)
