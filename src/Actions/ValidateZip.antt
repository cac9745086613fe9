-- ===== src/Actions/ValidateZip.antt =====
-- actions/validate_zip.go: validateZip and validateZipEntry. Package archive/zip is a parameter.
pub mod Laws
use avella.Common.{Bool, true, false, not, List, [], ◌∷◌, Option, none, some, if◌then◌else◌}
use avella.Common.Text.{Text}

-- A `zip.File`: whether `Open` returns nil, and whether its data reads to the end, which checks
-- the CRC-32.
pub record ZipEntry : Type 0 where
  pub name : Text
  pub opens : Bool
  pub reads : Bool

-- What the calls return for one file; the last is `zip.NewReader`.
pub record Archive : Type 0 where
  pub opens : Bool
  pub stats : Bool
  pub closes : Bool
  pub entries : Option (List ZipEntry)

pub data EntryError : Type 0 where
  entry_open crc_failed : EntryError

pub data ZipError : Type 0 where
  open_failed stat_failed invalid_structure close_failed : ZipError
  bad_entry : Text → EntryError → ZipError

unfoldable pub validate_zip_entry : ZipEntry → Option EntryError
validate_zip_entry e =
    if not e.opens then some entry_open else if e.reads then none else some crc_failed

unfoldable pub validate_entries : List ZipEntry → Option ZipError
unfolding validate_zip_entry
validate_entries [] = none
validate_entries (e ∷ es) = elim (validate_zip_entry e) [
  | some x ↦ some (bad_entry e.name x)
  | none ↦ validate_entries es
]

-- The deferred close: its error is returned if there is no other.
unfoldable pub close_archive : Archive → Option ZipError → Option ZipError
close_archive a none = if a.closes then none else some close_failed
close_archive a (some e) = some e

unfoldable pub validate_open : Archive → Bool → Option ZipError
unfolding validate_entries
validate_open a full = if not a.stats then some stat_failed else elim a.entries [
  | none ↦ some invalid_structure
  | some es ↦ if full then validate_entries es else none
]

unfoldable pub validate_zip_file : Archive → Bool → Option ZipError
unfolding close_archive validate_open
validate_zip_file a full =
    if not a.opens then some open_failed else close_archive a (validate_open a full)
