-- ===== src/Actions/ValidateZip/Laws.antt =====
-- What a ZIP file that passes is.
use avella.Common.{
  ◌≡◌, ◌↔◌, refl, Bool, true, List, [], ◌∷◌, none, some, All, arith, Bool-cases, inl, inr,
  Option-cases,
}
use avella.Actions.ValidateZip.{
  ZipEntry, Archive, validate_zip_entry, validate_entries, validate_zip_file,
}

abbrev pub IsIntact : ZipEntry → Type 0
IsIntact e = (e.opens ≡ true) × (e.reads ≡ true)

validate_zip_entry_iff : (e : ZipEntry) → (validate_zip_entry e ≡ none) ↔ IsIntact e
unfolding validate_zip_entry
validate_zip_entry_iff e = (λ h. ground arith, λ h. ground arith)

validate_entries_iff : (es : List ZipEntry) → (validate_entries es ≡ none) ↔ All IsIntact es
unfolding validate_entries
validate_entries_iff [] = (λ _. tt, λ _. refl)
validate_entries_iff (e ∷ es) = (
  λ h. ground (arith, validate_zip_entry_iff e, (validate_entries_iff es).0),
  λ h. ground (arith, (validate_entries_iff es).1 h.1),
)

-- The file can be read as an archive, and in full mode all its entries are intact.
pub record IsValidZip (a : Archive) (full : Bool) : Type 0 where
  pub readable : (a.opens ≡ true) × (a.stats ≡ true) × (a.closes ≡ true)
  pub structured : (es : List ZipEntry) × (a.entries ≡ some es) × (full ≡ true → All IsIntact es)

accepted-IsValidZip :
    (a : Archive) (full : Bool) → validate_zip_file a full ≡ none → IsValidZip a full
unfolding validate_zip_file
accepted-IsValidZip a full h = elim (Option-cases a.entries) [
  | inl broken ↦ absurd (ground arith)
  | inr (es, e) ↦ record {
    readable = ground arith;
    structured = (es, e, λ all. (validate_entries_iff es).0 (ground arith));
  }
]

IsValidZip-accepted :
    (a : Archive) (full : Bool) → IsValidZip a full → validate_zip_file a full ≡ none
unfolding validate_zip_file
IsValidZip-accepted a full v =
    let (es, e, intact) = v.structured in
    elim (Bool-cases full) [
      | inl all ↦ ground (arith, v.readable, (validate_entries_iff es).1 (intact all))
      | inr structure ↦ ground (arith, v.readable)
    ]

-- validateZip returns nil exactly if the file opens and closes, is an archive, and, in full mode,
-- each of its entries opens and reads to the end.
pub validate_zip_file_iff :
    (a : Archive) (full : Bool) → (validate_zip_file a full ≡ none) ↔ IsValidZip a full
validate_zip_file_iff a full = (accepted-IsValidZip a full, IsValidZip-accepted a full)
