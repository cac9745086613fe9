-- ===== src/Template/FileType/Table.antt =====
-- ClassifyExt looks an extension up in five lists that have nothing in common.
use mathlib.Core.List.{append-nil}
use avella.Common.{
  ◌≡◌, ◌↔◌, refl, sym, ap, subst, ◌∙◌, Bool, true, false, List, [], ◌∷◌, ◌++◌, some, All, contains,
  arith, if◌then◌else◌, ℕ_discrete,
}
use avella.Common.Dict.{Dict, lookup}
use avella.Common.Text.{Text, text_eq}
use avella.Go.{Std}
use avella.Go.Strings.{to_lower}
use avella.Template.FileType.{
  type_video, type_image, type_audio, type_document, type_archive, type_other, of_type, video_exts,
  image_exts, audio_exts, document_exts, archive_exts, ext_types, or_other, classify_ext,
}

-- The categories other than the last, each with its list.
abbrev pub tables : Dict Text (List Text)
tables =
    (type_video, video_exts)
    ∷ (type_image, image_exts)
    ∷ (type_audio, audio_exts)
    ∷ (type_document, document_exts)
    ∷ (type_archive, archive_exts)
    ∷ []

lookup-of_type :
    (t : Text) (es : List Text) (rest : Dict Text Text) (k : Text)
    → lookup k (of_type t es ++ rest) ≡ (if contains es k then some t else lookup k rest)
unfolding lookup
lookup-of_type t [] rest k = refl
lookup-of_type t (e ∷ es) rest k = ground (arith, lookup-of_type t es rest k)

All-contains :
    (P : Text → Type 0) (es : List Text) (k : Text) → All P es → contains es k ≡ true → P k
All-contains P [] k all h = absurd (cc h)
All-contains P (e ∷ es) k all h = elim (text_eq.dec k e) [
  | yes same ↦ subst P (sym same) all.0
  | no other ↦ All-contains P es k all.1 (ground arith)
]

-- No entry stands behind another with the same extension.
listed :
    All (λ (entry : Text × List Text). All (λ e. lookup e ext_types ≡ some entry.0) entry.1) tables
unfolding lookup ext_types text_eq ℕ_discrete
listed = search

-- The category of an extension, from the lists that have it.
abbrev ladder : Bool → Bool → Bool → Bool → Bool → Text
ladder v i a d z =
    if v
    then type_video
    else if i
    then type_image
    else if a
    then type_audio
    else if d
    then type_document
    else if z
    then type_archive
    else type_other

lookup-ladder :
    (v i a d z : List Text) (k : Text)
    → or_other (
        lookup k (
          of_type type_video v
          ++ (of_type type_image i
              ++ (of_type type_audio a ++ (of_type type_document d ++ of_type type_archive z)))))
      ≡ ladder (contains v k) (contains i k) (contains a k) (contains d k) (contains z k)
unfolding lookup
lookup-ladder v i a d z k =
    rw
      (
        lookup-of_type,
        lookup-of_type,
        lookup-of_type,
        lookup-of_type,
        sym (append-nil (of_type type_archive z)),
        lookup-of_type,
      )
      (ground arith)

-- Each category comes from its own list only.
ladder_inv :
    (v i a d z : Bool)
    → (ladder v i a d z ≡ type_video → v ≡ true)
      × (ladder v i a d z ≡ type_image → i ≡ true)
      × (ladder v i a d z ≡ type_audio → a ≡ true)
      × (ladder v i a d z ≡ type_document → d ≡ true)
      × (ladder v i a d z ≡ type_archive → z ≡ true)
ladder_inv v i a d z =
    (λ h. ground arith, λ h. ground arith, λ h. ground arith, λ h. ground arith, λ h. ground arith)

other_iff :
    (v i a d z : Bool)
    → (ladder v i a d z ≡ type_other)
      ↔ ((v ≡ false) × (i ≡ false) × (a ≡ false) × (d ≡ false) × (z ≡ false))
other_iff v i a d z = (λ h. ground arith, λ h. ground arith)

module _ (std : Std) (ext : Text) where
  abbrev pub low : Text
  low = to_lower std.unicode_lower ext

  -- The extension is in the list of a category.
  abbrev pub IsIn : Text × List Text → Type 0
  IsIn entry = contains entry.1 low ≡ true

  classify_ext-ladder :
      classify_ext std ext
      ≡ ladder
          (contains video_exts low)
          (contains image_exts low)
          (contains audio_exts low)
          (contains document_exts low)
          (contains archive_exts low)
  unfolding classify_ext
  classify_ext-ladder =
      lookup-ladder video_exts image_exts audio_exts document_exts archive_exts low

  classify_ext_listed :
      (t : Text) (es : List Text)
      → All (λ e. lookup e ext_types ≡ some t) es
      → contains es low ≡ true
      → classify_ext std ext ≡ t
  unfolding classify_ext
  classify_ext_listed t es all h =
      ap or_other (All-contains (λ e. lookup e ext_types ≡ some t) es low all h)

  -- ClassifyExt returns a category exactly if the extension, in lower case, is in its list, and
  -- Other exactly if it is in none: no extension is in two lists.
  pub classify_ext-tables :
      All (λ entry. (classify_ext std ext ≡ entry.0) ↔ IsIn entry) tables
      × ((classify_ext std ext ≡ type_other)
          ↔ All (λ (entry : Text × List Text). contains entry.1 low ≡ false) tables)
  classify_ext-tables =
      let e = classify_ext-ladder in
      let (video, image, audio, document, archive) = ladder_inv _ _ _ _ _ in
      let (v, (i, (a, (d, (z, _))))) = listed in
      let other = other_iff _ _ _ _ _ in
      (
        (
          (λ h. video (sym e ∙ h), classify_ext_listed type_video video_exts v),
          (
            (λ h. image (sym e ∙ h), classify_ext_listed type_image image_exts i),
            (
              (λ h. audio (sym e ∙ h), classify_ext_listed type_audio audio_exts a),
              (
                (λ h. document (sym e ∙ h), classify_ext_listed type_document document_exts d),
                ((λ h. archive (sym e ∙ h), classify_ext_listed type_archive archive_exts z), tt),
              ),
            ),
          ),
        ),
        (
          λ h. let (v, i, a, d, z) = other.0 (sym e ∙ h) in (v, (i, (a, (d, (z, tt))))),
          λ (v, (i, (a, (d, (z, _))))). e ∙ other.1 (v, i, a, d, z),
        ),
      )
