-- ===== src/Template/FileType.antt =====
-- template/filetype.go: the category of a file extension.
pub mod Table
use avella.Common.{List, [], ◌∷◌, Option, none, some, ◌++◌}
use avella.Common.Dict.{Dict, lookup}
use avella.Common.Text.{Text, str, text_eq}
use avella.Go.{Std}
use avella.Go.Strings.{to_lower}

abbrev pub type_video : Text
type_video = str "Video"

abbrev pub type_image : Text
type_image = str "Image"

abbrev pub type_audio : Text
type_audio = str "Audio"

abbrev pub type_document : Text
type_document = str "Document"

abbrev pub type_archive : Text
type_archive = str "Archive"

abbrev pub type_other : Text
type_other = str "Other"

-- The entries of one category.
abbrev of_type : Text → List Text → Dict Text Text
of_type t [] = []
of_type t (e ∷ es) = (e, t) ∷ of_type t es

unfoldable pub video_exts : List Text
video_exts =
    str "mkv"
    ∷ str "mp4"
    ∷ str "avi"
    ∷ str "mov"
    ∷ str "wmv"
    ∷ str "flv"
    ∷ str "webm"
    ∷ str "m4v"
    ∷ str "ts"
    ∷ str "mpg"
    ∷ str "mpeg"
    ∷ []

unfoldable pub image_exts : List Text
image_exts =
    str "jpg"
    ∷ str "jpeg"
    ∷ str "png"
    ∷ str "gif"
    ∷ str "bmp"
    ∷ str "webp"
    ∷ str "svg"
    ∷ str "tiff"
    ∷ str "tif"
    ∷ str "heic"
    ∷ str "heif"
    ∷ str "avif"
    ∷ str "raw"
    ∷ []

unfoldable pub audio_exts : List Text
audio_exts =
    str "mp3"
    ∷ str "flac"
    ∷ str "wav"
    ∷ str "aac"
    ∷ str "ogg"
    ∷ str "wma"
    ∷ str "m4a"
    ∷ str "opus"
    ∷ []

unfoldable pub document_exts : List Text
document_exts =
    str "pdf"
    ∷ str "doc"
    ∷ str "docx"
    ∷ str "xls"
    ∷ str "xlsx"
    ∷ str "ppt"
    ∷ str "pptx"
    ∷ str "txt"
    ∷ str "rtf"
    ∷ str "csv"
    ∷ str "odt"
    ∷ []

unfoldable pub archive_exts : List Text
archive_exts =
    str "zip" ∷ str "tar" ∷ str "gz" ∷ str "bz2" ∷ str "xz" ∷ str "7z" ∷ str "rar" ∷ str "zst" ∷ []

unfoldable pub ext_types : Dict Text Text
unfolding video_exts image_exts audio_exts document_exts archive_exts
ext_types =
    of_type type_video video_exts
    ++ (of_type type_image image_exts
        ++ (of_type type_audio audio_exts
            ++ (of_type type_document document_exts ++ of_type type_archive archive_exts)))

abbrev or_other : Option Text → Text
or_other none = type_other
or_other (some t) = t

module _ (std : Std) where
  unfoldable pub classify_ext : Text → Text
  unfolding to_lower ext_types lookup
  classify_ext ext = or_other (lookup (to_lower std.unicode_lower ext) ext_types)
