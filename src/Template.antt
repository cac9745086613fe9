-- ===== src/Template.antt =====
-- template/template.go: the variables of a destination, and their expansion.
pub mod FileType
use avella.Common.{
  Option, none, some, Result, ok, err, ◌>>=◌, map_error, or_fail, Bool, if◌then◌else◌, [], ◌∷◌,
}
use avella.Common.Dict.{Dict}
use avella.Common.Int.{ℤ}
use avella.Common.Text.{Text, str}
use avella.Go.{Std}
use avella.Go.FilePath.{base}
use avella.Go.FilePath
use avella.Go.Os.{OsError, Stat, FileInfo}
use avella.Go.Strings.{contains_text, trim_byte}
use FileType.{classify_ext}

pub record FileData : Type 0 where
  pub filename : Text
  pub year : Text
  pub month : Text
  pub day : Text
  pub ext : Text
  pub file_type : Text

pub data TemplateError : Type 0 where
  stat_failed : OsError → TemplateError
  bad_template : Text → TemplateError
  execute_failed : Text → TemplateError

-- The fields that a template names.
fields : FileData → Dict Text Text
fields d =
    (str "Filename", d.filename)
    ∷ (str "Year", d.year)
    ∷ (str "Month", d.month)
    ∷ (str "Day", d.day)
    ∷ (str "Ext", d.ext)
    ∷ (str "Type", d.file_type)
    ∷ []

unfoldable pub has_placeholders : Text → Bool
has_placeholders s = contains_text s (str "{{")

-- `strings.TrimPrefix(filepath.Ext(path), ".")`
unfoldable pub bare_ext : Text → Text
bare_ext path = trim_byte b'.' (FilePath.ext path)

module _ (std : Std) where
  -- `newFileData`
  unfoldable pub file_data_at : Text → ℤ → FileData
  file_data_at path mod_time = record {
    filename = base path;
    year = std.format_time mod_time (str "2006");
    month = std.format_time mod_time (str "01");
    day = std.format_time mod_time (str "02");
    ext = bare_ext path;
    file_type = classify_ext std (bare_ext path);
  }

  unfoldable pub new_file_data : Stat → Text → Result TemplateError FileData
  unfolding file_data_at
  new_file_data stat path = do
    info ← map_error stat_failed (stat path)
    ok (file_data_at path info.mod_time)

  unfoldable pub expand : Text → FileData → Result TemplateError Text
  unfolding fields
  expand tmpl file_data = do
    t ← or_fail (std.parse_template tmpl) (bad_template tmpl)
    or_fail (std.execute_template t (fields file_data)) (execute_failed tmpl)

  unfoldable pub resolve_dest : Stat → Text → Text → Result TemplateError Text
  resolve_dest stat tmpl path =
      if has_placeholders tmpl
      then (do file_data ← new_file_data stat path; expand tmpl file_data)
      else ok tmpl
