-- ===== src/Api/Fields.antt =====
-- internal/api/validate.go and documents.go: the fields of a form. Counting the characters of a text and the
-- texts of messages are parameters; lower-casing an extension is written out for ASCII, which all known
-- extensions are.
use incident_diag.Base.{
  ℕ, suc, ◌+◌, Bool, false, not, ◌&&◌, ◌||◌, [], ◌∷◌, Option, none, some, any, length, ltb, leb,
  ◌==◌, if◌then◌else◌, is_empty, Bytes, bytes_eq,
}
use incident_diag.Text.Space.{trim_space}
use incident_diag.Text.{codes}
use incident_diag.Store.Rows.{
  DocumentType, runbook, postmortem, service_doc, Format, markdown, text,
}
use incident_diag.Files.{Stream, is_separator, limited}
use incident_diag.Api.Validation.{Code, required, too_long, invalid_format, Validation, add}

abbrev pub max_filename_len : ℕ
max_filename_len = 255

abbrev pub max_form_value_len : ℕ
max_form_value_len = 1024

abbrev pub file_name : Bytes
file_name = codes "file"

abbrev pub document_type_name : Bytes
document_type_name = codes "document_type"

abbrev pub service_name : Bytes
service_name = codes "service"

-- documentTypes.
unfoldable pub document_type_of : Bytes → Option DocumentType
document_type_of s =
    if bytes_eq s (codes "runbook")
    then some runbook
    else if bytes_eq s (codes "postmortem")
    then some postmortem
    else if bytes_eq s (codes "service_doc")
    then some service_doc
    else none

-- filepath.Ext on a name without a slash: from its last dot, or nothing.
unfoldable pub extension : Bytes → Bytes
extension [] = []
extension (b ∷ s) = let e = extension s in if is_empty e && b == 46 then b ∷ s else e

abbrev lower : ℕ → ℕ
lower b = if leb 65 b && leb b 90 then b + 32 else b

lower_all : Bytes → Bytes
lower_all [] = []
lower_all (b ∷ s) = lower b ∷ lower_all s

-- uploadFormats.
unfoldable pub format_of : Bytes → Option Format
unfolding extension lower_all
format_of name =
    let e = lower_all (extension name) in
    if bytes_eq e (codes ".md")
    then some markdown
    else if bytes_eq e (codes ".txt")
    then some text
    else none

abbrev is_name_byte : ℕ → Bool
is_name_byte b = leb 97 b && leb b 122 || leb 48 b && leb b 57

-- serviceNamePattern.
unfoldable pub is_service_name : Bytes → Bool
is_service_name [] = false
is_service_name (b ∷ s) =
    is_name_byte b && (leb (length s) 63 && not (any (λ c. not (is_name_byte c || c == 45)) s))

-- readFormValue, where it meets no error: `none` is a value that is too long.
unfoldable pub form_value : Stream → Option Bytes
form_value r =
    let raw = limited (suc max_form_value_len) r in
    if ltb max_form_value_len (length raw) then none else some (trim_space raw)

module _ (rune_count : Bytes → ℕ) (message : Code → Bytes → Bytes) where
  abbrev pub complain : Code → Bytes → Validation → Validation
  complain c name v = add name c (message c name) v

  -- validation.optionalService on a value.
  unfoldable pub optional_service : Bytes → Validation → Validation × Option Bytes
  unfolding is_service_name
  optional_service value v =
      let s = trim_space value in
      if is_empty s
      then (v, none)
      else if is_service_name s
      then (v, some s)
      else (complain invalid_format service_name v, none)

  -- acceptFilename.
  unfoldable pub accept_filename : Bytes → Validation → Validation × Option (Bytes × Format)
  unfolding format_of
  accept_filename raw v =
      let name = trim_space raw in
      if is_empty name
      then (complain required file_name v, none)
      else if ltb max_filename_len (rune_count name)
      then (complain too_long file_name v, none)
      else if any is_separator name
      then (complain invalid_format file_name v, none)
      else elim (format_of name) [
        | none ↦ (complain invalid_format file_name v, none)
        | some f ↦ (v, some (name, f))
      ]

  -- validation.requiredText.
  unfoldable pub required_text : Bytes → Bytes → ℕ → Validation → Validation × Bytes
  required_text name raw most v =
      let value = trim_space raw in
      if is_empty value
      then (complain required name v, value)
      else if ltb most (rune_count value)
      then (complain too_long name v, value)
      else (v, value)

  -- validation.optionalText.
  unfoldable pub optional_text : Bytes → Bytes → ℕ → Validation → Validation × Bytes
  optional_text name value most v =
      if ltb most (rune_count value) then (complain too_long name v, value) else (v, value)
