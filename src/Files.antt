-- ===== src/Files.antt =====
-- internal/files/files.go: the uploaded files under the storage root. A stored file stands for its path; a
-- directory without files is left out. What fails in the file system is an input, and a removal that
-- fails leaves the files as they are.
use incident_diag.Base.{
  ℕ, suc, Bool, not, ◌&&◌, ◌||◌, List, [], ◌∷◌, ◌++◌, Option, none, some, any, filter, length, take,
  ltb, ◌==◌, if◌then◌else◌, is_empty, Bytes, bytes_eq,
}

pub record Stored : Type 0 where
  pub document_id : ℕ
  pub name : Bytes
  pub content : Bytes

-- Saved, with the content in the place of its hash.
pub record Saved : Type 0 where
  pub name : Bytes
  pub content : Bytes
  pub size : ℕ

-- How reading a request fails: over the limit of the whole request, or otherwise.
pub data ReadError : Type 0 where
  over_limit broken : ReadError

-- What a reader gives: bytes, and an error behind them in place of the end.
pub record Stream : Type 0 where
  pub bytes : Bytes
  pub fault : Option ReadError

-- What fails in the file system.
pub record Faults : Type 0 where
  pub mkdir : Bool
  pub create : Bool
  pub close : Bool
  pub remove : Bool

pub data SaveError : Type 0 where
  bad_name no_directory no_file not_closed too_large : SaveError
  not_read : ReadError → SaveError

pub data SaveResult : Type 0 where
  saved : Saved → SaveResult
  unsaved : SaveError → SaveResult

-- A slash, a backslash or a zero byte.
abbrev pub is_separator : ℕ → Bool
is_separator b = b == 47 || (b == 92 || b == 0)

-- checkName. A name without a slash is its own base.
unfoldable pub check_name : Bytes → Bool
check_name name = not (
    is_empty name
    || (bytes_eq name (46 ∷ []) || (bytes_eq name (46 ∷ 46 ∷ []) || any is_separator name)))

abbrev pub is_of : ℕ → Stored → Bool
is_of id s = s.document_id == id

abbrev pub is_file : ℕ → Bytes → Stored → Bool
is_file id name s = s.document_id == id && bytes_eq s.name name

-- Storage.Remove on an id.
unfoldable pub remove : Faults → ℕ → List Stored → List Stored
remove f id files = if f.remove then files else filter (λ s. not (is_of id s)) files

-- What io.Copy takes of a reader through a LimitReader, and the error that it meets.
abbrev pub limited : ℕ → Stream → Bytes
limited n r = take n r.bytes

abbrev pub limited_fault : ℕ → Stream → Option ReadError
limited_fault n r = if ltb (length r.bytes) n then r.fault else none

-- Storage.Save behind the creation of the file.
unfoldable pub write_file : ℕ → Faults → ℕ → Bytes → Stream → List Stored → SaveResult × List Stored
write_file max_bytes f id name r files =
    let content = limited (suc max_bytes) r in
    let file : Stored = record { document_id = id; name = name; content = content } in
    let removed = remove f id (files ++ file ∷ []) in
    elim (limited_fault (suc max_bytes) r) [
      | some e ↦ (unsaved (not_read e), removed)
      | none ↦
          if f.close
          then (unsaved not_closed, removed)
          else if ltb max_bytes (length content)
          then (unsaved too_large, removed)
          else (
            saved (record { name = name; content = content; size = length content }),
            files ++ file ∷ [],
          )
    ]

-- Storage.Save.
unfoldable pub save : ℕ → Faults → ℕ → Bytes → Stream → List Stored → SaveResult × List Stored
save max_bytes f id name r files =
    if not (check_name name)
    then (unsaved bad_name, files)
    else if f.mkdir
    then (unsaved no_directory, files)
    else if f.create || any (is_file id name) files
    then (unsaved no_file, files)
    else write_file max_bytes f id name r files
