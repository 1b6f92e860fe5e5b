-- ===== src/Api/Upload.antt =====
-- internal/api/documents.go: the upload of a document. A request is the list of its parts and what follows
-- them; one that is not multipart is refused before and is left out. An id is made by the caller. The
-- producer, the clock and what fails in the file system and the store are inputs.
pub mod Held
pub mod Atomic
use incident_diag.Base.{
  ℕ, zero, suc, ◌+◌, ◌-◌, Bool, true, false, not, ◌&&◌, ◌||◌, List, [], ◌∷◌, ◌++◌, Option, none,
  some, any, length, ltb, leb, ◌==◌, if◌then◌else◌, is_empty, Bytes, bytes_eq,
}
use incident_diag.Store.Errors
use incident_diag.Store.Errors.{Kind, DriverError}
use incident_diag.Store.Rows.{Db, Document, DocumentType, Format, markdown}
use incident_diag.Store.Documents.{NewDocument, create_document}
use incident_diag.Files.{
  Stored, Saved, ReadError, over_limit, broken, Stream, Faults, SaveError, too_large, not_read,
  SaveResult, saved, unsaved, remove, limited_fault, save,
}
use incident_diag.Api.Validation.{
  Code, required, too_long, invalid_value, Validation, no_problems, Failure, err,
}
use incident_diag.Api.Fields.{
  max_form_value_len, file_name, document_type_name, service_name, document_type_of, form_value,
  complain, accept_filename, optional_service,
}

pub data Part : Type 0 where
  file : Bytes → Stream → Part
  document_type service : Stream → Part
  unknown : Part

-- A request body: its parts, and whether reading behind them ends with an error.
pub record Body : Type 0 where
  pub parts : List Part
  pub fault : Option ReadError

-- uploadedDocument.
pub record Uploaded : Type 0 where
  pub format : Format
  pub saved : Option Saved
  pub document_type : Option DocumentType
  pub service : Option Bytes

abbrev pub nothing_uploaded : Uploaded
nothing_uploaded = record { format = markdown; saved = none; document_type = none; service = none }

-- Why an upload is refused.
pub data Refusal : Type 0 where
  file_too_large invalid_body : Refusal
  not_saved : SaveError → Refusal
  invalid : Failure → Refusal
  not_created : Kind → Refusal

-- What readUpload returns.
pub data ReadUpload : Type 0 where
  uploaded : Uploaded → Validation → ReadUpload
  refused : Refusal → ReadUpload

-- invalidBody.
unfoldable pub invalid_body_of : ReadError → Refusal
invalid_body_of over_limit = file_too_large
invalid_body_of broken = invalid_body

-- The answer to an error of Save.
unfoldable pub save_refusal : SaveError → Refusal
save_refusal too_large = file_too_large
save_refusal (not_read over_limit) = file_too_large
save_refusal e = not_saved e

-- What a request changes: the files, the database, and the ids that workers are asked to ingest.
pub record State : Type 0 where
  pub files : List Stored
  pub db : Db
  pub sent : List ℕ

pub data Response : Type 0 where
  created : Document → Response
  rejected : Refusal → Response
  crashed : Response

module _ (rune_count : Bytes → ℕ) (message : Code → Bytes → Bytes) where
  module _ (max_bytes : ℕ) (f : Faults) (id : ℕ) where
    abbrev pub Going : Type 0
    Going = Uploaded → Validation → List Stored → ReadUpload × List Stored

    -- What follows Save.
    abbrev pub saved_file :
        Going → Format → Uploaded → Validation → SaveResult × List Stored → ReadUpload × List Stored
    saved_file again format up v (unsaved e, files) = (refused (save_refusal e), files)
    saved_file again format up v (saved s, files) =
        again (record up { format = format; saved = some s }) v files

    -- A file part, in front of the parts behind it.
    unfoldable pub read_file : Going → Bytes → Stream → Going
    read_file again raw r up v files = elim up.saved [
      | some _ ↦ again up (complain rune_count message invalid_value file_name v) files
      | none ↦ elim (accept_filename rune_count message raw v).1 [
        | none ↦ again up (accept_filename rune_count message raw v).0 files
        | some (name, format) ↦
            saved_file again format up (accept_filename rune_count message raw v).0
              (save max_bytes f id name r files)
      ]
    ]

    -- A part with a value, in front of what is done with it.
    unfoldable pub read_value : (Option Bytes → Going) → Stream → Going
    read_value use_value r up v files = elim (limited_fault (suc max_form_value_len) r) [
      | some e ↦ (refused (invalid_body_of e), remove f id files)
      | none ↦ use_value (form_value r) up v files
    ]

    unfoldable pub use_document_type : Going → Option Bytes → Going
    use_document_type again none up v files =
        again up (complain rune_count message too_long document_type_name v) files
    use_document_type again (some s) up v files = elim (document_type_of s) [
      | none ↦ again up (complain rune_count message invalid_value document_type_name v) files
      | some t ↦ again (record up { document_type = some t }) v files
    ]

    unfoldable pub use_service : Going → Option Bytes → Going
    use_service again none up v files =
        again up (complain rune_count message too_long service_name v) files
    use_service again (some s) up v files =
        again (record up { service = (optional_service rune_count message s v).1 })
          (optional_service rune_count message s v).0 files

    -- The loop of readUpload.
    unfoldable pub read_parts : Option ReadError → List Part → Going
    read_parts none [] up v files = (uploaded up v, files)
    read_parts (some e) [] up v files = (refused (invalid_body_of e), remove f id files)
    read_parts e (file name r ∷ ps) up v files = read_file (read_parts e ps) name r up v files
    read_parts e (document_type r ∷ ps) up v files =
        read_value (use_document_type (read_parts e ps)) r up v files
    read_parts e (service r ∷ ps) up v files =
        read_value (use_service (read_parts e ps)) r up v files
    read_parts e (unknown ∷ ps) up v files = read_parts e ps up v files

    -- readUpload.
    unfoldable pub read_upload : Body → List Stored → ReadUpload × List Stored
    unfolding read_parts
    read_upload b files = read_parts b.fault b.parts nothing_uploaded no_problems files

    abbrev pub need : {A : Type 0} → Option A → Bytes → Validation → Validation
    need none name v = complain rune_count message required name v
    need (some _) name v = v

    -- uploadDocument behind the reading, which adds what is missing.
    unfoldable pub completed : Uploaded → Validation → Validation
    completed up v = need up.document_type document_type_name (need up.saved file_name v)

    -- The row, with what its INSERT meets, and the message, which the producer takes or not.
    module _ (digest : Bytes → Bytes) (path_of : ℕ → Bytes → Bytes) (now : ℕ)
        (fault : Option DriverError) (is_produced : Bool) where
      abbrev pub row_of : Uploaded → Saved → DocumentType → NewDocument
      row_of up s t = record {
        id = some id;
        filename = s.name;
        storage_path = path_of id s.name;
        format = up.format;
        size_bytes = s.size;
        content_sha256 = digest s.content;
        service = up.service;
        document_type = t;
      }

      abbrev pub inserted : Errors.Result Document × Db → State → Response × State
      inserted (Errors.ok d, db) st = (
        created d,
        record st { db = db; sent = if is_produced then st.sent ++ d.id ∷ [] else st.sent },
      )
      inserted (Errors.err k, db) st =
          (rejected (not_created k), record st { db = db; files = remove f id st.files })

      unfoldable pub insert : NewDocument → State → Response × State
      insert n st = inserted (create_document now fault n st.db) st

      -- A nil file, or an empty type, at the end of the checks would be a crash.
      unfoldable pub insert_upload : Uploaded → State → Response × State
      insert_upload up st = elim up.saved [
        | none ↦ (crashed, st)
        | some s ↦ elim up.document_type [
          | none ↦ (crashed, st)
          | some t ↦ insert (row_of up s t) st
        ]
      ]

      unfoldable pub finish_upload : ReadUpload → State → Response × State
      finish_upload (refused e) st = (rejected e, st)
      finish_upload (uploaded up v) st = elim (err (completed up v)) [
        | some problems ↦ (rejected (invalid problems), record st { files = remove f id st.files })
        | none ↦ insert_upload up st
      ]

      -- Server.uploadDocument.
      unfoldable pub upload_document : Body → State → Response × State
      upload_document b st =
          let (read, files) = read_upload b st.files in
          finish_upload read (record st { files = files })
