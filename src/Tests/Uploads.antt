-- ===== src/Tests/Uploads.antt =====
-- internal/api/documents.go on a request of two parts, the type behind the file.
use incident_diag.Base.{ℕ, ◌≡◌, refl, true, false, [], ◌∷◌, none, length, Bytes, bytes_eq}
use incident_diag.Text.{codes}
use incident_diag.Text.Space.{trim_space}
use incident_diag.Store.Documents.{create_document}
use incident_diag.Files.{Stream, Faults, check_name, write_file, save}
use incident_diag.Api.Validation.{Code, err}
use incident_diag.Api.Fields.{document_type_of, form_value, accept_filename}
use incident_diag.Api.Upload.{
  file, document_type, Body, State, read_file, read_value, use_document_type, read_upload, insert,
  completed, insert_upload, finish_upload, upload_document,
}
use incident_diag.Api.Upload.Atomic.{IsUploaded, upload_document-IsUploaded}

abbrev to_stream : Bytes → Stream
to_stream s = record { bytes = s; fault = none }

abbrev two_parts : Body
two_parts = record {
  parts =
      file (codes "a.md") (to_stream (codes "text"))
      ∷ document_type (to_stream (codes "runbook"))
      ∷ [];
  fault = none;
}

abbrev no_faults : Faults
no_faults = record { mkdir = false; create = false; close = false; remove = false }

abbrev no_message : Code → Bytes → Bytes
no_message c name = []

abbrev join_path : ℕ → Bytes → Bytes
join_path id name = id ∷ 47 ∷ name

abbrev empty_state : State
empty_state = record {
  files = [];
  db = record {
    incidents = [];
    runs = [];
    steps = [];
    tool_calls = [];
    evidence = [];
    documents = [];
  };
  sent = [];
}

abbrev same_bytes : Bytes → Bytes
same_bytes s = s

upload_two :
    (upload_document length no_message 9 no_faults 7 same_bytes join_path 100 none true two_parts
      empty_state).1.files
    ≡ record { document_id = 7; name = codes "a.md"; content = codes "text" } ∷ []
unfolding upload_document finish_upload insert_upload completed read_upload read_file
    accept_filename trim_space bytes_eq save check_name write_file read_value use_document_type
    form_value document_type_of err insert create_document
upload_two = refl

upload_document-IsUploaded_example :
    IsUploaded length no_message 9 no_faults 7 same_bytes join_path 100 none true empty_state refl
      refl
      (upload_document length no_message 9 no_faults 7 same_bytes join_path 100 none true two_parts
        empty_state)
upload_document-IsUploaded_example =
    upload_document-IsUploaded length no_message 9 no_faults 7 same_bytes join_path 100 none true
      empty_state refl refl two_parts
