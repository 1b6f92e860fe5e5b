-- ===== src/Tests/Documents.antt =====
-- internal/store/documents.go on one document.
use incident_diag.Base.{List, [], ◌∷◌, none, some}
use incident_diag.Store.Rows.{Db, Document, DocumentStatus, DocumentType, Format}
use incident_diag.Store.Documents.{NewDocument, claimed_document, ready_document}
use incident_diag.Store.Documents.History.{Call, creates, claims, readies, fails}

abbrev no_documents : Db
no_documents = record {
  incidents = [];
  runs = [];
  steps = [];
  tool_calls = [];
  evidence = [];
  documents = [];
}

abbrev upload : NewDocument
upload = record {
  id = some 5;
  filename = 97 ∷ [];
  storage_path = 98 ∷ [];
  format = Format.markdown;
  size_bytes = 120;
  content_sha256 = [];
  service = none;
  document_type = DocumentType.runbook;
}

-- Document 5, FAILED once at time 100.
abbrev pub failed_once : Document
failed_once = record {
  id = 5;
  filename = 97 ∷ [];
  storage_path = 98 ∷ [];
  format = Format.markdown;
  size_bytes = 120;
  content_sha256 = [];
  service = none;
  document_type = DocumentType.runbook;
  status = DocumentStatus.failed;
  failure_reason = some (101 ∷ []);
  chunk_count = 0;
  attempts = 1;
  processing_started_at = some 90;
  created_at = 80;
  updated_at = 100;
}

abbrev pub one_document : Db
one_document = record no_documents { documents = failed_once ∷ [] }

abbrev ready : Document
ready = ready_document 130 4 (claimed_document 120 failed_once)

abbrev ready_db : Db
ready_db = record no_documents { documents = ready ∷ [] }

-- A late duplicate of every kind.
abbrev duplicates : List Call
duplicates =
    claims none 5 50 900 ∷ fails none 5 [] 910 ∷ readies none 5 9 920 ∷ creates 930 none upload ∷ []
