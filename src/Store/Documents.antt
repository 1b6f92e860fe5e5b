-- ===== src/Store/Documents.antt =====
-- internal/store/documents.go: the ingestion state of an uploaded document. As for runs, an operation
-- takes the clock's reading and the driver error that keeps its statement from running, if any.
pub mod History
pub mod Claim
pub mod Ready
use incident_diag.Base.{
  ℕ, ◌+◌, Bool, true, false, ◌&&◌, ◌||◌, List, [], ◌∷◌, ◌++◌, Option, none, some, any, ltb, ◌==◌,
  if◌then◌else◌, Bytes,
}
use incident_diag.Store.Errors.{
  Result, ok, err, internal, not_found, DriverError, duplicate_entry, primary, db_error,
}
use incident_diag.Store.Table.{update_where, find}
use incident_diag.Store.Rows.{Db, Document, DocumentStatus, DocumentType, Format}
use incident_diag.Store.Runs.{is_before}

-- An empty id, which is refused, is `none`.
pub record NewDocument : Type 0 where
  pub id : Option ℕ
  pub filename : Bytes
  pub storage_path : Bytes
  pub format : Format
  pub size_bytes : ℕ
  pub content_sha256 : Bytes
  pub service : Option Bytes
  pub document_type : DocumentType

abbrev pub has_id : ℕ → Document → Bool
has_id id d = d.id == id

-- DocumentPending and DocumentFailed, the statuses of the claim's `IN`.
abbrev pub is_waiting : DocumentStatus → Bool
is_waiting DocumentStatus.pending = true
is_waiting DocumentStatus.failed = true
is_waiting DocumentStatus.processing = false
is_waiting DocumentStatus.ready = false

abbrev pub is_processing : DocumentStatus → Bool
is_processing DocumentStatus.processing = true
is_processing DocumentStatus.pending = false
is_processing DocumentStatus.failed = false
is_processing DocumentStatus.ready = false

pub new_document : ℕ → ℕ → NewDocument → Document
new_document id now n = record {
  id = id;
  filename = n.filename;
  storage_path = n.storage_path;
  format = n.format;
  size_bytes = n.size_bytes;
  content_sha256 = n.content_sha256;
  service = n.service;
  document_type = n.document_type;
  status = DocumentStatus.pending;
  failure_reason = none;
  chunk_count = 0;
  attempts = 0;
  processing_started_at = none;
  created_at = now;
  updated_at = now;
}

-- The INSERT fails on the way, or on a primary key that is taken.
insert_document : ℕ → Option DriverError → Document → Db → Result Document × Db
insert_document id (some e) d db = (err (db_error e), db)
insert_document id none d db =
    if any (has_id id) db.documents
    then (err (db_error (duplicate_entry primary)), db)
    else (ok d, record db { documents = db.documents ++ d ∷ [] })

with_id : Option ℕ → ℕ → Option DriverError → NewDocument → Db → Result Document × Db
unfolding insert_document new_document
with_id none now fault n db = (err internal, db)
with_id (some id) now fault n db = insert_document id fault (new_document id now n) db

unfoldable pub create_document : ℕ → Option DriverError → NewDocument → Db → Result Document × Db
unfolding with_id
create_document now fault n db = with_id n.id now fault n db

or_not_found : Option Document → Result Document
or_not_found none = err not_found
or_not_found (some d) = ok d

unfoldable pub get_document : ℕ → Option DriverError → Db → Result Document
unfolding or_not_found find
get_document id none db = or_not_found (find (has_id id) db.documents)
get_document id (some e) db = err (db_error e)

-- The condition of ClaimDocument's UPDATE.
abbrev pub is_claimable : ℕ → ℕ → Document → Bool
is_claimable lease now d =
    is_waiting d.status || (is_processing d.status && is_before d.processing_started_at lease now)

unfoldable pub claimed_document : ℕ → Document → Document
claimed_document now d = record d {
  status = DocumentStatus.processing;
  attempts = d.attempts + 1;
  processing_started_at = some now;
  updated_at = now;
}

unfoldable pub ready_document : ℕ → ℕ → Document → Document
ready_document now chunks d = record d {
  status = DocumentStatus.ready;
  chunk_count = chunks;
  failure_reason = none;
  updated_at = now;
}

unfoldable pub failed_document : ℕ → Bytes → Document → Document
failed_document now reason d = record d {
  status = DocumentStatus.failed;
  failure_reason = some reason;
  updated_at = now;
}

-- One conditional UPDATE, and whether it changed a row.
update_document :
    Option DriverError → (Document → Bool) → (Document → Document) → Db → Result Bool × Db
update_document (some e) p f db = (err (db_error e), db)
update_document none p f db =
    (ok (any p db.documents), record db { documents = update_where p f db.documents })

unfoldable pub claim_document : Option DriverError → ℕ → ℕ → ℕ → Db → Result Bool × Db
unfolding update_document
claim_document fault id lease now db =
    update_document fault (λ d. has_id id d && is_claimable lease now d) (claimed_document now) db

unfoldable pub mark_document_ready : Option DriverError → ℕ → ℕ → ℕ → Db → Result Bool × Db
unfolding update_document
mark_document_ready fault id chunks now db =
    update_document fault (λ d. has_id id d && is_processing d.status) (ready_document now chunks)
      db

unfoldable pub mark_document_failed : Option DriverError → ℕ → Bytes → ℕ → Db → Result Bool × Db
unfolding update_document
mark_document_failed fault id reason now db =
    update_document fault (λ d. has_id id d && is_processing d.status) (failed_document now reason)
      db
