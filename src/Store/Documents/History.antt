-- ===== src/Store/Documents/History.antt =====
-- The calls that change the documents table, in any order and with any faults.
use incident_diag.Base.{ℕ, List, [], ◌∷◌, Option, Bytes}
use incident_diag.Store.Errors.{DriverError}
use incident_diag.Store.Rows.{Db}
use incident_diag.Store.Documents.{
  NewDocument, create_document, claim_document, mark_document_ready, mark_document_failed,
}

pub data Call : Type 0 where
  creates : ℕ → Option DriverError → NewDocument → Call
  claims : Option DriverError → ℕ → ℕ → ℕ → Call
  readies : Option DriverError → ℕ → ℕ → ℕ → Call
  fails : Option DriverError → ℕ → Bytes → ℕ → Call

unfoldable pub apply : Call → Db → Db
apply (creates now fault n) db = (create_document now fault n db).1
apply (claims fault id lease now) db = (claim_document fault id lease now db).1
apply (readies fault id chunks now) db = (mark_document_ready fault id chunks now db).1
apply (fails fault id reason now) db = (mark_document_failed fault id reason now db).1

-- The database after a sequence of calls, the first one first.
unfoldable pub replay : List Call → Db → Db
replay [] db = db
replay (c ∷ cs) db = replay cs (apply c db)
