-- ===== src/Store/Audit/History.antt =====
-- The calls that change any table of the store, in any order and with any faults.
use incident_diag.Base.{ℕ, List, [], ◌∷◌, Option}
use incident_diag.Store.Errors.{DriverError}
use incident_diag.Store.Rows.{Db}
use incident_diag.Store.Runs.History as RunHistory
use incident_diag.Store.Documents.History as DocumentHistory
use incident_diag.Store.Incidents.{NewIncident, create_incident}
use incident_diag.Store.Audit.{
  NewStep, NewToolCall, NewEvidence, create_step, create_tool_call, create_evidence,
}

pub data Change : Type 0 where
  on_incidents : ℕ → ℕ → Option DriverError → NewIncident → Change
  on_runs : RunHistory.Call → Change
  on_documents : DocumentHistory.Call → Change
  on_steps : ℕ → ℕ → Option DriverError → NewStep → Change
  on_calls : ℕ → ℕ → Option DriverError → NewToolCall → Change
  on_evidence : ℕ → ℕ → Option DriverError → NewEvidence → Change

unfoldable pub change : Change → Db → Db
change (on_incidents id now fault n) db = (create_incident id now fault n db).1
change (on_runs c) db = RunHistory.apply c db
change (on_documents c) db = DocumentHistory.apply c db
change (on_steps id now fault n) db = (create_step id now fault n db).1
change (on_calls id now fault n) db = (create_tool_call id now fault n db).1
change (on_evidence id now fault n) db = (create_evidence id now fault n db).1

-- The database after a sequence of calls, the first one first.
unfoldable pub changes : List Change → Db → Db
changes [] db = db
changes (c ∷ cs) db = changes cs (change c db)
