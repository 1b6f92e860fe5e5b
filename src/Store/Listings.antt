-- ===== src/Store/Listings.antt =====
-- internal/store: the listings of runs, documents, steps, tool calls and evidence, and the check of
-- which documents exist.
use incident_diag.Base.{
  ℕ, Bool, true, false, ◌&&◌, List, [], ◌∷◌, map, Option, none, some, any, filter, ◌==◌, Bytes,
}
use incident_diag.Store.Errors.{Result, ok, err, DriverError, db_error}
use incident_diag.Store.Rows.{Db, Run, Document, DocumentType, Step, ToolCall, Evidence}
use incident_diag.Store.Page.{Page, PageParams, list_page}
use incident_diag.Store.Candidates.Order.{order_by}

unfoldable pub list_runs_by_incident : Option DriverError → ℕ → PageParams → Db → Result (Page Run)
list_runs_by_incident (some e) incident_id p db = err (db_error e)
list_runs_by_incident none incident_id p db =
    ok (list_page (λ (r : Run). r.id) (λ r. r.incident_id == incident_id) p db.runs)

-- "" in the filter, which selects all, is `none`.
pub record DocumentFilter : Type 0 where
  pub service : Option Bytes
  pub document_type : Option DocumentType

abbrev pub same_type : DocumentType → DocumentType → Bool
same_type DocumentType.runbook DocumentType.runbook = true
same_type DocumentType.postmortem DocumentType.postmortem = true
same_type DocumentType.service_doc DocumentType.service_doc = true
same_type _ _ = false

abbrev pub has_type : Option DocumentType → Document → Bool
has_type none d = true
has_type (some t) d = same_type t d.document_type

-- Texts are compared by the collation of the column, which ignores case and accents.
module _ (same_text : Bytes → Bytes → Bool) where
  -- A NULL column equals nothing.
  abbrev pub has_service : Option Bytes → Document → Bool
  has_service none d = true
  has_service (some s) d = elim d.service [ none ↦ false | some t ↦ same_text t s ]

  unfoldable pub list_documents :
      Option DriverError → DocumentFilter → PageParams → Db → Result (Page Document)
  list_documents (some e) f p db = err (db_error e)
  list_documents none f p db = ok (
      list_page (λ (d : Document). d.id)
        (λ d. has_service f.service d && has_type f.document_type d) p db.documents)

-- The keys of the map that is returned. An empty list of ids asks nothing of the database.
unfoldable pub existing_documents : Option DriverError → List ℕ → Db → Result (List ℕ)
existing_documents fault [] db = ok []
existing_documents (some e) (i ∷ ids) db = err (db_error e)
existing_documents none (i ∷ ids) db =
    ok (map (λ (d : Document). d.id) (filter (λ d. any (λ j. j == d.id) (i ∷ ids)) db.documents))

unfoldable pub list_steps_by_run : Option DriverError → ℕ → Db → Result (List Step)
list_steps_by_run (some e) run_id db = err (db_error e)
list_steps_by_run none run_id db =
    ok (order_by (λ (s : Step). s.step_number) (filter (λ s. s.run_id == run_id) db.steps))

unfoldable pub list_tool_calls_by_run : Option DriverError → ℕ → Db → Result (List ToolCall)
list_tool_calls_by_run (some e) run_id db = err (db_error e)
list_tool_calls_by_run none run_id db =
    ok (order_by (λ (c : ToolCall). c.id) (filter (λ c. c.run_id == run_id) db.tool_calls))

unfoldable pub list_evidence_by_run : Option DriverError → ℕ → Db → Result (List Evidence)
list_evidence_by_run (some e) run_id db = err (db_error e)
list_evidence_by_run none run_id db =
    ok (order_by (λ (e : Evidence). e.id) (filter (λ e. e.run_id == run_id) db.evidence))
