-- ===== src/Worker/Report/Written.antt =====
-- internal/agentrun/report.go: what a reported step leaves in the database and tells the stream.
use incident_diag.Base.{ℕ, zero, suc, ◌≡◌, List, [], ◌∷◌, ◌++◌, Option, none, some, Bytes, All}
use incident_diag.Store.Errors.{Result, ok, err, Kind}
use incident_diag.Store.Rows
use incident_diag.Store.Rows.{Db, Document}
use incident_diag.Store.Audit.{NewEvidence, new_step, new_tool_call, new_evidence}
use incident_diag.Agent.Types.{Action, Evidence, Step, StepRef, ToolRow}
use incident_diag.Worker.Report.{
  Writes, Completed, Reported, optional_id, live_id, new_row, step_row, call_row,
}
use incident_diag.Worker.Report.Live.{existing}

-- The rows of an optional tool call, and its id in the loop.
abbrev pub call_rows : Option Rows.ToolCall → List Rows.ToolCall
call_rows none = []
call_rows (some c) = c ∷ []

abbrev pub call_ref : (ℕ → Bytes) → Option Rows.ToolCall → Bytes
call_ref text none = []
call_ref text (some c) = text c.id

-- The tables behind the rows of a step.
abbrev pub with_rows : Db → Completed → Db
with_rows db c = record db {
  steps = db.steps ++ c.step ∷ [];
  tool_calls = db.tool_calls ++ call_rows c.tool_call;
  evidence = db.evidence ++ c.evidence;
}

module _ (number : Bytes → ℕ) (text : ℕ → Bytes) (encoded : Action → Bytes) (w : Writes) (s : Step)
    (db : Db) where
  -- The rows that a step stands for: a cited document is named if it is there.
  abbrev cited_row : Evidence → NewEvidence
  cited_row e = record (new_row number (number s.run_id) [] e) {
    document_id = existing db.documents (optional_id number e.document_id);
  }

  abbrev evidence_rows : ℕ → List Evidence → List Rows.Evidence
  evidence_rows i [] = []
  evidence_rows i (e ∷ es) =
      new_evidence (w.evidence_id i) (w.evidence_at i) (cited_row e) ∷ evidence_rows (suc i) es

  abbrev step_call : Option ToolRow → Option Rows.ToolCall
  step_call none = none
  step_call (some t) =
      some (new_tool_call w.call_id w.call_at (call_row (number s.run_id) w.step_id t))

  abbrev step_written : Rows.Step
  step_written = new_step w.step_id w.step_at (step_row number encoded s)

  abbrev completed_with : Option ToolRow → Completed
  completed_with t = record {
    step = step_written;
    tool_call = step_call t;
    evidence = evidence_rows zero s.evidence;
  }

  abbrev pub completed : Completed
  completed = completed_with s.tool_call

  abbrev ref_with : Option ToolRow → StepRef
  ref_with t = record { step_id = text step_written.id; tool_call_id = call_ref text (step_call t) }

  abbrev pub IsWritten : Option ToolRow → Reported → Type 0
  IsWritten t r = elim r.published [
    | none ↦ (k : Kind) × (r.ref ≡ err k)
    | some c ↦
        (c ≡ completed_with t)
        × (r.ref ≡ ok (ref_with t))
        × (r.db ≡ with_rows db (completed_with t))
  ]

  abbrev IsAdded : ℕ → List Evidence → Db → Result (List Rows.Evidence) × Db → Type 0
  IsAdded i es before (ok rows, after) =
      (rows ≡ evidence_rows i es)
      × (after ≡ record before { evidence = before.evidence ++ evidence_rows i es })
  IsAdded i es before (err k, after) = Unit

  abbrev Agrees : List ℕ → List Evidence → Type 0
  Agrees live es =
      All
        (λ e.
          live_id live (optional_id number e.document_id)
          ≡ existing db.documents (optional_id number e.document_id))
        es

  abbrev before_evidence : Option ToolRow → Db
  before_evidence t = record db {
    steps = db.steps ++ step_written ∷ [];
    tool_calls = db.tool_calls ++ call_rows (step_call t);
  }
