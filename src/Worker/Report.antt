-- ===== src/Worker/Report.antt =====
-- internal/agentrun/report.go: what the worker writes for one step of an investigation. Ids are texts
-- in the loop and numbers in the store: `number` reads one, `text` writes one, and `encoded` is the JSON
-- of an action.
pub mod Written
pub mod Live
use incident_diag.Base.{
  ℕ, zero, suc, Bool, true, false, ◌||◌, List, [], ◌∷◌, Option, none, some, any, ◌==◌,
  if◌then◌else◌, is_empty, Bytes,
}
use incident_diag.Store.Errors.{Result, ok, err, Kind, DriverError}
use incident_diag.Store.Rows
use incident_diag.Store.Rows.{Db}
use incident_diag.Store.Listings.{existing_documents}
use incident_diag.Store.Audit.{
  NewStep, NewToolCall, NewEvidence, create_step, create_tool_call, create_evidence,
}
use incident_diag.Agent.Types.{Action, Evidence, Step, StepRef, ToolRow}

-- The new ids, the clock's readings and the driver errors of the statements; those of the evidence
-- by its position.
pub record Writes : Type 0 where
  pub step_id : ℕ
  pub step_at : ℕ
  pub step_fault : Option DriverError
  pub call_id : ℕ
  pub call_at : ℕ
  pub call_fault : Option DriverError
  pub live_fault : Option DriverError
  pub evidence_id : ℕ → ℕ
  pub evidence_at : ℕ → ℕ
  pub evidence_fault : ℕ → Option DriverError

-- The rows that step.completed is published with.
pub record Completed : Type 0 where
  pub step : Rows.Step
  pub tool_call : Option Rows.ToolCall
  pub evidence : List Rows.Evidence

pub record Reported : Type 0 where
  pub ref : Result StepRef
  pub db : Db
  pub published : Option Completed

unfoldable pub live_id : List ℕ → Option ℕ → Option ℕ
live_id live none = none
live_id live (some d) = if any (λ i. i == d) live then some d else none

unfoldable pub call_row : ℕ → ℕ → ToolRow → NewToolCall
call_row run_id step_id t = record {
  run_id = run_id;
  step_id = step_id;
  tool_name = t.name;
  arguments = t.arguments;
  status = t.status;
  result = t.result;
  error = t.error;
  duration = t.duration;
}

module _ (number : Bytes → ℕ) where
  abbrev pub optional_id : Bytes → Option ℕ
  optional_id s = if is_empty s then none else some (number s)

  -- The documents that the evidence cites, each once.
  unfoldable pub cited_from : List ℕ → List Evidence → List ℕ
  cited_from seen [] = []
  cited_from seen (e ∷ es) =
      let id = number e.document_id in
      elim (is_empty e.document_id || any (λ i. i == id) seen) [
        | true ↦ cited_from seen es
        | false ↦ id ∷ cited_from (id ∷ seen) es
      ]

  unfoldable pub live_documents : Option DriverError → List Evidence → Db → Result (List ℕ)
  live_documents fault es db = existing_documents fault (cited_from [] es) db

  unfoldable pub new_row : ℕ → List ℕ → Evidence → NewEvidence
  new_row run_id live e = record {
    run_id = run_id;
    step_id = number e.step_id;
    tool_call_id = optional_id e.tool_call_id;
    source_type = e.source_type;
    source_ref = e.source_ref;
    document_id = live_id live (optional_id e.document_id);
    summary = e.summary;
    note = e.note;
  }

  unfoldable pub step_row : (Action → Bytes) → Step → NewStep
  step_row encoded s = record {
    run_id = number s.run_id;
    step_number = s.step_number;
    action_type = s.action_type;
    action = encoded s.action;
    observation = s.observation;
    status = s.status;
    error = s.error;
    duration = s.duration;
  }

with_row : Rows.Evidence → Result (List Rows.Evidence) × Db → Result (List Rows.Evidence) × Db
with_row row (ok rows, db) = (ok (row ∷ rows), db)
with_row row (err k, db) = (err k, db)

-- `if err != nil` behind a row, or the rows that follow it.
and_write :
    Result Rows.Evidence × Db
    → (Db → Result (List Rows.Evidence) × Db)
    → Result (List Rows.Evidence) × Db
unfolding with_row
and_write (err k, db) rest = (err k, db)
and_write (ok row, db) rest = with_row row (rest db)

refused : Kind → Db → Reported
refused k db = record { ref = err k; db = db; published = none }

module _ (number : Bytes → ℕ) (text : ℕ → Bytes) (encoded : Action → Bytes) (w : Writes)
    (s : Step) where
  -- The loop over the evidence, from a position. It ends at the first row that is not written.
  unfoldable pub write_evidence : List ℕ → ℕ → List Evidence → Db → Result (List Rows.Evidence) × Db
  unfolding and_write
  write_evidence live i [] db = (ok [], db)
  write_evidence live i (e ∷ es) db =
      and_write
        (create_evidence (w.evidence_id i) (w.evidence_at i) (w.evidence_fault i)
          (new_row number (number s.run_id) live e) db)
        (λ after. write_evidence live (suc i) es after)

  after_evidence :
      StepRef → Rows.Step → Option Rows.ToolCall → Result (List Rows.Evidence) × Db → Reported
  unfolding refused
  after_evidence ref row call (ok rows, db) = record {
    ref = ok ref;
    db = db;
    published = some (record { step = row; tool_call = call; evidence = rows });
  }
  after_evidence ref row call (err k, db) = refused k db

  after_live : StepRef → Rows.Step → Option Rows.ToolCall → Result (List ℕ) → Db → Reported
  unfolding after_evidence
  after_live ref row call (ok live) db =
      after_evidence ref row call (write_evidence live zero s.evidence db)
  after_live ref row call (err k) db = refused k db

  with_evidence : StepRef → Rows.Step → Option Rows.ToolCall → Db → Reported
  unfolding after_live
  with_evidence ref row call db =
      after_live ref row call (live_documents number w.live_fault s.evidence db) db

  after_call : Rows.Step → Result Rows.ToolCall × Db → Reported
  unfolding with_evidence
  after_call row (ok call, db) =
      with_evidence (record { step_id = text row.id; tool_call_id = text call.id }) row (some call)
        db
  after_call row (err k, db) = refused k db

  with_call : Rows.Step → Option ToolRow → Db → Reported
  unfolding after_call
  with_call row none db =
      with_evidence (record { step_id = text row.id; tool_call_id = [] }) row none db
  with_call row (some t) db =
      after_call row
        (create_tool_call w.call_id w.call_at w.call_fault (call_row (number s.run_id) row.id t) db)

  after_step : Result Rows.Step × Db → Reported
  unfolding with_call
  after_step (ok row, db) = with_call row s.tool_call db
  after_step (err k, db) = refused k db

  -- Handler.ReportStep.
  unfoldable pub report_step : Db → Reported
  unfolding after_step
  report_step db =
      after_step (create_step w.step_id w.step_at w.step_fault (step_row number encoded s) db)
