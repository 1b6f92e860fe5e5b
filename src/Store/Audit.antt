-- ===== src/Store/Audit.antt =====
-- internal/store/steps.go, tool_calls.go and evidence.go: the rows that an investigation leaves. Each
-- operation takes the id and the clock's reading of the new row, and the driver error that keeps its
-- INSERT from running, if any: one of these is a text that is too long for its column. A
-- duration is a count of microseconds.
pub mod Refers
pub mod Cases
pub mod Kept
pub mod History
pub mod Sound
use incident_diag.Base.{
  ℕ, ◌/◌, Bool, true, ◌&&◌, List, [], ◌∷◌, ◌++◌, Option, none, some, any, ◌==◌, if◌then◌else◌,
  is_empty, Bytes,
}
use incident_diag.Store.Errors.{
  Result, ok, err, DriverError, duplicate_entry, mysql_error, primary, uniq_step_number, db_error,
}
use incident_diag.Store.Rows.{
  Db, Run, Document, Step, ActionType, StepStatus, ToolCall, ToolCallStatus, Evidence, SourceType,
}
use incident_diag.Store.Runs
use incident_diag.Store.Documents
use incident_diag.Summary.{cap, Capped}

pub record NewStep : Type 0 where
  pub run_id : ℕ
  pub step_number : ℕ
  pub action_type : ActionType
  pub action : Bytes
  pub observation : Bytes
  pub status : StepStatus
  pub error : Bytes
  pub duration : ℕ

pub record NewToolCall : Type 0 where
  pub run_id : ℕ
  pub step_id : ℕ
  pub tool_name : Bytes
  pub arguments : Bytes
  pub status : ToolCallStatus
  pub result : Bytes
  pub error : Bytes
  pub duration : ℕ

-- "" for the ids of a tool call and of a document is `none`.
pub record NewEvidence : Type 0 where
  pub run_id : ℕ
  pub step_id : ℕ
  pub tool_call_id : Option ℕ
  pub source_type : SourceType
  pub source_ref : Bytes
  pub document_id : Option ℕ
  pub summary : Bytes
  pub note : Bytes

-- `if s != "" { row.Field = &s }`.
unfoldable pub unless_empty : Bytes → Option Bytes
unless_empty s = if is_empty s then none else some s

abbrev pub has_step_id : ℕ → Step → Bool
has_step_id id s = s.id == id

abbrev pub has_call_id : ℕ → ToolCall → Bool
has_call_id id c = c.id == id

abbrev pub has_evidence_id : ℕ → Evidence → Bool
has_evidence_id id e = e.id == id

abbrev pub has_number : ℕ → ℕ → Step → Bool
has_number run_id number s = s.run_id == run_id && s.step_number == number

-- A key that is NULL refers to nothing.
abbrev pub is_null_or {ℓ} : {A : Type ℓ} → (ℕ → A → Bool) → Option ℕ → List A → Bool
is_null_or has none rows = true
is_null_or has (some id) rows = any (has id) rows

unfoldable pub new_step : ℕ → ℕ → NewStep → Step
unfolding unless_empty
new_step id now n =
    let capped = cap n.observation in
    record {
      id = id;
      run_id = n.run_id;
      step_number = n.step_number;
      action_type = n.action_type;
      action = n.action;
      observation = unless_empty capped.text;
      observation_bytes = capped.original_bytes;
      truncated = capped.truncated;
      status = n.status;
      error = unless_empty n.error;
      duration_ms = n.duration / 1000;
      created_at = now;
    }

unfoldable pub new_tool_call : ℕ → ℕ → NewToolCall → ToolCall
unfolding unless_empty
new_tool_call id now n =
    let capped = cap n.result in
    record {
      id = id;
      run_id = n.run_id;
      step_id = n.step_id;
      tool_name = n.tool_name;
      arguments = n.arguments;
      status = n.status;
      result = unless_empty capped.text;
      result_bytes = capped.original_bytes;
      truncated = capped.truncated;
      error = unless_empty n.error;
      duration_ms = n.duration / 1000;
      created_at = now;
    }

unfoldable pub new_evidence : ℕ → ℕ → NewEvidence → Evidence
unfolding unless_empty
new_evidence id now n = record {
  id = id;
  run_id = n.run_id;
  step_id = n.step_id;
  tool_call_id = n.tool_call_id;
  source_type = n.source_type;
  source_ref = n.source_ref;
  document_id = n.document_id;
  summary = n.summary;
  note = unless_empty n.note;
  created_at = now;
}

-- The constraints of agent_steps: NOT NULL on action, where nullJSON turns an empty text into NULL
-- (error 1048), the keys, and the foreign key (error 1452).
unfoldable pub step_error : Step → Db → Option DriverError
step_error s db =
    if is_empty s.action
    then some (mysql_error 1048)
    else if any (has_step_id s.id) db.steps
    then some (duplicate_entry primary)
    else if any (has_number s.run_id s.step_number) db.steps
    then some (duplicate_entry uniq_step_number)
    else if any (Runs.has_id s.run_id) db.runs
    then none
    else some (mysql_error 1452)

unfoldable pub call_error : ToolCall → Db → Option DriverError
call_error c db =
    if is_empty c.arguments
    then some (mysql_error 1048)
    else if any (has_call_id c.id) db.tool_calls
    then some (duplicate_entry primary)
    else if any (Runs.has_id c.run_id) db.runs && any (has_step_id c.step_id) db.steps
    then none
    else some (mysql_error 1452)

unfoldable pub evidence_error : Evidence → Db → Option DriverError
evidence_error e db =
    if any (has_evidence_id e.id) db.evidence
    then some (duplicate_entry primary)
    else if any (Runs.has_id e.run_id) db.runs
        && (any (has_step_id e.step_id) db.steps
            && (is_null_or has_call_id e.tool_call_id db.tool_calls
                && is_null_or Documents.has_id e.document_id db.documents))
    then none
    else some (mysql_error 1452)

-- What ExecContext reports: a fault on the way, or else a violated constraint.
exec {ℓ} :
    {A : Type ℓ} → Option DriverError → (A → Db → Option DriverError) → A → Db → Option DriverError
exec (some e) violated row db = some e
exec none violated row db = violated row db

unfoldable pub create_step : ℕ → ℕ → Option DriverError → NewStep → Db → Result Step × Db
unfolding exec
create_step id now fault n db =
    let s = new_step id now n in
    elim (exec fault step_error s db) [
      | some e ↦ (err (db_error e), db)
      | none ↦ (ok s, record db { steps = db.steps ++ s ∷ [] })
    ]

unfoldable pub create_tool_call :
    ℕ → ℕ → Option DriverError → NewToolCall → Db → Result ToolCall × Db
unfolding exec
create_tool_call id now fault n db =
    let c = new_tool_call id now n in
    elim (exec fault call_error c db) [
      | some e ↦ (err (db_error e), db)
      | none ↦ (ok c, record db { tool_calls = db.tool_calls ++ c ∷ [] })
    ]

unfoldable pub create_evidence :
    ℕ → ℕ → Option DriverError → NewEvidence → Db → Result Evidence × Db
unfolding exec
create_evidence id now fault n db =
    let e = new_evidence id now n in
    elim (exec fault evidence_error e db) [
      | some f ↦ (err (db_error f), db)
      | none ↦ (ok e, record db { evidence = db.evidence ++ e ∷ [] })
    ]
