-- ===== src/Store/Rows.antt =====
-- internal/store/runs.go, documents.go, steps.go, tool_calls.go, evidence.go and migrations: the rows and the
-- tables. An id is a ULID, read as the number it encodes; ids are compared and ordered, no more.
-- A time is a count of microseconds, as DATETIME(6) keeps it. JSON columns are bytes.
use incident_diag.Base.{ℕ, Bool, List, Option, Bytes, ◌==◌}

pub data RunStatus : Type 0 where
  pending running succeeded failed : RunStatus

pub data StopReason : Type 0 where
  completed max_steps max_tool_calls timeout token_budget error cancelled : StopReason

pub data ActionType : Type 0 where
  retrieve tool_call finish none : ActionType

pub data StepStatus : Type 0 where
  ok error : StepStatus

pub data ToolCallStatus : Type 0 where
  ok refused error timeout : ToolCallStatus

pub record Run : Type 0 where
  pub id : ℕ
  pub incident_id : ℕ
  pub status : RunStatus
  pub stop_reason : Option StopReason
  pub max_steps : ℕ
  pub max_tool_calls : ℕ
  pub max_duration_seconds : ℕ
  pub max_prompt_tokens : ℕ
  pub model : Bytes
  pub step_count : ℕ
  pub tool_call_count : ℕ
  pub prompt_tokens : ℕ
  pub completion_tokens : ℕ
  pub final_result : Option Bytes
  pub error : Option Bytes
  pub attempts : ℕ
  pub started_at : Option ℕ
  pub finished_at : Option ℕ
  pub created_at : ℕ
  pub updated_at : ℕ

pub record NewRun : Type 0 where
  pub incident_id : ℕ
  pub model : Bytes
  pub max_steps : ℕ
  pub max_tool_calls : ℕ
  pub max_duration_seconds : ℕ
  pub max_prompt_tokens : ℕ

-- Status, stop reason and the counters that FinishRun writes at once.
pub record RunOutcome : Type 0 where
  pub status : RunStatus
  pub stop_reason : StopReason
  pub final_result : Option Bytes
  pub error : Option Bytes
  pub step_count : ℕ
  pub tool_call_count : ℕ
  pub prompt_tokens : ℕ
  pub completion_tokens : ℕ

pub record Step : Type 0 where
  pub id : ℕ
  pub run_id : ℕ
  pub step_number : ℕ
  pub action_type : ActionType
  pub action : Bytes
  pub observation : Option Bytes
  pub observation_bytes : ℕ
  pub truncated : Bool
  pub status : StepStatus
  pub error : Option Bytes
  pub duration_ms : ℕ
  pub created_at : ℕ

pub record ToolCall : Type 0 where
  pub id : ℕ
  pub run_id : ℕ
  pub step_id : ℕ
  pub tool_name : Bytes
  pub arguments : Bytes
  pub status : ToolCallStatus
  pub result : Option Bytes
  pub result_bytes : ℕ
  pub truncated : Bool
  pub error : Option Bytes
  pub duration_ms : ℕ
  pub created_at : ℕ

pub data SourceType : Type 0 where
  retrieval tool : SourceType

pub record Evidence : Type 0 where
  pub id : ℕ
  pub run_id : ℕ
  pub step_id : ℕ
  pub tool_call_id : Option ℕ
  pub source_type : SourceType
  pub source_ref : Bytes
  pub document_id : Option ℕ
  pub summary : Bytes
  pub note : Option Bytes
  pub created_at : ℕ

pub data DocumentStatus : Type 0 where
  pending processing ready failed : DocumentStatus

pub data Format : Type 0 where
  markdown text : Format

pub data DocumentType : Type 0 where
  runbook postmortem service_doc : DocumentType

pub record Document : Type 0 where
  pub id : ℕ
  pub filename : Bytes
  pub storage_path : Bytes
  pub format : Format
  pub size_bytes : ℕ
  pub content_sha256 : Bytes
  pub service : Option Bytes
  pub document_type : DocumentType
  pub status : DocumentStatus
  pub failure_reason : Option Bytes
  pub chunk_count : ℕ
  pub attempts : ℕ
  pub processing_started_at : Option ℕ
  pub created_at : ℕ
  pub updated_at : ℕ

-- A row of incidents. "No service" is distinct from the empty name.
pub record Incident : Type 0 where
  pub id : ℕ
  pub title : Bytes
  pub description : Bytes
  pub service : Option Bytes
  pub created_at : ℕ
  pub updated_at : ℕ

abbrev pub is_incident : ℕ → Incident → Bool
is_incident id i = i.id == id

-- The tables.
pub record Db : Type 0 where
  pub incidents : List Incident
  pub runs : List Run
  pub steps : List Step
  pub tool_calls : List ToolCall
  pub evidence : List Evidence
  pub documents : List Document
