-- ===== src/Agent/Types.antt =====
-- The values of internal/agent/agent.go, internal/llm/llm.go (messages and responses) and
-- internal/mcpclient (results) that the loop passes on. "" stands for an absent text, as in Go.
use incident_diag.Base.{ℕ, Bool, List, Option, Bytes}
use incident_diag.Store.Rows.{ActionType, StepStatus, ToolCallStatus, SourceType}

pub record Incident : Type 0 where
  pub id : Bytes
  pub title : Bytes
  pub description : Bytes
  pub service : Bytes
  pub created_at : ℕ

pub record Budget : Type 0 where
  pub max_steps : ℕ
  pub max_tool_calls : ℕ
  pub max_run_duration : ℕ
  pub max_prompt_tokens : ℕ

pub record Run : Type 0 where
  pub id : Bytes
  pub incident : Incident
  pub budget : Budget

-- llm.ToolCall, its FunctionCall flattened.
pub record Call : Type 0 where
  pub id : Bytes
  pub type : Bytes
  pub name : Bytes
  pub arguments : Bytes

pub data Role : Type 0 where
  system user assistant tool : Role

pub record Message : Type 0 where
  pub role : Role
  pub content : Bytes
  pub tool_calls : List Call
  pub tool_call_id : Bytes

pub record Response : Type 0 where
  pub tool_calls : List Call
  pub prompt_tokens : ℕ
  pub completion_tokens : ℕ

-- The tools that a request offers: the whole list, or finish alone and required.
pub data Offer : Type 0 where
  all_tools only_finish : Offer

-- search.Result. The score is rendered into the observation and used nowhere else.
pub record Hit : Type 0 where
  pub document_id : Bytes
  pub source : Bytes
  pub heading_path : Bytes
  pub content : Bytes
  pub score : ℕ

-- The tool_calls row that a step produced.
pub record ToolRow : Type 0 where
  pub name : Bytes
  pub arguments : Bytes
  pub status : ToolCallStatus
  pub result : Bytes
  pub error : Bytes
  pub duration : ℕ

pub record Observation : Type 0 where
  pub text : Bytes
  pub error : Bytes
  pub tool_call : Option ToolRow
  pub hits : List Hit
  pub query : Bytes

pub record StepRef : Type 0 where
  pub step_id : Bytes
  pub tool_call_id : Bytes

-- A step that the loop completed, as it remembers it.
pub record Record : Type 0 where
  pub ref : StepRef
  pub action_type : ActionType
  pub tool_name : Bytes
  pub observation : Bytes
  pub hits : List Hit
  pub query : Bytes

pub record Citation : Type 0 where
  pub step : ℕ
  pub note : Bytes
  pub document_id : Bytes

pub record Evidence : Type 0 where
  pub step_id : Bytes
  pub tool_call_id : Bytes
  pub source_type : SourceType
  pub source_ref : Bytes
  pub document_id : Bytes
  pub summary : Bytes
  pub note : Bytes

pub record FinalResult : Type 0 where
  pub root_cause : Bytes
  pub affected_service : Bytes
  pub next_actions : List Bytes
  pub evidence : List Citation

-- agent_steps.action before it is marshalled: a tool and its arguments, or `{}`.
pub data Action : Type 0 where
  calls : Bytes → Bytes → Action
  no_action : Action

pub record Step : Type 0 where
  pub run_id : Bytes
  pub step_number : ℕ
  pub action_type : ActionType
  pub action : Action
  pub observation : Bytes
  pub status : StepStatus
  pub error : Bytes
  pub duration : ℕ
  pub tool_call : Option ToolRow
  pub evidence : List Evidence

-- One completed step as the context shows it: a call with its observation, or why there was none.
pub data Turn : Type 0 where
  acted : ℕ → Call → Bytes → Turn
  unusable : ℕ → Bytes → Turn

pub data McpStatus : Type 0 where
  ok error timeout : McpStatus

pub record McpResult : Type 0 where
  pub text : Bytes
  pub status : McpStatus
  pub refused : Bool
  pub note : Bytes

-- The error of a call in Go is its text.
pub data Outcome (A : Type 0) : Type 0 where
  returns : A → Outcome A
  fails : Bytes → Outcome A
