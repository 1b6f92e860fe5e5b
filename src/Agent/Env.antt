-- ===== src/Agent/Env.antt =====
-- What the loop relies on and does not implement. A `World` is whatever these calls read and change:
-- each takes the world and returns it beside its result, so nothing is assumed of when a context is
-- cancelled, how long a call takes or what the model answers.
use incident_diag.Base.{ℕ, Bool, List, Option, Bytes}
use incident_diag.Agent.Types.{
  Citation, Hit, Incident, McpResult, Message, Offer, Outcome, Response, Step, StepRef,
}

-- finish's arguments before the fields that a model gets wrong are decoded.
pub record RawFinal : Type 0 where
  pub root_cause : Bytes
  pub affected_service : Bytes
  pub next_actions : Bytes
  pub evidence : Bytes

pub record KnowledgeArgs : Type 0 where
  pub query : Bytes
  pub service : Bytes
  pub document_type : Bytes
  pub k : ℕ

-- encoding/json, a function for each type that is decoded.
pub record Json : Type 0 where
  pub valid : Bytes → Bool
  pub raw_final : Bytes → Outcome RawFinal
  pub strings : Bytes → Outcome (List Bytes)
  pub string : Bytes → Outcome Bytes
  pub items : Bytes → Outcome (List Bytes)
  pub citation : Bytes → Outcome Citation
  pub knowledge_args : Bytes → Outcome KnowledgeArgs

-- The texts of prompt.go, and the two formats of fmt that are more than concatenation.
pub record Texts : Type 0 where
  pub system_prompt : Bytes
  pub incident_message : Incident → Bytes
  pub no_tool_message : ℕ → Bytes → Bytes
  pub observation_message : ℕ → Bytes → Bytes
  pub budget_message : ℕ → ℕ → ℕ → ℕ → Bytes
  pub forced_finish_message : Bytes → Bytes
  pub quote : Bytes → Bytes
  pub score : ℕ → Bytes

pub record Env : Type 1 where
  pub World : Type 0
  pub json : Json
  pub texts : Texts
  -- ctx.Err(): the text of the error of a context that is done.
  pub ctx_err : World → Option Bytes × World
  -- time.Now().
  pub clock : World → ℕ × World
  pub chat : List Message → Offer → World → Outcome Response × World
  pub report : Step → World → Outcome StepRef × World
  -- The names that ops-mcp lists, and a call of one of its tools.
  pub mcp_names : List Bytes
  pub mcp_call : Bytes → Bytes → World → Outcome McpResult × World
  -- The embedding of one query, as a number of vectors, and the search for the first of them.
  pub embed : Bytes → World → Outcome ℕ × World
  pub search : KnowledgeArgs → World → Outcome (List Hit) × World
