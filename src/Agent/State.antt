-- ===== src/Agent/State.antt =====
-- internal/agent/loop.go: the state of a run in progress, its bounds, its outcomes, and `decide`.
use incident_diag.Base.{
  ℕ, ◌+◌, ◌-◌, List, [], ◌∷◌, ◌++◌, Option, none, some, leb, if◌then◌else◌, is_empty, Bytes,
}
use incident_diag.Text.{codes, decimal}
use incident_diag.Text.Space.{trim_space}
use incident_diag.Store.Rows.{RunOutcome, RunStatus, StopReason}
use incident_diag.Agent.Types.{Budget, Call, Record, Response, Turn}
use incident_diag.Agent.Env.{Env, Json}

-- runState, less the run and the builder, which do not change.
pub record RunState : Type 0 where
  pub start : ℕ
  pub turns : List Turn
  pub records : List (ℕ × Record)
  pub step_number : ℕ
  pub step_count : ℕ
  pub tool_calls : ℕ
  pub prompt_tokens : ℕ
  pub completion_tokens : ℕ
  pub no_tool_streak : ℕ

unfoldable pub initial : ℕ → RunState
initial start = record {
  start = start;
  turns = [];
  records = [];
  step_number = 0;
  step_count = 0;
  tool_calls = 0;
  prompt_tokens = 0;
  completion_tokens = 0;
  no_tool_streak = 0;
}

-- runState.outcome.
unfoldable pub outcome :
    RunState → RunStatus → StopReason → Option Bytes → Option Bytes → RunOutcome
outcome s status stop_reason error final = record {
  status = status;
  stop_reason = stop_reason;
  final_result = final;
  error = error;
  step_count = s.step_count;
  tool_call_count = s.tool_calls;
  prompt_tokens = s.prompt_tokens;
  completion_tokens = s.completion_tokens;
}

unfoldable pub failed : RunState → Bytes → RunOutcome
unfolding outcome
failed s reason = outcome s RunStatus.failed StopReason.error (some reason) none

unfoldable pub succeeded : RunState → StopReason → Bytes → RunOutcome
unfolding outcome
succeeded s stop_reason args = outcome s RunStatus.succeeded stop_reason none (some args)

-- The two counters that are read before the clock.
abbrev pub counter_bound : Budget → RunState → Option StopReason
counter_bound b s =
    if leb b.max_steps s.step_number
    then some StopReason.max_steps
    else if leb b.max_tool_calls s.tool_calls
    then some StopReason.max_tool_calls
    else none

module _ (env : Env) where
  open env use {World, clock}

  timed_out : Budget → RunState → ℕ → Option StopReason
  timed_out b s now =
      if leb b.max_run_duration (now - s.start) then some StopReason.timeout else none

  -- runState.bound; the clock is read only where neither counter has reached its bound.
  unfoldable pub bound : Budget → RunState → World → Option StopReason × World
  unfolding timed_out
  bound b s w = elim (counter_bound b s) [
    | some reason ↦ (some reason, w)
    | none ↦ let (now, w') = clock w in (timed_out b s now, w')
  ]

unfoldable pub add_usage : Response → RunState → RunState
add_usage resp s = record s {
  prompt_tokens = s.prompt_tokens + resp.prompt_tokens;
  completion_tokens = s.completion_tokens + resp.completion_tokens;
}

-- What `decide` makes of a response: a call with its arguments, or why it is unusable.
pub data Decision : Type 0 where
  decided : Call → Bytes → Decision
  unusable : Bytes → Decision

module _ (json : Json) where
  -- An id and a type are supplied where the provider gives none.
  completed_call : ℕ → Call → Bytes → Bytes → Call
  completed_call step_number c name args = record {
    id = if is_empty c.id then codes "call_" ++ decimal step_number else c.id;
    type = if is_empty c.type then codes "function" else c.type;
    name = name;
    arguments = args;
  }

  with_args : ℕ → Call → Bytes → Bytes → Decision
  unfolding completed_call
  with_args n c name args =
      if is_empty args
      then decided (completed_call n c name (codes "{}")) (codes "{}")
      else if json.valid args
      then decided (completed_call n c name args) args
      else unusable (codes "the arguments to " ++ (name ++ codes " are not valid JSON"))

  with_name : ℕ → Call → Bytes → Decision
  unfolding with_args
  with_name n c name =
      if is_empty name
      then unusable (codes "the response called a tool with no name")
      else with_args n c name (trim_space c.arguments)

  -- decide: the first call alone counts.
  unfoldable pub decide : ℕ → List Call → Decision
  unfolding with_name
  decide n [] = unusable (codes "the response called no tool")
  decide n (c ∷ cs) = with_name n c (trim_space c.name)
