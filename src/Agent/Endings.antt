-- ===== src/Agent/Endings.antt =====
-- internal/agent/loop.go: how a step leaves the run, and the texts of a step that fails.
use incident_diag.Base.{[], ◌++◌, Bytes}
use incident_diag.Text.{codes}
use incident_diag.Store.Rows.{ActionType, RunOutcome, StopReason}
use incident_diag.Agent.Types.{Record, StepRef}

-- How a step leaves the run: going on, ended with an outcome, or cancelled with an error, in which
-- case nothing terminal is written.
pub data Verdict : Type 0 where
  going : Verdict
  ended : RunOutcome → Verdict
  cancelled : Bytes → Verdict

abbrev pub no_ref : StepRef
no_ref = record { step_id = []; tool_call_id = [] }

-- The record of a step that observed nothing.
abbrev pub bare : ActionType → Record
bare t = record {
  ref = no_ref;
  action_type = t;
  tool_name = [];
  observation = [];
  hits = [];
  query = [];
}

abbrev pub unreadable_finish : Bytes → Bytes
unreadable_finish e = codes "the arguments to finish could not be read: " ++ e

abbrev pub blank_finish : Bytes
blank_finish = codes "finish was called with an empty root_cause"

abbrev pub no_model : Bytes → Bytes
no_model e = codes "the model could not be called: " ++ e

abbrev pub stop_name : StopReason → Bytes
stop_name StopReason.completed = codes "COMPLETED"
stop_name StopReason.max_steps = codes "MAX_STEPS"
stop_name StopReason.max_tool_calls = codes "MAX_TOOL_CALLS"
stop_name StopReason.timeout = codes "TIMEOUT"
stop_name StopReason.token_budget = codes "TOKEN_BUDGET"
stop_name StopReason.error = codes "ERROR"
stop_name StopReason.cancelled = codes "CANCELLED"

abbrev pub no_diagnosis : StopReason → Bytes → Bytes
no_diagnosis stop_reason reason =
    codes "the run stopped on "
    ++ (stop_name stop_reason ++ (codes " and the forced finish produced no diagnosis: " ++ reason))
