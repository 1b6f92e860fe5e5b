-- ===== src/Agent/Steps.antt =====
-- internal/agent/loop.go: one step of a run, on each of its paths.
pub mod Kept
pub mod Ends
pub mod Good
use incident_diag.Base.{
  ℕ, suc, ◌+◌, ◌-◌, Bool, true, false, List, [], ◌∷◌, ◌++◌, Option, none, some, ltb, if◌then◌else◌,
  is_empty, bytes_eq, Bytes,
}
use incident_diag.Text.{codes, decimal}
use incident_diag.Text.Space.{trim_space}
use incident_diag.Store.Rows.{ActionType, RunOutcome, StepStatus, StopReason}
use incident_diag.Agent.Types.{
  Action, calls, no_action, Call, Evidence, FinalResult, Message, Observation, Offer, Outcome,
  returns, fails, Record, Response, Run, Step, StepRef, ToolRow, Turn, acted,
}
use incident_diag.Agent.Types.{unusable as unusable_turn}
use incident_diag.Agent.Env.{Env}
use incident_diag.Agent.Evidence.{decode_final, resolve_evidence, tool_search_knowledge}
use incident_diag.Agent.Tools.{call_tool, tool_finish}
use incident_diag.Agent.Knowledge.{retrieve}
use incident_diag.Agent.Endings.{
  Verdict, going, ended, cancelled, bare, unreadable_finish, blank_finish, no_model, stop_name,
  no_diagnosis, no_ref,
}
use incident_diag.Agent.State.{
  RunState, failed, succeeded, add_usage, decide, Decision, decided, unusable,
}

module _ (env : Env) (run : Run) where
  open env use {World, json, ctx_err, clock, chat}

  abbrev pub Result : Type 0
  Result = Verdict × RunState × World

  -- What follows a step that was recorded; the run is over if it was not.
  unfoldable pub and_then : Result → (RunState → World → Result) → Result
  and_then (going, s, w) k = k s w
  and_then (ended o, s, w) k = (ended o, s, w)
  and_then (cancelled e, s, w) k = (cancelled e, s, w)

  -- An error of a call is a cancellation if the context is done, and ends the run otherwise.
  unfoldable pub or_cancelled : Option Bytes → RunOutcome → Verdict
  or_cancelled (some e) o = cancelled e
  or_cancelled none o = ended o

  unfoldable pub fail_unless_cancelled : RunState → World → Bytes → Result
  unfolding or_cancelled failed
  fail_unless_cancelled s w reason =
      let (err, w') = ctx_err w in (or_cancelled err (failed s reason), s, w')

  reported : Step → Record → RunState → Outcome StepRef → World → Result
  unfolding fail_unless_cancelled
  reported step rec s (returns ref) w = (
    going,
    record s {
      step_count = s.step_count + 1;
      records = (step.step_number, record rec { ref = ref }) ∷ s.records;
    },
    w,
  )
  reported step rec s (fails e) w =
      fail_unless_cancelled s w
        (codes "step " ++ (decimal step.step_number ++ (codes " could not be recorded: " ++ e)))

  -- Agent.report.
  unfoldable pub report : Step → Record → RunState → World → Result
  unfolding reported
  report step rec s w = let (ref, w') = env.report step w in reported step rec s ref w'

  none_step : RunState → Bytes → ℕ → Step
  none_step s reason duration = record {
    run_id = run.id;
    step_number = s.step_number;
    action_type = ActionType.none;
    action = no_action;
    observation = [];
    status = StepStatus.error;
    error = reason;
    duration = duration;
    tool_call = none;
    evidence = [];
  }

  after_no_tool : Bytes → RunState → World → Result
  unfolding failed
  after_no_tool reason s w =
      let s' = record s {
        turns = s.turns ++ unusable_turn s.step_number reason ∷ [];
        no_tool_streak = s.no_tool_streak + 1;
      } in
      if ltb 1 s'.no_tool_streak
      then (
        ended (failed s' (codes "the model called no usable tool twice in a row: " ++ reason)),
        s',
        w,
      )
      else (going, s', w)

  -- noToolStep: the response produced no usable action; two in a row end the run.
  unfoldable pub no_tool_step : RunState → ℕ → Bytes → World → Result
  unfolding none_step after_no_tool and_then report
  no_tool_step s started reason w =
      let (now, w') = clock w in
      and_then (report (none_step s reason (now - started)) (bare ActionType.none) s w')
        (after_no_tool reason)

  finish_step_row : RunState → Bytes → List Evidence → ℕ → Step
  finish_step_row s args evidence duration = record {
    run_id = run.id;
    step_number = s.step_number;
    action_type = ActionType.finish;
    action = calls tool_finish args;
    observation = [];
    status = StepStatus.ok;
    error = [];
    duration = duration;
    tool_call = none;
    evidence = evidence;
  }

  -- The step that ends a run with a diagnosis.
  unfoldable pub conclude : RunState → ℕ → Bytes → StopReason → FinalResult → World → Result
  unfolding finish_step_row succeeded and_then report resolve_evidence
  conclude s started args stop_reason final w =
      let (now, w') = clock w in
      and_then
        (report (finish_step_row s args (resolve_evidence s.records final.evidence) (now - started))
          (bare ActionType.finish) s w')
        (λ s' w''. (ended (succeeded s' stop_reason args), s', w''))

  finish_with : RunState → ℕ → Bytes → StopReason → Outcome FinalResult → World → Result
  unfolding no_tool_step conclude
  finish_with s started args stop_reason (fails e) w =
      no_tool_step s started (unreadable_finish e) w
  finish_with s started args stop_reason (returns final) w =
      if is_empty (trim_space final.root_cause)
      then no_tool_step s started blank_finish w
      else conclude s started args stop_reason final w

  -- finishStep.
  unfoldable pub finish_step : RunState → ℕ → Bytes → StopReason → World → Result
  unfolding finish_with decode_final
  finish_step s started args stop_reason w =
      finish_with s started args stop_reason (decode_final json args) w

  observed_row : RunState → Call → Bytes → ActionType → Observation → ℕ → Step
  observed_row s call args action_type obs duration = record {
    run_id = run.id;
    step_number = s.step_number;
    action_type = action_type;
    action = calls call.name args;
    observation = obs.text;
    status = StepStatus.ok;
    error = obs.error;
    duration = duration;
    tool_call = obs.tool_call;
    evidence = [];
  }

  pub observed_record : Call → ActionType → Observation → Record
  observed_record call action_type obs = record {
    ref = no_ref;
    action_type = action_type;
    tool_name = call.name;
    observation = obs.text;
    hits = obs.hits;
    query = obs.query;
  }

  -- observedStep: a retrieval or a tool call.
  unfoldable pub observed_step :
      RunState → ℕ → Call → Bytes → ActionType → Observation → World → Result
  unfolding observed_row observed_record and_then report
  observed_step s started call args action_type obs w =
      let (now, w') = clock w in
      and_then
        (report (observed_row s call args action_type obs (now - started))
          (observed_record call action_type obs) s w')
        (λ s' w''. (
          going,
          record s' {
            turns = s'.turns ++ acted s'.step_number call obs.text ∷ [];
            no_tool_streak = 0;
          },
          w'',
        ))

  -- A call that came back to a cancelled context is not recorded.
  pub unless_cancelled : RunState → World → (World → Result) → Result
  unless_cancelled s w k =
      let (err, w') = ctx_err w in elim err [ none ↦ k w' | some e ↦ (cancelled e, s, w') ]

  search_step : RunState → ℕ → Call → Bytes → World → Result
  unfolding unless_cancelled observed_step retrieve
  search_step s started call args w =
      let (obs, w') = retrieve env args w in
      unless_cancelled s w' (observed_step s started call args ActionType.retrieve obs)

  tool_step : RunState → ℕ → Call → Bytes → World → Result
  unfolding unless_cancelled observed_step call_tool
  tool_step s started call args w =
      let (obs, w') = call_tool env call.name args w in
      unless_cancelled s w' (
        observed_step (record s { tool_calls = s.tool_calls + 1 }) started call args
          ActionType.tool_call obs)

  -- The switch of `step` over the tool that was decided on.
  dispatch : RunState → ℕ → Decision → World → Result
  unfolding no_tool_step finish_step search_step tool_step
  dispatch s started (unusable reason) w = no_tool_step s started reason w
  dispatch s started (decided call args) w =
      if bytes_eq call.name tool_finish
      then finish_step s started args StopReason.completed w
      else if bytes_eq call.name tool_search_knowledge
      then search_step s started call args w
      else tool_step s started call args w

  answered : RunState → ℕ → Outcome Response → World → Result
  unfolding dispatch decide add_usage fail_unless_cancelled
  answered s started (fails e) w = fail_unless_cancelled s w (no_model e)
  answered s started (returns resp) w =
      dispatch (add_usage resp s) started (decide json s.step_number resp.tool_calls) w

  -- Agent.step.
  unfoldable pub step : RunState → List Message → World → Result
  unfolding answered
  step s messages w =
      let (started, w₁) = clock w in
      let (resp, w₂) = chat messages Offer.all_tools w₁ in
      answered (record s { step_number = s.step_number + 1 }) started resp w₂

  -- forcedFinishFailed.
  unfoldable pub forced_finish_failed : RunState → ℕ → StopReason → Bytes → World → Result
  unfolding none_step and_then report failed
  forced_finish_failed s started stop_reason reason w =
      let text = no_diagnosis stop_reason reason in
      let (now, w') = clock w in
      and_then (report (none_step s text (now - started)) (bare ActionType.none) s w')
        (λ s' w''. (ended (failed s' text), s', w''))
