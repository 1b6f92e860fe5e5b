-- ===== src/Agent/Steps/Good.antt =====
-- Every path of one step.
use incident_diag.Base.{ℕ, suc, ◌+◌, ◌≤◌, ◌≡◌, List, bytes_eq, Bytes, arith, Bool-cases, inl, inr}
use incident_diag.Store.Rows.{ActionType, StopReason}
use incident_diag.Agent.Types.{Call, Message, Outcome, returns, fails, Response, Run}
use incident_diag.Agent.Env.{Env}
use incident_diag.Agent.Evidence.{tool_search_knowledge}
use incident_diag.Agent.Tools.{call_tool, tool_finish}
use incident_diag.Agent.Knowledge.{retrieve}
use incident_diag.Agent.State.{RunState, add_usage, Decision, decided, unusable}
use incident_diag.Agent.Steps.{
  Result, observed_step, search_step, tool_step, dispatch, answered, step,
}
use incident_diag.Agent.Steps.Kept.{IsSound, IsOpen, Good, Holds, fail_cases}
use incident_diag.Agent.Steps.Ends.{
  open_failing, no_tool_step-Good, finish_step-Good, observed_step-Good, unless_cancelled-Good,
}

module _ (env : Env) (run : Run) (n c : ℕ) where
  open env use {World}

  abbrev IsGood : Result env run → Type 0
  IsGood r = Holds env run (Good n c) r

  -- A step in which there is room for one more tool call.
  abbrev HasRoom : RunState → Type 0
  HasRoom s = s.tool_calls + 1 ≤ c

  search_step-Good :
      (s : RunState) (started : ℕ) (call : Call) (args : Bytes) (w : World)
      → IsOpen n c s
      → IsGood (search_step env run s started call args w)
  unfolding search_step
  search_step-Good s started call args w o =
      let (obs, w') = retrieve env args w in
      unless_cancelled-Good env run n c s w'
        (observed_step env run s started call args ActionType.retrieve obs)
        (λ w''. observed_step-Good env run n c s started call args ActionType.retrieve obs w'' o)

  tool_step-Good :
      (s : RunState) (started : ℕ) (call : Call) (args : Bytes) (w : World)
      → IsOpen n c s
      → HasRoom s
      → IsGood (tool_step env run s started call args w)
  unfolding tool_step
  tool_step-Good s started call args w o room =
      let (obs, w') = call_tool env call.name args w in
      unless_cancelled-Good env run n c s w'
        (observed_step env run s' started call args ActionType.tool_call obs)
        (λ w''.
          observed_step-Good env run n c s' started call args ActionType.tool_call obs w'' open')
    where
      s' : RunState
      s' = record s { tool_calls = s.tool_calls + 1 }

      open' : IsOpen n c s'
      open' = record {
        number = o.number;
        recorded = o.recorded;
        numbered = o.numbered;
        shown = o.shown;
        patient = o.patient;
        calls = room;
      }

  dispatch-Good :
      (s : RunState) (started : ℕ) (d : Decision) (w : World)
      → IsOpen n c s
      → HasRoom s
      → IsGood (dispatch env run s started d w)
  unfolding dispatch
  dispatch-Good s started (unusable reason) w o room =
      no_tool_step-Good env run n c s started reason w o
  dispatch-Good s started (decided call args) w o room =
      elim (Bool-cases (bytes_eq call.name tool_finish)) [
        | inl e ↦
            rw e (finish_step-Good env run n c s started args StopReason.completed w (λ h. cc) o)
        | inr e ↦ elim (Bool-cases (bytes_eq call.name tool_search_knowledge)) [
          | inl f ↦ rw (e, f) (search_step-Good s started call args w o)
          | inr f ↦ rw (e, f) (tool_step-Good s started call args w o room)
        ]
      ]

  pub add_usage-IsOpen :
      (s : RunState) (resp : Response) → IsOpen n c s → IsOpen n c (add_usage resp s)
  unfolding add_usage
  add_usage-IsOpen s resp o = record {
    number = o.number;
    recorded = o.recorded;
    numbered = o.numbered;
    shown = o.shown;
    patient = o.patient;
    calls = o.calls;
  }

  answered-Good :
      (s : RunState) (started : ℕ) (resp : Outcome Response) (w : World)
      → IsOpen n c s
      → HasRoom s
      → IsGood (answered env run s started resp w)
  unfolding answered add_usage
  answered-Good s started (fails e) w o room =
      fail_cases env run (Good n c) s w _ (λ x. tt)
        (open_failing env run n c (Good n c) s o (λ _ h. h) _)
  answered-Good s started (returns resp) w o room =
      dispatch-Good (add_usage resp s) started _ w (add_usage-IsOpen s resp o) room

  -- The step that follows a sound state is open.
  pub still_going :
      (s : RunState)
      → IsSound s
      → suc s.step_number ≡ n
      → s.tool_calls ≤ c
      → IsOpen n c (record s { step_number = s.step_number + 1 })
  still_going s v e h = record {
    number = omega arith;
    recorded = omega (arith, v.recorded);
    numbered = rw (v.recorded) v.numbered;
    shown = omega (arith, v.shown);
    patient = v.patient;
    calls = h;
  }

  pub step-Good :
      (s : RunState) (messages : List Message) (w : World)
      → IsSound s
      → suc s.step_number ≡ n
      → HasRoom s
      → IsGood (step env run s messages w)
  unfolding step
  step-Good s messages w v e room =
      answered-Good (record s { step_number = s.step_number + 1 }) _ _ _
        (still_going s v e (omega arith)) room
