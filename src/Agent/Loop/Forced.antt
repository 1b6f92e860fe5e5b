-- ===== src/Agent/Loop/Forced.antt =====
-- The forced finish is the last step, on each of its paths.
use incident_diag.Base.{
  ℕ, suc, ◌+◌, ◌≤◌, ◌≡◌, ◌≢◌, Option, none, some, is_empty, bytes_eq, Bytes, Bool-cases, inl, inr,
  Option-cases,
}
use incident_diag.Text.Space.{trim_space}
use incident_diag.Store.Rows.{StopReason}
use incident_diag.Agent.Types.{FinalResult, Outcome, returns, fails, Response, Run}
use incident_diag.Agent.Env.{Env}
use incident_diag.Agent.Evidence.{decode_final}
use incident_diag.Agent.Tools.{tool_finish}
use incident_diag.Agent.State.{RunState, Decision, decided, unusable, decide, add_usage}
use incident_diag.Agent.Steps.{Result}
use incident_diag.Agent.Steps.Kept.{IsSound, IsOpen, Last, Holds}
use incident_diag.Agent.Steps.Ends.{conclude-Last, forced_finish_failed-Last}
use incident_diag.Agent.Steps.Good.{add_usage-IsOpen, still_going}
use incident_diag.Agent.Loop.{
  forced_final, forced_decision, forced_failure, forced_answer, forced_call, force_finish,
}

module _ (env : Env) (run : Run) (n c : ℕ) (stop : StopReason) (ne : stop ≢ StopReason.error) where
  open env use {World}

  abbrev IsLast : Result env run → Type 0
  IsLast r = Holds env run (Last n c) r

  forced_final-Last :
      (s : RunState) (started : ℕ) (args : Bytes) (final : Outcome FinalResult) (w : World)
      → IsOpen n c s
      → IsLast (forced_final env run s started stop args final w)
  unfolding forced_final
  forced_final-Last s started args (fails e) w o =
      forced_finish_failed-Last env run n c s started stop _ w o
  forced_final-Last s started args (returns final) w o =
      elim (Bool-cases (is_empty (trim_space final.root_cause))) [
        | inl e ↦ rw e (forced_finish_failed-Last env run n c s started stop _ w o)
        | inr e ↦ rw e (conclude-Last env run n c s started args stop final w ne o)
      ]

  forced_decision-Last :
      (s : RunState) (started : ℕ) (d : Decision) (w : World)
      → IsOpen n c s
      → IsLast (forced_decision env run s started stop d w)
  unfolding forced_decision
  forced_decision-Last s started (unusable reason) w o =
      forced_finish_failed-Last env run n c s started stop reason w o
  forced_decision-Last s started (decided call args) w o =
      elim (Bool-cases (bytes_eq call.name tool_finish)) [
        | inl e ↦ rw e (forced_final-Last s started args (decode_final env.json args) w o)
        | inr e ↦ rw e (forced_finish_failed-Last env run n c s started stop _ w o)
      ]

  forced_failure-Last :
      (s : RunState) (started : ℕ) (e : Bytes) (err : Option Bytes) (w : World)
      → IsOpen n c s
      → IsLast (forced_failure env run s started stop e err w)
  unfolding forced_failure
  forced_failure-Last s started e (some x) w o = tt
  forced_failure-Last s started e none w o =
      forced_finish_failed-Last env run n c s started stop _ w o

  forced_answer-Last :
      (s : RunState) (started : ℕ) (resp : Outcome Response) (w : World)
      → IsOpen n c s
      → IsLast (forced_answer env run s started stop resp w)
  unfolding forced_answer
  forced_answer-Last s started (fails e) w o = forced_failure-Last s started e _ _ o
  forced_answer-Last s started (returns resp) w o =
      forced_decision-Last (add_usage resp s) started
        (decide env.json s.step_number resp.tool_calls) w (add_usage-IsOpen env run n c s resp o)

  pub force_finish-Last :
      (s : RunState) (w : World)
      → IsSound s
      → suc s.step_number ≡ n
      → s.tool_calls ≤ c
      → IsLast (force_finish env run s stop w)
  unfolding force_finish forced_call
  force_finish-Last s w v e h = elim (Option-cases (env.ctx_err w).0) [
    | inl x ↦
        rw (x, force_finish)
          (forced_answer-Last (record s { step_number = s.step_number + 1 }) _ _ _
            (still_going env run n c s v e h))
    | inr (y, x) ↦ rw (x, force_finish) tt
  ]
