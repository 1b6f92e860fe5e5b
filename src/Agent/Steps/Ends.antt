-- ===== src/Agent/Steps/Ends.antt =====
-- The ends of a step: what it leaves once it observed, concluded or failed.
use incident_diag.Base.{
  ℕ, suc, ◌+◌, ◌≤◌, ◌≡◌, ◌≢◌, List, [], ◌∷◌, ◌++◌, ltb, is_empty, Bytes, length, length-append,
  arith, Bool-cases, inl, inr, Option-cases,
}
use incident_diag.Text.Space.{trim_space}
use incident_diag.Store.Rows.{ActionType, RunOutcome, StopReason}
use incident_diag.Agent.Types.{
  Call, FinalResult, Observation, Outcome, returns, fails, Record, Run, StepRef, Turn,
}
use incident_diag.Agent.Types.{unusable as unusable_turn}
use incident_diag.Agent.Env.{Env}
use incident_diag.Agent.Evidence.{decode_final}
use incident_diag.Agent.State.{RunState, failed}
use incident_diag.Agent.Endings.{Verdict, bare, going, ended, cancelled}
use incident_diag.Agent.Steps.{
  Result, no_tool_step, after_no_tool, conclude, finish_with, finish_step, observed_step,
  observed_record, unless_cancelled, forced_finish_failed,
}
use incident_diag.Agent.Steps.Kept.{
  Numbered, IsOpen, EndsWell, Good, Last, Holds, failed-EndsWell, succeeded-EndsWell,
  recorded_state, report_cases,
}

-- Inside step `n`, once it is recorded.
record IsClosed (n c : ℕ) (s : RunState) : Type 0 where
  number : s.step_number ≡ n
  recorded : s.step_count ≡ n
  numbered : Numbered s.records n
  shown : suc (length s.turns) ≡ n
  patient : s.no_tool_streak ≤ 1
  calls : s.tool_calls ≤ c

length-Numbered : (rs : List (ℕ × Record)) (n : ℕ) → Numbered rs n → length rs ≡ n
length-Numbered [] n h = omega arith
length-Numbered ((k, r) ∷ rs) n h = omega arith

close :
    (n c : ℕ) (s : RunState) (rec : Record) (ref : StepRef)
    → IsOpen n c s
    → IsClosed n c (recorded_state s.step_number rec ref s)
close n c s rec ref o = record {
  number = o.number;
  recorded = omega arith;
  numbered = (o.number, omega (arith, length-Numbered s.records s.step_count o.numbered), rest);
  shown = o.shown;
  patient = o.patient;
  calls = o.calls;
}
  where
    rest : Numbered s.records (length s.records)
    rest = rw (length-Numbered s.records s.step_count o.numbered) o.numbered

-- A recorded step that goes on is shown in the context.
go_on :
    (n c : ℕ) (s : RunState) (t : Turn) (streak : ℕ)
    → IsClosed n c s
    → streak ≤ 1
    → Good n c going (record s { turns = s.turns ++ t ∷ []; no_tool_streak = streak })
go_on n c s t streak o h = (
  record {
    recorded = omega (arith, o.recorded, o.number);
    numbered = rw (o.number) o.numbered;
    shown = omega (arith, length-append s.turns (t ∷ []), o.shown, o.number);
    patient = h;
  },
  o.number,
  o.calls,
)

module _ (env : Env) (run : Run) (n c : ℕ) where
  open env use {World}

  abbrev IsGood : Result env run → Type 0
  IsGood r = Holds env run (Good n c) r

  pub open_failing :
      (P : Verdict → RunState → Type 0) (s : RunState)
      → IsOpen n c s
      → ((o : RunOutcome) → EndsWell n c o → P (ended o) s)
      → (reason : Bytes) → P (ended (failed s reason)) s
  open_failing P s o ends reason =
      ends (failed s reason) (failed-EndsWell n c s reason (omega arith) o.calls)

  after_no_tool-Good :
      (reason : Bytes) (s : RunState) (w : World)
      → IsClosed n c s
      → IsGood (after_no_tool env run reason s w)
  unfolding after_no_tool
  after_no_tool-Good reason s w o = elim (Bool-cases (ltb 1 (s.no_tool_streak + 1))) [
    | inl e ↦ rw e (failed-EndsWell n c s' _ (omega (arith, o.recorded)) o.calls)
    | inr e ↦ rw e (go_on n c s _ (s.no_tool_streak + 1) o (ground arith))
  ]
    where
      s' : RunState
      s' = record s {
        turns = s.turns ++ unusable_turn s.step_number reason ∷ [];
        no_tool_streak = s.no_tool_streak + 1;
      }

  pub no_tool_step-Good :
      (s : RunState) (started : ℕ) (reason : Bytes) (w : World)
      → IsOpen n c s
      → IsGood (no_tool_step env run s started reason w)
  unfolding no_tool_step
  no_tool_step-Good s started reason w o =
      report_cases env run (Good n c) _ (bare ActionType.none) s _ _ (λ e. tt)
        (open_failing (Good n c) s o (λ _ h. h))
        (λ ref w'. after_no_tool-Good reason _ w' (close n c s (bare ActionType.none) ref o))

  -- A step that concludes the run is its last.
  pub conclude-Last :
      (s : RunState) (started : ℕ) (args : Bytes) (stop : StopReason) (final : FinalResult)
      (w : World)
      → stop ≢ StopReason.error
      → IsOpen n c s
      → Holds env run (Last n c) (conclude env run s started args stop final w)
  unfolding conclude
  conclude-Last s started args stop final w ne o =
      report_cases env run (Last n c) _ (bare ActionType.finish) s _ _ (λ e. tt)
        (open_failing (Last n c) s o (λ _ h. h))
        (λ ref w'.
          succeeded-EndsWell n c (recorded_state s.step_number (bare ActionType.finish) ref s) stop
            args ne (omega arith) o.calls)

  -- A forced finish that brought no diagnosis is the last step too.
  pub forced_finish_failed-Last :
      (s : RunState) (started : ℕ) (stop : StopReason) (reason : Bytes) (w : World)
      → IsOpen n c s
      → Holds env run (Last n c) (forced_finish_failed env run s started stop reason w)
  unfolding forced_finish_failed
  forced_finish_failed-Last s started stop reason w o =
      report_cases env run (Last n c) _ (bare ActionType.none) s _ _ (λ e. tt)
        (open_failing (Last n c) s o (λ _ h. h))
        (λ ref w'.
          failed-EndsWell n c (recorded_state s.step_number (bare ActionType.none) ref s) _
            (omega arith) o.calls)

  Good_of_Last : (v : Verdict) (s : RunState) → Last n c v s → Good n c v s
  Good_of_Last going s h = absurd h
  Good_of_Last (ended o) s h = h
  Good_of_Last (cancelled e) s h = h

  pub finish_step-Good :
      (s : RunState) (started : ℕ) (args : Bytes) (stop : StopReason) (w : World)
      → stop ≢ StopReason.error
      → IsOpen n c s
      → IsGood (finish_step env run s started args stop w)
  unfolding finish_step
  finish_step-Good s started args stop w ne o = decoded (decode_final env.json args)
    where
      decoded :
          (final : Outcome FinalResult) → IsGood (finish_with env run s started args stop final w)
      decoded (fails e) = no_tool_step-Good s started _ w o
      decoded (returns final) = elim (Bool-cases (is_empty (trim_space final.root_cause))) [
        | inl e ↦ rw e (no_tool_step-Good s started _ w o)
        | inr e ↦ rw e (Good_of_Last _ _ (conclude-Last s started args stop final w ne o))
      ]

  pub observed_step-Good :
      (s : RunState) (started : ℕ) (call : Call) (args : Bytes) (t : ActionType) (obs : Observation)
      (w : World)
      → IsOpen n c s
      → IsGood (observed_step env run s started call args t obs w)
  unfolding observed_step
  observed_step-Good s started call args t obs w o =
      report_cases env run (Good n c) _ (observed_record env run call t obs) s _ _ (λ e. tt)
        (open_failing (Good n c) s o (λ _ h. h))
        (λ ref w'.
          go_on n c _ _ 0 (close n c s (observed_record env run call t obs) ref o) (omega arith))

  pub unless_cancelled-Good :
      (s : RunState) (w : World) (k : World → Result env run)
      → ((w' : World) → IsGood (k w'))
      → IsGood (unless_cancelled env run s w k)
  unfolding unless_cancelled
  unless_cancelled-Good s w k next = elim (Option-cases (env.ctx_err w).0) [
    | inl e ↦ rw (e, unless_cancelled) (next (env.ctx_err w).1)
    | inr (x, e) ↦ rw (e, unless_cancelled) tt
  ]
