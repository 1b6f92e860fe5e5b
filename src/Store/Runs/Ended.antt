-- ===== src/Store/Runs/Ended.antt =====
-- internal/store/runs.go: the row of a claimed run and of a finished one, column by column.
use incident_diag.Base.{ℕ, suc, ◌≡◌, refl, [], ◌∷◌, Option, none, some, Bytes, arith}
use incident_diag.Store.Rows.{Run, RunOutcome, RunStatus}
use incident_diag.Store.Runs.{claimed_run, finished_run}

-- The columns that stay as they are once a run is created.
abbrev pub IsSameRun : Run → Run → Type 0
IsSameRun r r' =
    (r'.id ≡ r.id)
    × (r'.incident_id ≡ r.incident_id)
    × (r'.max_steps ≡ r.max_steps)
    × (r'.max_tool_calls ≡ r.max_tool_calls)
    × (r'.max_duration_seconds ≡ r.max_duration_seconds)
    × (r'.max_prompt_tokens ≡ r.max_prompt_tokens)
    × (r'.model ≡ r.model)
    × (r'.created_at ≡ r.created_at)

-- The second row is the first one as a claim takes it.
pub record IsTaken (now : ℕ) (r r' : Run) : Type 0 where
  same : IsSameRun r r'
  status : r'.status ≡ RunStatus.running
  attempts : r'.attempts ≡ suc r.attempts
  started_at : r'.started_at ≡ some now
  updated_at : r'.updated_at ≡ now
  step_count : r'.step_count ≡ 0
  tool_call_count : r'.tool_call_count ≡ 0
  prompt_tokens : r'.prompt_tokens ≡ 0
  completion_tokens : r'.completion_tokens ≡ 0
  stop_reason : r'.stop_reason ≡ r.stop_reason
  final_result : r'.final_result ≡ r.final_result
  error : r'.error ≡ r.error
  finished_at : r'.finished_at ≡ r.finished_at

-- A column holds a text; where there is none or it is empty the column is NULL.
abbrev pub Holds : Option Bytes → Option Bytes → Type 0
Holds none column = column ≡ none
Holds (some []) column = column ≡ none
Holds (some (b ∷ s)) column = column ≡ some (b ∷ s)

-- The second row is the first one with an outcome.
pub record IsFinished (now : ℕ) (out : RunOutcome) (r r' : Run) : Type 0 where
  same : IsSameRun r r'
  status : r'.status ≡ out.status
  stop_reason : r'.stop_reason ≡ some out.stop_reason
  final_result : Holds out.final_result r'.final_result
  error : Holds out.error r'.error
  step_count : r'.step_count ≡ out.step_count
  tool_call_count : r'.tool_call_count ≡ out.tool_call_count
  prompt_tokens : r'.prompt_tokens ≡ out.prompt_tokens
  completion_tokens : r'.completion_tokens ≡ out.completion_tokens
  attempts : r'.attempts ≡ r.attempts
  started_at : r'.started_at ≡ r.started_at
  finished_at : r'.finished_at ≡ some now
  updated_at : r'.updated_at ≡ now

pub claimed_run-IsTaken : (now : ℕ) (r : Run) → IsTaken now r (claimed_run now r)
unfolding claimed_run
claimed_run-IsTaken now r = record {
  same = (refl, refl, refl, refl, refl, refl, refl, refl);
  status = refl;
  attempts = ground arith;
  started_at = refl;
  updated_at = refl;
  step_count = refl;
  tool_call_count = refl;
  prompt_tokens = refl;
  completion_tokens = refl;
  stop_reason = refl;
  final_result = refl;
  error = refl;
  finished_at = refl;
}

finished_run-final_result :
    (now : ℕ) (out : RunOutcome) (r : Run) (text : Option Bytes)
    → out.final_result ≡ text
    → Holds text (finished_run now out r).final_result
unfolding finished_run
finished_run-final_result now out r none e = rw e refl
finished_run-final_result now out r (some []) e = rw e refl
finished_run-final_result now out r (some (b ∷ s)) e = rw e refl

finished_run-error :
    (now : ℕ) (out : RunOutcome) (r : Run) (text : Option Bytes)
    → out.error ≡ text
    → Holds text (finished_run now out r).error
unfolding finished_run
finished_run-error now out r none e = rw e refl
finished_run-error now out r (some []) e = rw e refl
finished_run-error now out r (some (b ∷ s)) e = rw e refl

pub finished_run-IsFinished :
    (now : ℕ) (out : RunOutcome) (r : Run) → IsFinished now out r (finished_run now out r)
unfolding finished_run
finished_run-IsFinished now out r = record {
  same = (refl, refl, refl, refl, refl, refl, refl, refl);
  status = refl;
  stop_reason = refl;
  final_result = finished_run-final_result now out r out.final_result refl;
  error = finished_run-error now out r out.error refl;
  step_count = refl;
  tool_call_count = refl;
  prompt_tokens = refl;
  completion_tokens = refl;
  attempts = refl;
  started_at = refl;
  finished_at = refl;
  updated_at = refl;
}
