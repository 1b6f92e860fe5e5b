-- ===== src/Store/Runs.antt =====
-- internal/store/runs.go: the life of an agent run. Each operation takes the clock's reading and the
-- id that `id.New` gives, and for each statement the driver error that keeps it from running, if
-- any. The result is what the method returns, beside the new database.
pub mod History
pub mod Claim
pub mod Ended
pub mod Active
pub mod Create
pub mod Terminal
use incident_diag.Base.{
  ℕ, ◌+◌, Bool, true, false, not, ◌&&◌, ◌||◌, List, [], ◌∷◌, ◌++◌, map, Option, none, some, any,
  filter, ltb, ◌==◌, if◌then◌else◌, is_empty, Bytes,
}
use incident_diag.Store.Errors.{
  Result, ok, err, Kind, not_found, conflict, DriverError, duplicate_entry, mysql_error, primary,
  uniq_active_run, db_error, is_active_run_key,
}
use incident_diag.Store.Table.{update_where, find}
use incident_diag.Store.Rows.{
  Db, Run, NewRun, RunOutcome, RunStatus, Step, ToolCall, Evidence, StopReason, is_incident,
}

-- The generated column active_incident_id holds the incident while the run is in flight.
abbrev pub is_active : RunStatus → Bool
is_active RunStatus.pending = true
is_active RunStatus.running = true
is_active RunStatus.succeeded = false
is_active RunStatus.failed = false

abbrev pub is_pending : RunStatus → Bool
is_pending RunStatus.pending = true
is_pending RunStatus.running = false
is_pending RunStatus.succeeded = false
is_pending RunStatus.failed = false

abbrev pub is_running : RunStatus → Bool
is_running RunStatus.running = true
is_running RunStatus.pending = false
is_running RunStatus.succeeded = false
is_running RunStatus.failed = false

-- `started_at < now - lease`. A NULL stamp fails the comparison. On integers the test is
-- `started_at + lease < now`, which needs no subtraction.
abbrev pub is_before : Option ℕ → ℕ → ℕ → Bool
is_before none lease now = false
is_before (some at) lease now = ltb (at + lease) now

abbrev pub has_id : ℕ → Run → Bool
has_id id r = r.id == id

abbrev pub active_for : ℕ → Run → Bool
active_for incident r = r.incident_id == incident && is_active r.status

pub new_run : ℕ → ℕ → NewRun → Run
new_run id now n = record {
  id = id;
  incident_id = n.incident_id;
  status = RunStatus.pending;
  stop_reason = none;
  max_steps = n.max_steps;
  max_tool_calls = n.max_tool_calls;
  max_duration_seconds = n.max_duration_seconds;
  max_prompt_tokens = n.max_prompt_tokens;
  model = n.model;
  step_count = 0;
  tool_call_count = 0;
  prompt_tokens = 0;
  completion_tokens = 0;
  final_result = none;
  error = none;
  attempts = 0;
  started_at = none;
  finished_at = none;
  created_at = now;
  updated_at = now;
}

-- The constraints of agent_runs that an INSERT can violate: its primary key, uniq_active_run and
-- the foreign key to incidents (error 1452).
insert_error : Run → Db → Option DriverError
insert_error r db =
    if any (has_id r.id) db.runs
    then some (duplicate_entry primary)
    else if is_active r.status && any (active_for r.incident_id) db.runs
    then some (duplicate_entry uniq_active_run)
    else if any (is_incident r.incident_id) db.incidents
    then none
    else some (mysql_error 1452)

-- What ExecContext reports for the INSERT: a fault on the way, or a violated constraint.
exec_insert : Option DriverError → Run → Db → Option DriverError
exec_insert (some e) r db = some e
exec_insert none r db = insert_error r db

create_failed : DriverError → Result Run
create_failed e = if is_active_run_key e then err conflict else err (db_error e)

unfoldable pub create_run : ℕ → ℕ → Option DriverError → NewRun → Db → Result Run × Db
unfolding new_run exec_insert insert_error create_failed db_error is_active_run_key
create_run id now fault n db =
    let r = new_run id now n in
    elim (exec_insert fault r db) [
      | some e ↦ (create_failed e, db)
      | none ↦ (ok r, record db { runs = db.runs ++ r ∷ [] })
    ]

or_not_found : Option Run → Result Run
or_not_found none = err not_found
or_not_found (some r) = ok r

unfoldable pub get_run : ℕ → Option DriverError → Db → Result Run
unfolding or_not_found find
get_run id none db = or_not_found (find (has_id id) db.runs)
get_run id (some e) db = err (db_error e)

-- The condition of ClaimRun's UPDATE: the run is PENDING, or RUNNING under a claim that is older
-- than the lease.
abbrev pub is_claimable : ℕ → ℕ → Run → Bool
is_claimable lease now r =
    is_pending r.status || (is_running r.status && is_before r.started_at lease now)

-- Its SET clause.
unfoldable pub claimed_run : ℕ → Run → Run
claimed_run now r = record r {
  status = RunStatus.running;
  attempts = r.attempts + 1;
  started_at = some now;
  updated_at = now;
  step_count = 0;
  tool_call_count = 0;
  prompt_tokens = 0;
  completion_tokens = 0;
}

-- Whether a foreign key names a row that the test picks. A NULL names none.
abbrev pub refers : (ℕ → Bool) → Option ℕ → Bool
refers picked none = false
refers picked (some id) = picked id

-- `DELETE FROM agent_steps WHERE run_id = ?`: tool calls go with their step, and evidence with its
-- step or its tool call.
unfoldable pub delete_steps : ℕ → Db → Db
delete_steps run_id db =
    let gone = filter (λ (s : Step). s.run_id == run_id) db.steps in
    let is_gone = λ (step_id : ℕ). any (λ (s : Step). s.id == step_id) gone in
    let lost = filter (λ (c : ToolCall). is_gone c.step_id) db.tool_calls in
    let is_lost = λ (call_id : ℕ). any (λ (c : ToolCall). c.id == call_id) lost in
    record db {
      steps = filter (λ s. not (s.run_id == run_id)) db.steps;
      tool_calls = filter (λ c. not (is_gone c.step_id)) db.tool_calls;
      evidence = filter (λ e. not (is_gone e.step_id || refers is_lost e.tool_call_id)) db.evidence;
    }

-- The statements of ClaimRun's transaction, and the answer to its COMMIT: where that is lost, the COMMIT
-- was applied although it reports an error.
pub data Stage : Type 0 where
  begin update delete commit answer : Stage

-- The driver error of one statement, if it is the one that fails.
abbrev pub Fault : Type 0
Fault = Option (Stage × DriverError)

claim_update : ℕ → ℕ → ℕ → Db → Db
claim_update id lease now db = record db {
  runs = update_where (λ r. has_id id r && is_claimable lease now r) (claimed_run now) db.runs;
}

-- The deferred Rollback undoes the statements of a transaction that does not reach its Commit.
commit_claim : Fault → ℕ → Db → Db → Result Bool × Db
unfolding delete_steps
commit_claim (some (Stage.delete, e)) id before after = (err (db_error e), before)
commit_claim (some (Stage.commit, e)) id before after = (err (db_error e), before)
commit_claim (some (Stage.answer, e)) id before after = (err (db_error e), delete_steps id after)
commit_claim _ id before after = (ok true, delete_steps id after)

claim_rows : Fault → ℕ → ℕ → ℕ → Db → Result Bool × Db
unfolding claim_update commit_claim
claim_rows fault id lease now db =
    if any (λ r. has_id id r && is_claimable lease now r) db.runs
    then commit_claim fault id db (claim_update id lease now db)
    else (ok false, db)

unfoldable pub claim_run : Fault → ℕ → ℕ → ℕ → Db → Result Bool × Db
unfolding claim_rows
claim_run (some (Stage.begin, e)) id lease now db = (err (db_error e), db)
claim_run (some (Stage.update, e)) id lease now db = (err (db_error e), db)
claim_run fault id lease now db = claim_rows fault id lease now db

-- nullString and nullJSON.
null_bytes : Option Bytes → Option Bytes
null_bytes none = none
null_bytes (some s) = if is_empty s then none else some s

unfoldable pub finished_run : ℕ → RunOutcome → Run → Run
unfolding null_bytes
finished_run now out r = record r {
  status = out.status;
  stop_reason = some out.stop_reason;
  final_result = null_bytes out.final_result;
  error = null_bytes out.error;
  step_count = out.step_count;
  tool_call_count = out.tool_call_count;
  prompt_tokens = out.prompt_tokens;
  completion_tokens = out.completion_tokens;
  finished_at = some now;
  updated_at = now;
}

-- The condition of FinishRun's UPDATE: the run is RUNNING under this very claim.
abbrev pub is_held : ℕ → Run → Bool
is_held attempt r = is_running r.status && r.attempts == attempt

unfoldable pub finish_run : Option DriverError → ℕ → ℕ → RunOutcome → ℕ → Db → Result Bool × Db
unfolding finished_run
finish_run (some e) id attempt out now db = (err (db_error e), db)
finish_run none id attempt out now db =
    let held = λ (r : Run). has_id id r && is_held attempt r in
    (ok (any held db.runs), record db { runs = update_where held (finished_run now out) db.runs })
