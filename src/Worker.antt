-- ===== src/Worker.antt =====
-- internal/agentrun/agentrun.go: what the worker does with one message of agent.runs.v1. The decoded
-- message is its run id, and nothing where it cannot be decoded.
pub mod Outcomes
pub mod Report
use incident_diag.Base.{
  ℕ, Bool, true, false, List, [], ◌∷◌, ◌++◌, Option, none, some, any, ◌==◌, if◌then◌else◌,
}
use incident_diag.Store.Errors.{Result, ok, err, Kind, not_found, DriverError, db_error}
use incident_diag.Store.Rows.{Db, Run, RunOutcome, is_incident}
use incident_diag.Store.Runs.{Fault, claim_run, get_run, finish_run}

-- What the handler asks of the event stream of the run. A failure there is logged and no more.
pub data Event : Type 0 where
  trimmed : Event
  run_started : Run → Event
  run_finished : Run → Event

-- The lease, the clock's readings, and the driver error of each statement, if it has one.
pub record Conditions : Type 0 where
  pub lease : ℕ
  pub claimed_at : ℕ
  pub finished_at : ℕ
  pub claim_fault : Fault
  pub refused_fault : Option DriverError
  pub run_fault : Option DriverError
  pub incident_fault : Option DriverError
  pub finish_fault : Option DriverError
  pub reread_fault : Option DriverError

-- The error that Handle returns, the database that it leaves, and what it asked of the stream.
pub record Handled : Type 0 where
  pub error : Option Kind
  pub db : Db
  pub events : List Event

-- Store.GetIncident, as far as the handler depends on it: whether the row is there.
unfoldable pub incident_error : ℕ → Option DriverError → Db → Option Kind
incident_error id (some e) db = some (db_error e)
incident_error id none db = if any (is_incident id) db.incidents then none else some not_found

-- `time.Duration` and the counters apart, the investigation is a parameter: from the row of the run and
-- the database, its outcome if it is not cancelled, and the database afterwards, with what the steps and
-- all other workers wrote meanwhile.
module _ (agent_run : Run → Db → Option RunOutcome × Db) (c : Conditions) where
  -- run.finished is published with the row that is read back.
  publish_finished : Result Run → Db → List Event → Handled
  publish_finished (ok r) db events = record {
    error = none;
    db = db;
    events = events ++ run_finished r ∷ [];
  }
  publish_finished (err k) db events = record { error = none; db = db; events = events }

  after_write : ℕ → Result Bool → Db → List Event → Handled
  unfolding publish_finished
  after_write id (err k) db events = record { error = some k; db = db; events = events }
  after_write id (ok false) db events = record { error = none; db = db; events = events }
  after_write id (ok true) db events = publish_finished (get_run id c.reread_fault db) db events

  -- Handler.finish.
  unfoldable pub finish : ℕ → ℕ → RunOutcome → Db → List Event → Handled
  unfolding after_write
  finish id attempt out db events =
      let (written, db') = finish_run c.finish_fault id attempt out c.finished_at db in
      after_write id written db' events

  after_agent : ℕ → ℕ → Option RunOutcome → Db → List Event → Handled
  unfolding finish
  after_agent id attempt none db events = record { error = none; db = db; events = events }
  after_agent id attempt (some out) db events = finish id attempt out db events

  with_incident : ℕ → Run → Option Kind → Db → Handled
  unfolding after_agent
  with_incident id r (some k) db = record { error = some k; db = db; events = [] }
  with_incident id r none db =
      let (out, db') = agent_run r db in
      after_agent id r.attempts out db' (trimmed ∷ (run_started r ∷ []))

  with_run : ℕ → Result Run → Db → Handled
  unfolding with_incident
  with_run id (err k) db = record { error = some k; db = db; events = [] }
  with_run id (ok r) db = with_incident id r (incident_error r.incident_id c.incident_fault db) db

  -- Handler.investigate.
  unfoldable pub investigate : ℕ → Db → Handled
  unfolding with_run
  investigate id db = with_run id (get_run id c.run_fault db) db

  explained : Result Run → Option Kind
  explained (ok r) = none
  explained (err Kind.not_found) = none
  explained (err Kind.internal) = some Kind.internal
  explained (err Kind.invalid) = some Kind.invalid
  explained (err Kind.conflict) = some Kind.conflict
  explained (err Kind.unavailable) = some Kind.unavailable

  -- explainRefusedClaim.
  unfoldable pub explain_refused_claim : ℕ → Db → Handled
  unfolding explained
  explain_refused_claim id db = record {
    error = explained (get_run id c.refused_fault db);
    db = db;
    events = [];
  }

  after_claim : ℕ → Result Bool → Db → Handled
  unfolding investigate explain_refused_claim
  after_claim id (err k) db = record { error = some k; db = db; events = [] }
  after_claim id (ok false) db = explain_refused_claim id db
  after_claim id (ok true) db = investigate id db

  -- Handler.Handle.
  unfoldable pub handle : Option ℕ → Db → Handled
  unfolding after_claim
  handle none db = record { error = none; db = db; events = [] }
  handle (some id) db =
      let (claimed, db') = claim_run c.claim_fault id c.lease c.claimed_at db in
      after_claim id claimed db'
