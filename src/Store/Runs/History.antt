-- ===== src/Store/Runs/History.antt =====
-- The calls that change agent_runs, in any order and with any faults.
use incident_diag.Base.{ℕ, List, [], ◌∷◌, Option}
use incident_diag.Store.Errors.{DriverError}
use incident_diag.Store.Rows.{Db, NewRun, RunOutcome}
use incident_diag.Store.Runs.{Fault, create_run, claim_run, finish_run}

pub data Call : Type 0 where
  creates : ℕ → ℕ → Option DriverError → NewRun → Call
  claims : Fault → ℕ → ℕ → ℕ → Call
  finishes : Option DriverError → ℕ → ℕ → RunOutcome → ℕ → Call

unfoldable pub apply : Call → Db → Db
apply (creates id now fault n) db = (create_run id now fault n db).1
apply (claims fault id lease now) db = (claim_run fault id lease now db).1
apply (finishes fault id attempt out now) db = (finish_run fault id attempt out now db).1

-- The database after a sequence of calls, the first one first.
unfoldable pub replay : List Call → Db → Db
replay [] db = db
replay (c ∷ cs) db = replay cs (apply c db)
