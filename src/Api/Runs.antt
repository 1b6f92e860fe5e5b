-- ===== src/Api/Runs.antt =====
-- internal/api/runs.go and incidents.go: the creation of a run and of an incident. A malformed id is `none`.
-- What the two statements meet, the new id, the clock and whether the producer takes the message are
-- inputs. A reply is the row that it shows or the kind of its error.
pub mod Created
use incident_diag.Base.{
  ℕ, Bool, true, false, List, [], ◌∷◌, ◌++◌, Option, none, some, if◌then◌else◌, Bytes,
}
use incident_diag.Text.{codes}
use incident_diag.Store.Errors
use incident_diag.Store.Errors.{Kind, not_found, DriverError}
use incident_diag.Store.Rows.{Db, Run, NewRun, Incident}
use incident_diag.Store.Runs
use incident_diag.Store.Incidents
use incident_diag.Store.Incidents.{NewIncident}
use incident_diag.Api.Validation.{Code, Validation, no_problems, Failure, err}
use incident_diag.Api.Fields.{required_text, optional_text, optional_service}

-- What a request changes: the database, and the ids of the runs that workers are asked for.
pub record State : Type 0 where
  pub db : Db
  pub sent : List ℕ

pub data Reply (A : Type 0) : Type 0 where
  created : A → Reply A
  rejected : Kind → Reply A
  invalid : Failure → Reply A

-- The settings of Deps that a new run records.
pub record Settings : Type 0 where
  pub model : Bytes
  pub max_steps : ℕ
  pub max_tool_calls : ℕ
  pub max_duration_seconds : ℕ
  pub max_prompt_tokens : ℕ

abbrev pub new_run : Settings → ℕ → NewRun
new_run s incident = record {
  incident_id = incident;
  model = s.model;
  max_steps = s.max_steps;
  max_tool_calls = s.max_tool_calls;
  max_duration_seconds = s.max_duration_seconds;
  max_prompt_tokens = s.max_prompt_tokens;
}

module _ (id now : ℕ) (read_fault write_fault : Option DriverError) where
  module _ (s : Settings) (is_produced : Bool) where
    -- createRun behind the INSERT, with enqueueRun.
    abbrev pub inserted : Errors.Result Run × Db → State → Reply Run × State
    inserted (Errors.err k, db) st = (rejected k, record st { db = db })
    inserted (Errors.ok r, db) st = (
      created r,
      record st { db = db; sent = if is_produced then st.sent ++ r.id ∷ [] else st.sent },
    )

    abbrev pub behind_incident : ℕ → Errors.Result Incident → State → Reply Run × State
    behind_incident i (Errors.err k) st = (rejected k, st)
    behind_incident i (Errors.ok _) st =
        inserted (Runs.create_run id now write_fault (new_run s i) st.db) st

    -- Server.createRun.
    unfoldable pub create_run : Option ℕ → State → Reply Run × State
    create_run none st = (rejected not_found, st)
    create_run (some i) st = behind_incident i (Incidents.get_incident i read_fault st.db) st

  module _ (rune_count : Bytes → ℕ) (message : Code → Bytes → Bytes) where
    abbrev service_of : Option Bytes → Validation → Validation × Option Bytes
    service_of none v = (v, none)
    service_of (some s) v = optional_service rune_count message s v

    abbrev stored : Errors.Result Incident × Db → Reply Incident × Db
    stored (Errors.ok i, db) = (created i, db)
    stored (Errors.err k, db) = (rejected k, db)

    -- Server.createIncident, from the fields of the body.
    unfoldable pub create_incident : Bytes → Bytes → Option Bytes → Db → Reply Incident × Db
    create_incident title description service db =
        let (v, t) = required_text rune_count message (codes "title") title 255 no_problems in
        let (v', d) = optional_text rune_count message (codes "description") description 8192 v in
        let (v'', s) = service_of service v' in
        elim (err v'') [
          | some f ↦ (invalid f, db)
          | none ↦ stored (
              Incidents.create_incident id now write_fault
                (record { title = t; description = d; service = s }) db)
        ]
