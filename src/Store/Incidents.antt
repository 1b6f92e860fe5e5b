-- ===== src/Store/Incidents.antt =====
-- internal/store/incidents.go: the filed incidents.
use incident_diag.Base.{ℕ, true, [], ◌∷◌, ◌++◌, Option, none, some, any, if◌then◌else◌, Bytes}
use incident_diag.Store.Errors.{
  Result, ok, err, not_found, DriverError, duplicate_entry, primary, db_error,
}
use incident_diag.Store.Table.{find}
use incident_diag.Store.Rows.{Db, Incident, is_incident}
use incident_diag.Store.Page.{Page, PageParams, list_page}

pub record NewIncident : Type 0 where
  pub title : Bytes
  pub description : Bytes
  pub service : Option Bytes

unfoldable pub new_incident : ℕ → ℕ → NewIncident → Incident
new_incident id now n = record {
  id = id;
  title = n.title;
  description = n.description;
  service = n.service;
  created_at = now;
  updated_at = now;
}

insert_incident : Option DriverError → Incident → Db → Result Incident × Db
insert_incident (some e) i db = (err (db_error e), db)
insert_incident none i db =
    if any (is_incident i.id) db.incidents
    then (err (db_error (duplicate_entry primary)), db)
    else (ok i, record db { incidents = db.incidents ++ i ∷ [] })

-- The new row takes the id that `id.New` gives and the clock's reading.
unfoldable pub create_incident :
    ℕ → ℕ → Option DriverError → NewIncident → Db → Result Incident × Db
unfolding insert_incident
create_incident id now fault n db = insert_incident fault (new_incident id now n) db

or_not_found : Option Incident → Result Incident
or_not_found none = err not_found
or_not_found (some i) = ok i

unfoldable pub get_incident : ℕ → Option DriverError → Db → Result Incident
unfolding or_not_found
get_incident id none db = or_not_found (find (is_incident id) db.incidents)
get_incident id (some e) db = err (db_error e)

unfoldable pub list_incidents : Option DriverError → PageParams → Db → Result (Page Incident)
list_incidents (some e) p db = err (db_error e)
list_incidents none p db = ok (list_page (λ (i : Incident). i.id) (λ i. true) p db.incidents)
