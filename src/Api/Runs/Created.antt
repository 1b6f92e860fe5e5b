-- ===== src/Api/Runs/Created.antt =====
-- internal/api/runs.go: when a run is created, and what a refusal says.
use incident_diag.Base.{
  ℕ, ◌≡◌, ◌⊎◌, Bool, true, false, [], ◌∷◌, ◌++◌, Option, none, some, any, if◌then◌else◌,
}
use incident_diag.Store.Errors
use incident_diag.Store.Errors.{Kind, not_found, conflict, DriverError}
use incident_diag.Store.Rows.{Db, Run, Incident, is_incident}
use incident_diag.Store.Runs
use incident_diag.Store.Incidents
use incident_diag.Api.Runs.{State, Reply, created, rejected, invalid, Settings, new_run}

-- What reading the incident says.
abbrev Reads : Option DriverError → ℕ → Db → Errors.Result Incident → Type 0
Reads fault i db (Errors.ok x) = any (is_incident i) db.incidents ≡ true
Reads fault i db (Errors.err e) =
    fault ≡ none → (e ≡ not_found) × (any (is_incident i) db.incidents ≡ false)

module _ (id now : ℕ) (read_fault write_fault : Option DriverError) (s : Settings)
    (is_produced : Bool) where
  abbrev Faultless : State → Type 0
  Faultless st =
      (read_fault ≡ none) × ((write_fault ≡ none) × (any (Runs.has_id id) st.db.runs ≡ false))

  -- The incident is there and has no run in flight.
  abbrev IsKnown : ℕ → State → Type 0
  IsKnown i st = any (is_incident i) st.db.incidents ≡ true

  abbrev IsBusy : ℕ → State → Type 0
  IsBusy i st = any (Runs.active_for i) st.db.runs ≡ true

  abbrev pub IsAnswered : Option ℕ → State → Reply Run × State → Type 0
  IsAnswered i st (created r, st') =
      (k : ℕ) × ((i ≡ some k)
        × (IsKnown k st
            × ((any (Runs.active_for k) st.db.runs ≡ false)
                × ((r ≡ Runs.new_run id now (new_run s k))
                    × ((st'.db ≡ record st.db { runs = st.db.runs ++ r ∷ [] })
                        × (st'.sent ≡ (if is_produced then st.sent ++ r.id ∷ [] else st.sent)))))))
  IsAnswered i st (rejected e, st') =
      (st' ≡ st)
      × (Faultless st
          → ((e ≡ not_found) × ((k : ℕ) → i ≡ some k → any (is_incident k) st.db.incidents ≡ false))
            ⊎ ((e ≡ conflict) × ((k : ℕ) × ((i ≡ some k) × IsBusy k st))))
  IsAnswered i st (invalid f, st') = ⊥
