-- ===== src/Store/Runs/Create.antt =====
-- internal/store/runs.go, CreateRun: what it leaves with each result.
use incident_diag.Base.{
  ℕ, ◌≡◌, refl, true, false, [], ◌∷◌, ◌++◌, Option, none, some, any, arith, if-cases, sym, ◌∙◌,
  Option-cases, inl, inr,
}
use incident_diag.Store.Errors.{Result, ok, err, Kind, conflict, DriverError, is_active_run_key}
use incident_diag.Store.Rows.{Db, Run, NewRun, is_incident}
use incident_diag.Store.Runs.{
  has_id, active_for, new_run, create_run, exec_insert, insert_error, create_failed,
}

module _ (id now : ℕ) (fault : Option DriverError) (n : NewRun) (db : Db) where
  -- A row for an incident with no run in flight, or an error that is a conflict if nothing else is wrong.
  abbrev pub Creates : Result Run × Db → Type 0
  Creates (ok r, db') =
      (any (active_for n.incident_id) db.runs ≡ false)
      × ((r ≡ new_run id now n) × (db' ≡ record db { runs = db.runs ++ r ∷ [] }))
  Creates (err k, db') =
      (db' ≡ db)
      × (fault ≡ none
          → any (has_id id) db.runs ≡ false
          → any (is_incident n.incident_id) db.incidents ≡ true
          → (k ≡ conflict) × (any (active_for n.incident_id) db.runs ≡ true))

  insert_error-none :
      insert_error (new_run id now n) db ≡ none → any (active_for n.incident_id) db.runs ≡ false
  unfolding insert_error new_run
  insert_error-none h = ground arith

  insert_error-some :
      (e : DriverError)
      → insert_error (new_run id now n) db ≡ some e
      → any (has_id id) db.runs ≡ false
      → any (is_incident n.incident_id) db.incidents ≡ true
      → (create_failed e ≡ err conflict) × (any (active_for n.incident_id) db.runs ≡ true)
  unfolding insert_error new_run create_failed is_active_run_key
  insert_error-some e h fresh known = ground arith

  exec_insert_lem :
      (o : Option DriverError) (x : DriverError)
      → exec_insert o (new_run id now n) db ≡ some x
      → o ≡ none
      → insert_error (new_run id now n) db ≡ some x
  unfolding exec_insert
  exec_insert_lem none x h e = h
  exec_insert_lem (some y) x h e = cc

  exec_insert-none :
      (o : Option DriverError)
      → exec_insert o (new_run id now n) db ≡ none
      → insert_error (new_run id now n) db ≡ none
  unfolding exec_insert
  exec_insert-none none h = h
  exec_insert-none (some y) h = cc

  create_failed_lem : (x : DriverError) → (k : Kind) × (create_failed x ≡ err k)
  unfolding create_failed
  create_failed_lem x =
      if-cases (λ (r : Result Run). (k : Kind) × (r ≡ err k)) (is_active_run_key x) _ _
        (λ _. (_, refl)) (λ _. (_, refl))

  pub create_run-Creates : Creates (create_run id now fault n db)
  unfolding create_run
  create_run-Creates = elim (Option-cases (exec_insert fault (new_run id now n) db)) [
    | inl e ↦ rw (e, create_run) (insert_error-none (exec_insert-none fault e), (refl, refl))
    | inr (x, e) ↦
        let (k, g) = create_failed_lem x in
        rw (e, create_run, g)
          (
            refl,
            λ o fresh known.
                let (c, busy) = insert_error-some x (exec_insert_lem fault x e o) fresh known in
                let same : ◌≡◌ {A = Result Run} (err k) (err conflict) = sym g ∙ c in (cc, busy),
          )
  ]
