-- ===== src/Store/Audit/Cases.antt =====
-- An INSERT of the audit trail fails and changes nothing, or violates no constraint and adds its row.
use incident_diag.Base.{ℕ, ◌≡◌, [], ◌∷◌, ◌++◌, Option, none, some, Option-cases, inl, inr}
use incident_diag.Store.Errors.{Result, ok, err, Kind, DriverError, db_error}
use incident_diag.Store.Rows.{Db, Step, ToolCall, Evidence}
use incident_diag.Store.Audit.{
  NewStep, NewToolCall, NewEvidence, new_step, new_tool_call, new_evidence, step_error, call_error,
  evidence_error, create_step, create_tool_call, create_evidence, exec,
}

pub create_step_cases {ℓ} :
    (P : Result Step × Db → Type ℓ) (id now : ℕ) (fault : Option DriverError) (n : NewStep)
    (db : Db)
    → ((k : Kind) → P (err k, db))
    → (step_error (new_step id now n) db ≡ none
        → P (ok (new_step id now n), record db { steps = db.steps ++ new_step id now n ∷ [] }))
    → P (create_step id now fault n db)
unfolding create_step exec
create_step_cases P id now (some e) n db refused added = refused _
create_step_cases P id now none n db refused added =
    elim (Option-cases (step_error (new_step id now n) db)) [
      | inl e ↦ rw (create_step, e) (added e)
      | inr h ↦ rw (create_step, h.1) (refused (db_error (h.0)))
    ]

pub create_tool_call_cases {ℓ} :
    (P : Result ToolCall × Db → Type ℓ) (id now : ℕ) (fault : Option DriverError) (n : NewToolCall)
    (db : Db)
    → ((k : Kind) → P (err k, db))
    → (call_error (new_tool_call id now n) db ≡ none
        → P (
          ok (new_tool_call id now n),
          record db { tool_calls = db.tool_calls ++ new_tool_call id now n ∷ [] },
        ))
    → P (create_tool_call id now fault n db)
unfolding create_tool_call exec
create_tool_call_cases P id now (some e) n db refused added = refused _
create_tool_call_cases P id now none n db refused added =
    elim (Option-cases (call_error (new_tool_call id now n) db)) [
      | inl e ↦ rw (create_tool_call, e) (added e)
      | inr h ↦ rw (create_tool_call, h.1) (refused (db_error (h.0)))
    ]

pub create_evidence_cases {ℓ} :
    (P : Result Evidence × Db → Type ℓ) (id now : ℕ) (fault : Option DriverError) (n : NewEvidence)
    (db : Db)
    → ((k : Kind) → P (err k, db))
    → (evidence_error (new_evidence id now n) db ≡ none
        → P (
          ok (new_evidence id now n),
          record db { evidence = db.evidence ++ new_evidence id now n ∷ [] },
        ))
    → P (create_evidence id now fault n db)
unfolding create_evidence exec
create_evidence_cases P id now (some e) n db refused added = refused _
create_evidence_cases P id now none n db refused added =
    elim (Option-cases (evidence_error (new_evidence id now n) db)) [
      | inl e ↦ rw (create_evidence, e) (added e)
      | inr h ↦ rw (create_evidence, h.1) (refused (db_error (h.0)))
    ]
