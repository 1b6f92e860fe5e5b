-- ===== src/Store/Audit/Kept.antt =====
-- A new row that refers to rows that are there keeps the keys, and so do the updates and the cascade
-- of ClaimRun's DELETE.
use incident_diag.Base.{
  ℕ, ◌≡◌, refl, Bool, true, false, not, ◌||◌, List, [], ◌∷◌, ◌++◌, Option, none, some, any, arith,
  count-filter_le, filter, All-map, All-append, ◌==◌,
}
use incident_diag.Store.Table.{update_where, count-insert}
use incident_diag.Store.Rows.{Db, Run, Document, Step, ToolCall, Evidence, Incident, is_incident}
use incident_diag.Store.Runs.{Stage, Fault, delete_steps}
use incident_diag.Store.Runs
use incident_diag.Store.Documents
use incident_diag.Store.Audit.{
  has_step_id, has_call_id, has_number, is_null_or, step_error, call_error, evidence_error,
}
use incident_diag.Store.Audit.Refers.{
  IsSound, Covers, run_refers, step_refers, call_refers, evidence_refers, any-update_where,
  All-update_where, any-filter, All-selected, Keeps-append, Keeps-itself, run_covers, call_covers,
  evidence_covers, covers-IsSound,
}

module _ (db : Db) (v : IsSound db) where
  pub run_added :
      (r : Run) → run_refers db r ≡ true → IsSound (record db { runs = db.runs ++ r ∷ [] })
  run_added r h =
      let after : Db = record db { runs = db.runs ++ r ∷ [] } in
      let c : Covers db after = record {
        incidents = Keeps-itself is_incident db.incidents;
        runs = Keeps-append Runs.has_id db.runs (r ∷ []);
        steps = Keeps-itself has_step_id db.steps;
        calls = Keeps-itself has_call_id db.tool_calls;
        documents = Keeps-itself Documents.has_id db.documents;
      } in
      covers-IsSound db after c v
        (All-append (λ x. run_refers db x ≡ true) db.runs (r ∷ []) v.runs (h, tt)) refl refl refl

  pub incident_added : (i : Incident) → IsSound (record db { incidents = db.incidents ++ i ∷ [] })
  incident_added i =
      let after : Db = record db { incidents = db.incidents ++ i ∷ [] } in
      let c : Covers db after = record {
        incidents = Keeps-append is_incident db.incidents (i ∷ []);
        runs = Keeps-itself Runs.has_id db.runs;
        steps = Keeps-itself has_step_id db.steps;
        calls = Keeps-itself has_call_id db.tool_calls;
        documents = Keeps-itself Documents.has_id db.documents;
      } in
      covers-IsSound db after c v (All-map _ _ db.runs (run_covers db after c) v.runs) refl refl
        refl

  -- Documents are added, or changed under their ids.
  pub documents_kept :
      (ds : List Document)
      → ((id : ℕ)
          → any (Documents.has_id id) db.documents ≡ true
          → any (Documents.has_id id) ds ≡ true)
      → IsSound (record db { documents = ds })
  documents_kept ds kept =
      let after : Db = record db { documents = ds } in
      let c : Covers db after = record {
        incidents = Keeps-itself is_incident db.incidents;
        runs = Keeps-itself Runs.has_id db.runs;
        steps = Keeps-itself has_step_id db.steps;
        calls = Keeps-itself has_call_id db.tool_calls;
        documents = kept;
      } in
      covers-IsSound db after c v v.runs refl refl refl

  pub documents_updated :
      (p : Document → Bool) (f : Document → Document)
      → ((d : Document) → (f d).id ≡ d.id)
      → IsSound (record db { documents = update_where p f db.documents })
  documents_updated p f ids = documents_kept (update_where p f db.documents) (λ id h.
      rw (any-update_where (Documents.has_id id) p f db.documents (λ d. ground (arith, ids d))) h)

  pub step_added :
      (s : Step) → step_error s db ≡ none → IsSound (record db { steps = db.steps ++ s ∷ [] })
  unfolding step_error
  step_added s e =
      let after : Db = record db { steps = db.steps ++ s ∷ [] } in
      let c : Covers db after = record {
        incidents = Keeps-itself is_incident db.incidents;
        runs = Keeps-itself Runs.has_id db.runs;
        steps = Keeps-append has_step_id db.steps (s ∷ []);
        calls = Keeps-itself has_call_id db.tool_calls;
        documents = Keeps-itself Documents.has_id db.documents;
      } in
      record {
        runs = v.runs;
        steps =
            All-append (λ x. step_refers after x ≡ true) db.steps (s ∷ []) v.steps
              (ground arith, tt);
        calls = All-map _ _ db.tool_calls (call_covers db after c) v.calls;
        evidence = All-map _ _ db.evidence (evidence_covers db after c) v.evidence;
        numbers = λ run number.
            count-insert (has_number run number) db.steps s (λ h. ground arith)
              (v.numbers run number);
      }

  pub call_added :
      (x : ToolCall)
      → call_error x db ≡ none
      → IsSound (record db { tool_calls = db.tool_calls ++ x ∷ [] })
  unfolding call_error
  call_added x e =
      let after : Db = record db { tool_calls = db.tool_calls ++ x ∷ [] } in
      let c : Covers db after = record {
        incidents = Keeps-itself is_incident db.incidents;
        runs = Keeps-itself Runs.has_id db.runs;
        steps = Keeps-itself has_step_id db.steps;
        calls = Keeps-append has_call_id db.tool_calls (x ∷ []);
        documents = Keeps-itself Documents.has_id db.documents;
      } in
      record {
        runs = v.runs;
        steps = v.steps;
        calls =
            All-append (λ y. call_refers after y ≡ true) db.tool_calls (x ∷ []) v.calls
              (ground arith, tt);
        evidence = All-map _ _ db.evidence (evidence_covers db after c) v.evidence;
        numbers = v.numbers;
      }

  pub evidence_added :
      (x : Evidence)
      → evidence_error x db ≡ none
      → IsSound (record db { evidence = db.evidence ++ x ∷ [] })
  unfolding evidence_error
  evidence_added x e = record {
    runs = v.runs;
    steps = v.steps;
    calls = v.calls;
    evidence =
        All-append (λ y. evidence_refers db y ≡ true) db.evidence (x ∷ []) v.evidence
          (ground arith, tt);
    numbers = v.numbers;
  }

-- An UPDATE of runs that keeps their ids and incidents.
module _ (p : Run → Bool) (f : Run → Run) (ids : (r : Run) → (f r).id ≡ r.id)
    (incidents : (r : Run) → (f r).incident_id ≡ r.incident_id) (db : Db) (v : IsSound db) where
  abbrev updated : Db
  updated = record db { runs = update_where p f db.runs }

  updated_runs : Covers db updated
  updated_runs = record {
    incidents = Keeps-itself is_incident db.incidents;
    runs =
        λ id h. rw (any-update_where (Runs.has_id id) p f db.runs (λ r. ground (arith, ids r))) h;
    steps = Keeps-itself has_step_id db.steps;
    calls = Keeps-itself has_call_id db.tool_calls;
    documents = Keeps-itself Documents.has_id db.documents;
  }

  pub update-IsSound : IsSound updated
  update-IsSound =
      covers-IsSound db updated updated_runs v
        (All-update_where (λ r. run_refers db r ≡ true) p f db.runs (λ r h. rw (incidents r) h)
          v.runs)
        refl refl refl

null_kept {ℓ} :
    {A : Type ℓ} (has : ℕ → A → Bool) (q : A → Bool) (o : Option ℕ) (xs : List A)
    → is_null_or has o xs ≡ true
    → Runs.refers (λ i. any (has i) (filter q xs)) o ≡ false
    → is_null_or has o (filter (λ x. not (q x)) xs) ≡ true
null_kept has q none xs h k = refl
null_kept has q (some i) xs h k = any-filter (has i) q xs h k

pub delete-IsSound : (id : ℕ) (db : Db) → IsSound db → IsSound (delete_steps id db)
unfolding delete_steps
delete-IsSound id db v =
    let of_run = λ (s : Step). s.run_id == id in
    let is_gone = λ (i : ℕ). any (has_step_id i) (filter of_run db.steps) in
    let is_lost =
      λ (i : ℕ). any (has_call_id i) (filter (λ (c : ToolCall). is_gone c.step_id) db.tool_calls) in
    record {
      runs = v.runs;
      steps = All-selected _ _ (λ s. not (of_run s)) db.steps (λ s h k. h) v.steps;
      calls =
          All-selected _ _ (λ c. not (is_gone c.step_id)) db.tool_calls
            (λ c h k. ground (arith, any-filter (has_step_id c.step_id) of_run db.steps)) v.calls;
      evidence =
          All-selected _ _ (λ e. not (is_gone e.step_id || Runs.refers is_lost e.tool_call_id))
            db.evidence
            (λ e h k. ground (
              arith,
              any-filter (has_step_id e.step_id) of_run db.steps,
              null_kept has_call_id (λ c. is_gone c.step_id) e.tool_call_id db.tool_calls,
            ))
            v.evidence;
      numbers = λ run number. omega (
        arith,
        count-filter_le (has_number run number) (λ s. not (of_run s)) db.steps,
        v.numbers run number,
      );
    }
