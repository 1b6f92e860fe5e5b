-- ===== src/Store/Audit/Refers.antt =====
-- migrations/000001_initial_schema.up.sql: the foreign keys, and the unique key of steps.
use incident_diag.Base.{
  ℕ, ◌≤◌, ◌≡◌, refl, Bool, true, false, not, ◌&&◌, List, [], ◌∷◌, ◌++◌, Option, none, some, any,
  arith, count, filter, All, All-map,
}
use incident_diag.Store.Table.{update_where}
use incident_diag.Store.Rows.{Db, Run, Step, ToolCall, Evidence, is_incident}
use incident_diag.Store.Runs
use incident_diag.Store.Documents
use incident_diag.Store.Audit.{has_step_id, has_call_id, has_number, is_null_or}

abbrev pub run_refers : Db → Run → Bool
run_refers db r = any (is_incident r.incident_id) db.incidents

abbrev pub step_refers : Db → Step → Bool
step_refers db s = any (Runs.has_id s.run_id) db.runs

abbrev pub call_refers : Db → ToolCall → Bool
call_refers db c = any (Runs.has_id c.run_id) db.runs && any (has_step_id c.step_id) db.steps

abbrev pub evidence_refers : Db → Evidence → Bool
evidence_refers db e =
    any (Runs.has_id e.run_id) db.runs
    && (any (has_step_id e.step_id) db.steps
        && (is_null_or has_call_id e.tool_call_id db.tool_calls
            && is_null_or Documents.has_id e.document_id db.documents))

-- Every key of a row names a row that is there, and a run has one step of each number.
pub record IsSound (db : Db) : Type 0 where
  pub runs : All (λ r. run_refers db r ≡ true) db.runs
  pub steps : All (λ s. step_refers db s ≡ true) db.steps
  pub calls : All (λ c. call_refers db c ≡ true) db.tool_calls
  pub evidence : All (λ e. evidence_refers db e ≡ true) db.evidence
  pub numbers : (run number : ℕ) → count (has_number run number) db.steps ≤ 1

-- The ids of one table that another one has too.
abbrev pub Keeps {ℓ} : {A : Type ℓ} → (ℕ → A → Bool) → List A → List A → Type 0
Keeps has xs ys = (id : ℕ) → any (has id) xs ≡ true → any (has id) ys ≡ true

pub record Covers (db after : Db) : Type 0 where
  pub incidents : Keeps is_incident db.incidents after.incidents
  pub runs : Keeps Runs.has_id db.runs after.runs
  pub steps : Keeps has_step_id db.steps after.steps
  pub calls : Keeps has_call_id db.tool_calls after.tool_calls
  pub documents : Keeps Documents.has_id db.documents after.documents

module _ {ℓ} {A : Type ℓ} where
  pub any-append : (p : A → Bool) (xs ys : List A) → any p xs ≡ true → any p (xs ++ ys) ≡ true
  any-append p [] ys h = cc
  any-append p (x ∷ xs) ys h = ground (arith, any-append p xs ys)

  pub any-update_where :
      (q p : A → Bool) (f : A → A) (xs : List A)
      → ((x : A) → q (f x) ≡ q x)
      → any q (update_where p f xs) ≡ any q xs
  unfolding update_where
  any-update_where q p f [] h = refl
  any-update_where q p f (x ∷ xs) h = ground (arith, any-update_where q p f xs h, h x)

  pub All-update_where {κ} :
      (P : A → Type κ) (p : A → Bool) (f : A → A) (xs : List A)
      → ((x : A) → P x → P (f x))
      → All P xs
      → All P (update_where p f xs)
  unfolding update_where
  All-update_where P p f [] h k = tt
  All-update_where P p f (x ∷ xs) h k = ground (arith, All-update_where P p f xs h k.1, h x k.0)

  -- A row that is not deleted is found by its key as before.
  pub any-filter :
      (p q : A → Bool) (xs : List A)
      → any p xs ≡ true
      → any p (filter q xs) ≡ false
      → any p (filter (λ x. not (q x)) xs) ≡ true
  any-filter p q [] h k = cc
  any-filter p q (x ∷ xs) h k = ground (arith, any-filter p q xs)

  pub All-selected {κ μ} :
      (P : A → Type κ) (Q : A → Type μ) (p : A → Bool) (xs : List A)
      → ((x : A) → P x → p x ≡ true → Q x)
      → All P xs
      → All Q (filter p xs)
  All-selected P Q p [] f h = tt
  All-selected P Q p (x ∷ xs) f h = ground (arith, All-selected P Q p xs f h.1, f x h.0)

  pub Keeps-append : (has : ℕ → A → Bool) (xs ys : List A) → Keeps has xs (xs ++ ys)
  Keeps-append has xs ys id h = any-append (has id) xs ys h

  pub Keeps-itself : (has : ℕ → A → Bool) (xs : List A) → Keeps has xs xs
  Keeps-itself has xs id h = h

null_covers {ℓ} :
    {A : Type ℓ} (has : ℕ → A → Bool) (o : Option ℕ) (xs ys : List A)
    → Keeps has xs ys
    → is_null_or has o xs ≡ true
    → is_null_or has o ys ≡ true
null_covers has none xs ys k h = refl
null_covers has (some id) xs ys k h = k id h

module _ (db after : Db) (c : Covers db after) where
  pub run_covers : (r : Run) → run_refers db r ≡ true → run_refers after r ≡ true
  run_covers r h = c.incidents r.incident_id h

  pub step_covers : (s : Step) → step_refers db s ≡ true → step_refers after s ≡ true
  step_covers s h = c.runs s.run_id h

  pub call_covers : (x : ToolCall) → call_refers db x ≡ true → call_refers after x ≡ true
  call_covers x h = ground (arith, c.runs x.run_id, c.steps x.step_id)

  pub evidence_covers :
      (e : Evidence) → evidence_refers db e ≡ true → evidence_refers after e ≡ true
  evidence_covers e h = ground (
    arith,
    c.runs e.run_id,
    c.steps e.step_id,
    null_covers has_call_id e.tool_call_id db.tool_calls after.tool_calls c.calls,
    null_covers Documents.has_id e.document_id db.documents after.documents c.documents,
  )

  -- The rows of a sound table are sound beside more rows.
  pub covers-IsSound :
      IsSound db
      → All (λ r. run_refers after r ≡ true) after.runs
      → after.steps ≡ db.steps
      → after.tool_calls ≡ db.tool_calls
      → after.evidence ≡ db.evidence
      → IsSound after
  covers-IsSound v runs s t e = record {
    runs = runs;
    steps = rw s (All-map _ _ db.steps step_covers v.steps);
    calls = rw t (All-map _ _ db.tool_calls call_covers v.calls);
    evidence = rw e (All-map _ _ db.evidence evidence_covers v.evidence);
    numbers = rw s v.numbers;
  }
