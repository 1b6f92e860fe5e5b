-- ===== src/Store/Runs/Claim.antt =====
-- What ClaimRun does: all of its transaction, or nothing.
use incident_diag.Base.{
  ◌⊎◌, inl, inr, ℕ, ◌≤◌, ◌≡◌, ◌≢◌, refl, Bool, true, false, not, ◌&&◌, List, [], ◌∷◌, none, some,
  count, filter, ◌==◌, arith, ◌∙◌,
}
use incident_diag.Store.Errors.{ok, DriverError}
use incident_diag.Store.Table.{
  update_where, update_where_none, find, find-update_where, find-update_where_other, find-any,
  find-missed, find_passes,
}
use incident_diag.Store.Rows.{Db, Run, Step}
use incident_diag.Store.Runs.Ended.{IsTaken, claimed_run-IsTaken}
use incident_diag.Store.Runs.{Stage, has_id, is_claimable, claimed_run, claim_run, delete_steps}

-- A claim in which a statement fails, or the answer to the COMMIT is lost, leaves the database as it was,
-- or as a claim without a fault leaves it.
pub claim_run_faulty :
    (stage : Stage) (e : DriverError) (id lease now : ℕ) (db : Db)
    → let after = (claim_run (some (stage, e)) id lease now db).1 in
      (after ≡ db) ⊎ (after ≡ (claim_run none id lease now db).1)
unfolding claim_run
claim_run_faulty Stage.begin e id lease now db = inl refl
claim_run_faulty Stage.update e id lease now db = inl refl
claim_run_faulty Stage.delete e id lease now db = inl (ground arith)
claim_run_faulty Stage.commit e id lease now db = inl (ground arith)
claim_run_faulty Stage.answer e id lease now db = inr (ground arith)

-- The steps that a run has.
abbrev pub steps_of : ℕ → Db → List Step
steps_of id db = filter (λ s. s.run_id == id) db.steps

filter-dropped {ℓ} :
    {A : Type ℓ} (p : A → Bool) (xs : List A) → filter p (filter (λ x. not (p x)) xs) ≡ []
filter-dropped p [] = refl
filter-dropped p (x ∷ xs) = ground (arith, filter-dropped p xs)

filter-filter_other {ℓ} :
    {A : Type ℓ} (p q : A → Bool) (xs : List A)
    → ((x : A) → p x ≡ true → q x ≡ false)
    → filter p (filter (λ x. not (q x)) xs) ≡ filter p xs
filter-filter_other p q [] h = refl
filter-filter_other p q (x ∷ xs) h = ground (arith, filter-filter_other p q xs h, h x)

module _ (id lease now : ℕ) (db : Db) where
  abbrev pub picks : Run → Bool
  picks r = has_id id r && is_claimable lease now r

  -- Taken or refused, the claim rewrites the rows that it picks.
  pub claim_run-runs :
      (claim_run none id lease now db).1.runs ≡ update_where picks (claimed_run now) db.runs
  unfolding claim_run delete_steps
  claim_run-runs = ground (arith, update_where_none picks (claimed_run now) db.runs)

  pub claim_run_taken :
      (r : Run)
      → find (has_id id) db.runs ≡ some r
      → is_claimable lease now r ≡ true
      → claim_run none id lease now db ≡ (
        ok true,
        delete_steps id (record db { runs = update_where picks (claimed_run now) db.runs }),
      )
  unfolding claim_run
  claim_run_taken r e h =
      rw (
        find-any picks (has_id id) db.runs r e
          (ground (arith, find_passes (has_id id) db.runs r e)))

  -- The row that a claim writes, and the steps that it leaves.
  pub claim_run_marks :
      (r : Run)
      → find (has_id id) db.runs ≡ some r
      → is_claimable lease now r ≡ true
      → let (result, after) = claim_run none id lease now db in
        (result ≡ ok true)
        × (find (has_id id) after.runs ≡ some (claimed_run now r))
        × (steps_of id after ≡ [])
        × ((j : ℕ)
            → j ≢ id
            → (find (has_id j) after.runs ≡ find (has_id j) db.runs)
              × (steps_of j after ≡ steps_of j db))
  unfolding delete_steps claimed_run
  claim_run_marks r e h = rw (claim_run_taken r e h) (
    refl,
    row,
    filter-dropped (λ s. s.run_id == id) db.steps,
    (λ j ne. (
      find-update_where_other (has_id j) picks (claimed_run now) db.runs (λ x k. ground (arith, ne))
          (λ x k. ground (arith, ne)),
      filter-filter_other (λ s. s.run_id == j) (λ s. s.run_id == id) db.steps
          (λ s k. ground (arith, ne)),
    )),
  )
    where
      row :
          find (has_id id) (update_where picks (claimed_run now) db.runs) ≡ some (claimed_run now r)
      row =
          find-update_where (has_id id) picks (claimed_run now) db.runs r (λ y. refl) e
          ∙ ground (arith, find_passes (has_id id) db.runs r e)

  -- A claim of a run that is PENDING, or RUNNING under a claim older than the lease, takes it: the
  -- row is RUNNING with one more attempt, a new stamp and its four counters at 0, and its other columns
  -- are as they were; its steps are gone, and the row and the steps of every other run are what they
  -- were.
  pub claim_run_takes :
      (r : Run)
      → find (has_id id) db.runs ≡ some r
      → is_claimable lease now r ≡ true
      → let (result, after) = claim_run none id lease now db in
        (result ≡ ok true)
        × ((r' : Run) × (find (has_id id) after.runs ≡ some r') × IsTaken now r r')
        × (steps_of id after ≡ [])
        × ((j : ℕ)
            → j ≢ id
            → (find (has_id j) after.runs ≡ find (has_id j) db.runs)
              × (steps_of j after ≡ steps_of j db))
  claim_run_takes r e h =
      let (taken, row, gone, others) = claim_run_marks r e h in
      (taken, (claimed_run now r, row, claimed_run-IsTaken now r), gone, others)

  -- Any other claim is refused and changes nothing.
  pub claim_run_refuses :
      (r : Run)
      → count (has_id id) db.runs ≤ 1
      → find (has_id id) db.runs ≡ some r
      → is_claimable lease now r ≡ false
      → claim_run none id lease now db ≡ (ok false, db)
  unfolding claim_run
  claim_run_refuses r c e h =
      rw (find-missed picks (has_id id) db.runs r (λ y k. ground arith) c e (ground arith))
