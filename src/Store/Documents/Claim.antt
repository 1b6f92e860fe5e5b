-- ===== src/Store/Documents/Claim.antt =====
-- What ClaimDocument does to the row of an id, and when.
use incident_diag.Base.{
  ℕ, ◌+◌, ◌≤◌, ◌≡◌, ◌≢◌, refl, Bool, true, false, ◌&&◌, List, none, some, any, count, arith, ◌∙◌,
}
use incident_diag.Store.Errors.{ok}
use incident_diag.Store.Table.{
  update_where, update_where_none, find, find-update_where, find-update_where_other, find-any,
  find-missed, find_passes, count-update_where,
}
use incident_diag.Store.Rows.{Db, Document}
use incident_diag.Store.Documents.{has_id, is_claimable, claimed_document, claim_document}

module _ (id lease now : ℕ) (db : Db) (d : Document)
    (e : find (has_id id) db.documents ≡ some d) where
  abbrev picks : Document → Bool
  picks y = has_id id y && is_claimable lease now y

  -- A claim of a document that is PENDING or FAILED, or PROCESSING under a claim older than the
  -- lease, takes it: the row is PROCESSING with one more attempt and a new stamp, and every other
  -- row is what it was.
  pub claim_document_takes :
      is_claimable lease now d ≡ true
      → let (result, after) = claim_document none id lease now db in
        (result ≡ ok true)
        × (find (has_id id) after.documents ≡ some (claimed_document now d))
        × ((j : ℕ) → j ≢ id → find (has_id j) after.documents ≡ find (has_id j) db.documents)
  unfolding claim_document claimed_document
  claim_document_takes h =
      let picked : picks d ≡ true = ground (arith, find_passes (has_id id) db.documents d e) in
      (
        rw (find-any picks (has_id id) db.documents d e picked),
        find-update_where (has_id id) picks (claimed_document now) db.documents d (λ y. refl) e
            ∙ rw picked,
        (λ j ne.
            find-update_where_other (has_id j) picks (claimed_document now) db.documents
              (λ x k. ground (arith, ne)) (λ x k. ground (arith, ne))),
      )

  -- Any other claim is refused and changes nothing.
  pub claim_document_refuses :
      count (has_id id) db.documents ≤ 1
      → is_claimable lease now d ≡ false
      → claim_document none id lease now db ≡ (ok false, db)
  unfolding claim_document
  claim_document_refuses c h =
      let missed : any picks db.documents ≡ false =
        find-missed picks (has_id id) db.documents d (λ y k. ground arith) c e (ground arith) in
      rw (missed, update_where_none picks (claimed_document now) db.documents missed)

update-id_unique :
    (p : Document → Bool) (f : Document → Document) (ds : List Document) (id : ℕ)
    → ((d : Document) → (f d).id ≡ d.id)
    → count (has_id id) ds ≤ 1
    → count (has_id id) (update_where p f ds) ≤ 1
update-id_unique p f ds id ids c =
    omega (arith, count-update_where (has_id id) p f ds (λ d _ e. ground (arith, ids d)))

claim_document-id_unique :
    (id lease now : ℕ) (db : Db)
    → count (has_id id) db.documents ≤ 1
    → count (has_id id) (claim_document none id lease now db).1.documents ≤ 1
unfolding claim_document claimed_document
claim_document-id_unique id lease now db c =
    update-id_unique (λ d. has_id id d && is_claimable lease now d) (claimed_document now)
      db.documents id (λ d. refl) c

-- A redelivered message, in a table with one row of the document's id: after a claim that took the
-- document, a second claim of it within the lease is refused and changes nothing, where no statement
-- fails.
pub claim_document_redelivered :
    (id lease now again : ℕ) (db : Db) (d : Document)
    → count (has_id id) db.documents ≤ 1
    → find (has_id id) db.documents ≡ some d
    → is_claimable lease now d ≡ true
    → again ≤ now + lease
    → let after = (claim_document none id lease now db).1 in
      claim_document none id lease again after ≡ (ok false, after)
claim_document_redelivered id lease now again db d c e h soon =
    let after = (claim_document none id lease now db).1 in
    claim_document_refuses id lease again after (claimed_document now d)
      ((claim_document_takes id lease now db d e h).1) (claim_document-id_unique id lease now db c)
      (unfold claimed_document in ground arith)
