-- ===== src/Store/Documents/Ready.antt =====
-- What any sequence of calls makes of the row of a document.
use incident_diag.Base.{
  ℕ, ◌≡◌, refl, ap, ◌∙◌, Bool, true, ◌&&◌, List, [], ◌∷◌, ◌++◌, Option, none, some, arith,
  Bool-cases, inl, inr, Bytes,
}
use incident_diag.Store.Errors.{DriverError}
use incident_diag.Store.Table.{update_where, find, find-update_where, find-append}
use incident_diag.Store.Rows.{Db, Document, DocumentStatus}
use incident_diag.Store.Documents.{
  NewDocument, with_id, has_id, is_claimable, is_processing, new_document, claimed_document,
  ready_document, failed_document, create_document, claim_document, mark_document_ready,
  mark_document_failed,
}
use incident_diag.Store.Documents.History.{Call, creates, claims, readies, fails, apply, replay}

-- The edges of the state machine. There is none out of READY.
pub data Next (d : Document) : Document → Type 0 where
  same : Next d d
  claimed : (lease now : ℕ) → is_claimable lease now d ≡ true → Next d (claimed_document now d)
  readied : (now chunks : ℕ) → is_processing d.status ≡ true → Next d (ready_document now chunks d)
  failed :
      (now : ℕ) (reason : Bytes)
      → is_processing d.status ≡ true
      → Next d (failed_document now reason d)

abbrev pub Follows : ℕ → Document → List Document → Type 0
Follows id d ds = (d' : Document) × (find (has_id id) ds ≡ some d') × Next d d'

update-Follows :
    (p : Document → Bool) (f : Document → Document) (id : ℕ) (ds : List Document) (d : Document)
    → ((y : Document) → (f y).id ≡ y.id)
    → (p d ≡ true → Next d (f d))
    → find (has_id id) ds ≡ some d
    → Follows id d (update_where p f ds)
update-Follows p f id ds d ids turn h =
    let found = find-update_where (has_id id) p f ds d (λ y. rw (ids y)) h in
    elim (Bool-cases (p d)) [
      | inl e ↦ (f d, found ∙ rw e, turn e)
      | inr e ↦ (d, found ∙ rw e, same)
    ]

with_id_cases {ℓ} :
    (P : Db → Type ℓ) (o : Option ℕ) (now : ℕ) (fault : Option DriverError) (n : NewDocument)
    (db : Db)
    → P db
    → ((id : ℕ) → P (record db { documents = db.documents ++ new_document id now n ∷ [] }))
    → P (with_id o now fault n db).1
unfolding with_id
with_id_cases P none now fault n db kept added = kept
with_id_cases P (some id) now (some e) n db kept added = kept
with_id_cases P (some id) now none n db kept added = ground (arith, added id)

pub create_cases {ℓ} :
    (P : Db → Type ℓ) (now : ℕ) (fault : Option DriverError) (n : NewDocument) (db : Db)
    → P db
    → ((id : ℕ) → P (record db { documents = db.documents ++ new_document id now n ∷ [] }))
    → P (create_document now fault n db).1
unfolding create_document
create_cases P now fault n db kept added = with_id_cases P n.id now fault n db kept added

-- Every call leaves the row of an id or moves it along an edge.
pub apply-Follows :
    (id : ℕ) (c : Call) (db : Db) (d : Document)
    → find (has_id id) db.documents ≡ some d
    → Follows id d (apply c db).documents
unfolding apply claim_document mark_document_ready mark_document_failed claimed_document
    ready_document failed_document
apply-Follows id (creates now fault n) db d h =
    create_cases (λ x. Follows id d x.documents) now fault n db (d, h, same)
      (λ j. (d, find-append (has_id id) db.documents (new_document j now n ∷ []) d h, same))
apply-Follows id (claims (some e) j lease now) db d h = (d, h, same)
apply-Follows id (claims none j lease now) db d h =
    update-Follows (λ y. has_id j y && is_claimable lease now y) (claimed_document now) id
      db.documents d (λ y. refl) (λ e. claimed lease now (ground arith)) h
apply-Follows id (readies (some e) j chunks now) db d h = (d, h, same)
apply-Follows id (readies none j chunks now) db d h =
    update-Follows (λ y. has_id j y && is_processing y.status) (ready_document now chunks) id
      db.documents d (λ y. refl) (λ e. readied now chunks (ground arith)) h
apply-Follows id (fails (some e) j reason now) db d h = (d, h, same)
apply-Follows id (fails none j reason now) db d h =
    update-Follows (λ y. has_id j y && is_processing y.status) (failed_document now reason) id
      db.documents d (λ y. refl) (λ e. failed now reason (ground arith)) h

Next-ready : {d d' : Document} → Next d d' → d.status ≡ DocumentStatus.ready → d' ≡ d
Next-ready same e = refl
Next-ready (claimed lease now h) e = ground arith
Next-ready (readied now chunks h) e = ground arith
Next-ready (failed now reason h) e = ground arith

-- A READY document keeps its row, whatever is called later and in any order: no late duplicate,
-- failure or claim touches it.
pub replay-ready :
    (cs : List Call) (id : ℕ) (db : Db) (d : Document)
    → find (has_id id) db.documents ≡ some d
    → d.status ≡ DocumentStatus.ready
    → find (has_id id) (replay cs db).documents ≡ some d
unfolding replay
replay-ready [] id db d h e = h
replay-ready (c ∷ cs) id db d h e =
    let (d', found, step) = apply-Follows id c db d h in
    replay-ready cs id (apply c db) d (found ∙ ap some (Next-ready step e)) e
