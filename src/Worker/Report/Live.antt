-- ===== src/Worker/Report/Live.antt =====
-- internal/agentrun/report.go, liveDocuments: the query answers for every document that is cited.
use incident_diag.Base.{
  ℕ, ◌≡◌, refl, Bool, true, false, ◌||◌, List, [], ◌∷◌, map, Option, none, some, any, filter, ◌==◌,
  if◌then◌else◌, is_empty, Bytes, arith, All, All-map, sym, ==_refl, Bool-cases, inl, inr,
}
use mathlib.Core.Path.{subst}
use incident_diag.Store.Errors.{ok, DriverError}
use incident_diag.Store.Rows.{Db, Document}
use incident_diag.Store.Documents.{has_id}
use incident_diag.Store.Listings.{existing_documents}
use incident_diag.Agent.Types.{Evidence}
use incident_diag.Worker.Report.{optional_id, cited_from, live_documents, live_id}

-- An id, if there is a document of it.
unfoldable pub existing : List Document → Option ℕ → Option ℕ
existing ds none = none
existing ds (some d) = if any (has_id d) ds then some d else none

any_same : (a b : ℕ) (ids : List ℕ) → a ≡ b → any (λ j. j == a) ids ≡ any (λ j. j == b) ids
any_same a b ids e = rw e refl

any-selected :
    (x : ℕ) (ids : List ℕ) (ds : List Document)
    → any (λ j. j == x) ids ≡ true
    → any (λ i. i == x) (map (λ (d : Document). d.id) (filter (λ d. any (λ j. j == d.id) ids) ds))
      ≡ any (has_id x) ds
any-selected x ids [] h = refl
any-selected x ids (d ∷ ds) h = ground (arith, any-selected x ids ds h, any_same d.id x ids)

module _ (number : Bytes → ℕ) where
  abbrev is_cited : List ℕ → List ℕ → Evidence → Bool
  is_cited seen ids e =
      is_empty e.document_id
      || (any (λ i. i == number e.document_id) seen || any (λ i. i == number e.document_id) ids)

  cited_skipped :
      (seen : List ℕ) (e : Evidence) (es : List Evidence)
      → (is_empty e.document_id || any (λ i. i == number e.document_id) seen) ≡ true
      → cited_from number seen (e ∷ es) ≡ cited_from number seen es
  unfolding cited_from
  cited_skipped seen e es h = rw (cited_from, h) refl

  cited_added :
      (seen : List ℕ) (e : Evidence) (es : List Evidence)
      → (is_empty e.document_id || any (λ i. i == number e.document_id) seen) ≡ false
      → cited_from number seen (e ∷ es)
        ≡ number e.document_id ∷ cited_from number (number e.document_id ∷ seen) es
  unfolding cited_from
  cited_added seen e es h = rw (cited_from, h) refl

  cited-All :
      (seen : List ℕ) (es : List Evidence)
      → All (λ e. is_cited seen (cited_from number seen es) e ≡ true) es
  cited-All seen [] = tt
  cited-All seen (e ∷ es) =
      elim (Bool-cases (is_empty e.document_id || any (λ i. i == number e.document_id) seen)) [
        | inl h ↦
            subst (λ ids. All (λ x. is_cited seen ids x ≡ true) (e ∷ es))
              (sym (cited_skipped seen e es h)) (ground arith, cited-All seen es)
        | inr h ↦
            subst (λ ids. All (λ x. is_cited seen ids x ≡ true) (e ∷ es))
              (sym (cited_added seen e es h))
              (
                ground (arith, ==_refl (number e.document_id)),
                All-map _ _ es (λ x k. ground arith) (cited-All (number e.document_id ∷ seen) es),
              )
      ]

  live_existing :
      (ids : List ℕ) (e : Evidence) (db : Db) (live : List ℕ)
      → existing_documents none ids db ≡ ok live
      → is_cited [] ids e ≡ true
      → live_id live (optional_id number e.document_id)
        ≡ existing db.documents (optional_id number e.document_id)
  unfolding existing_documents live_id existing
  live_existing [] e db live q h = let none_live : [] ≡ live = cc in rw (← none_live) (ground arith)
  live_existing (i ∷ ids) e db live q h =
      let listed : map (λ (d : Document). d.id)
            (filter (λ d. any (λ j. j == d.id) (i ∷ ids)) db.documents)
          ≡ live =
        cc in
      rw (← listed) (ground (arith, any-selected (number e.document_id) (i ∷ ids) db.documents))

  existing_calm :
      (fault : Option DriverError) (ids : List ℕ) (db : Db) (live : List ℕ)
      → existing_documents fault ids db ≡ ok live
      → existing_documents none ids db ≡ ok live
  unfolding existing_documents
  existing_calm none ids db live q = q
  existing_calm (some e) [] db live q = q
  existing_calm (some e) (i ∷ ids) db live q = cc

  pub live_documents-existing :
      (fault : Option DriverError) (es : List Evidence) (db : Db) (live : List ℕ)
      → live_documents number fault es db ≡ ok live
      → All
          (λ e.
            live_id live (optional_id number e.document_id)
            ≡ existing db.documents (optional_id number e.document_id))
          es
  unfolding live_documents
  live_documents-existing fault es db live q =
      let ids = cited_from number [] es in
      let calm = existing_calm fault ids db live q in
      All-map _ _ es (λ e h. live_existing ids e db live calm h) (cited-All [] es)
