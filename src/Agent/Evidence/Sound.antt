-- ===== src/Agent/Evidence/Sound.antt =====
-- Every row of evidence stands for a step that the run recorded.
use incident_diag.Base.{
  ℕ, ◌≤◌, ◌≡◌, ◌⊎◌, inl, inr, refl, true, List, [], ◌∷◌, Option, none, some, any, All, All-append,
  bytes_eq, bytes_eq_refl, Bytes, length, length-append, arith,
}
use incident_diag.Summary.{cap, limit_bytes}
use incident_diag.Summary.Bounds.{length-cap_at}
use incident_diag.Store.Rows.{ActionType, SourceType}
use incident_diag.Agent.Types.{Citation, Evidence, Hit, Record}
use incident_diag.Agent.Evidence.{
  lookup, find_hit, first_hit, retrieval_evidence, tool_evidence, evidence_of, resolve_one,
  resolve_evidence,
}
use incident_diag.Agent.Steps.Kept.{Numbered}

-- A row that cites a search names at most a document that the search returned; one that cites a tool
-- call carries the id of that call's row.
abbrev Matches : Record → Evidence → Type 0
Matches rec e =
    ((rec.action_type ≡ ActionType.retrieve)
      × (e.source_type ≡ SourceType.retrieval)
      × (e.tool_call_id ≡ [])
      × ((e.document_id ≡ []) ⊎ (any (λ h. bytes_eq h.document_id e.document_id) rec.hits ≡ true)))
    ⊎ ((rec.action_type ≡ ActionType.tool_call)
        × (e.source_type ≡ SourceType.tool)
        × (e.tool_call_id ≡ rec.ref.tool_call_id)
        × (e.document_id ≡ []))

-- The row of a recorded step, numbered from 1 to `n`, with a summary within the cap.
abbrev pub Cites : List (ℕ × Record) → ℕ → Evidence → Type 0
Cites records n e =
    (k : ℕ) × (rec : Record) × (lookup k records ≡ some rec)
    × (1 ≤ k)
    × (k ≤ n)
    × (e.step_id ≡ rec.ref.step_id)
    × (length e.summary ≤ limit_bytes)
    × Matches rec e

length-cap : (s : Bytes) → length (cap s).text ≤ limit_bytes
unfolding cap
length-cap s = length-cap_at s limit_bytes

first_hit-any :
    (hits : List Hit) (id : Bytes) (h : Hit)
    → first_hit hits id ≡ some h
    → any (λ x. bytes_eq x.document_id h.document_id) hits ≡ true
unfolding first_hit
first_hit-any [] id h e = cc
first_hit-any (x ∷ hits) id h e =
    ground (arith, first_hit-any hits id h, bytes_eq_refl x.document_id)

find_hit-any :
    (hits : List Hit) (id : Bytes) (h : Hit)
    → find_hit hits id ≡ some h
    → any (λ x. bytes_eq x.document_id h.document_id) hits ≡ true
unfolding find_hit
find_hit-any hits id h e = ground (arith, first_hit-any hits id h)

lookup_range :
    (rs : List (ℕ × Record)) (n k : ℕ) (rec : Record)
    → Numbered rs n
    → lookup k rs ≡ some rec
    → (1 ≤ k) × (k ≤ n)
unfolding lookup
lookup_range [] n k rec h e = cc
lookup_range ((j, r) ∷ rs) n k rec h e = ground (arith, lookup_range rs (length rs) k rec)

module _ (records : List (ℕ × Record)) (n : ℕ) (numbered : Numbered records n) where
  retrieval-Cites :
      (c : Citation) (rec : Record) (hit : Option Hit)
      → lookup c.step records ≡ some rec
      → rec.action_type ≡ ActionType.retrieve
      → find_hit rec.hits c.document_id ≡ hit
      → Cites records n (retrieval_evidence rec c hit)
  unfolding retrieval_evidence
  retrieval-Cites c rec none e a f =
      let (low, high) = lookup_range records n c.step rec numbered e in
      (c.step, rec, e, low, high, refl, length-cap rec.observation, inl (a, refl, refl, inl refl))
  retrieval-Cites c rec (some hit) e a f =
      let (low, high) = lookup_range records n c.step rec numbered e in
      (
        c.step,
        rec,
        e,
        low,
        high,
        refl,
        length-cap hit.content,
        inl (a, refl, refl, inr (find_hit-any rec.hits c.document_id hit f)),
      )

  tool-Cites :
      (c : Citation) (rec : Record)
      → lookup c.step records ≡ some rec
      → rec.action_type ≡ ActionType.tool_call
      → Cites records n (tool_evidence rec c)
  unfolding tool_evidence
  tool-Cites c rec e a =
      let (low, high) = lookup_range records n c.step rec numbered e in
      (c.step, rec, e, low, high, refl, length-cap rec.observation, inr (a, refl, refl, refl))

  evidence_of-Cites :
      (c : Citation) (rec : Record) (t : ActionType)
      → lookup c.step records ≡ some rec
      → rec.action_type ≡ t
      → All (Cites records n) (evidence_of c rec t) × (length (evidence_of c rec t) ≤ 1)
  unfolding evidence_of
  evidence_of-Cites c rec ActionType.retrieve e a =
      ((retrieval-Cites c rec (find_hit rec.hits c.document_id) e a refl, tt), omega arith)
  evidence_of-Cites c rec ActionType.tool_call e a = ((tool-Cites c rec e a, tt), omega arith)
  evidence_of-Cites c rec ActionType.finish e a = (tt, omega arith)
  evidence_of-Cites c rec ActionType.none e a = (tt, omega arith)

  resolve_one-Cites :
      (c : Citation) (found : Option Record)
      → lookup c.step records ≡ found
      → All (Cites records n) (resolve_one c found) × (length (resolve_one c found) ≤ 1)
  unfolding resolve_one
  resolve_one-Cites c none e = (tt, omega arith)
  resolve_one-Cites c (some rec) e = evidence_of-Cites c rec rec.action_type e refl

-- Over the steps that a run has recorded, every row that its citations resolve to belongs to one of
-- these steps, by the id that was written for it: a search with at most a document that it returned,
-- or a tool call with the id of its row. No summary exceeds the cap, and there are no more rows than
-- citations.
pub resolve_evidence-Cites :
    (records : List (ℕ × Record)) (n : ℕ) (cs : List Citation)
    → Numbered records n
    → All (Cites records n) (resolve_evidence records cs)
      × (length (resolve_evidence records cs) ≤ length cs)
unfolding resolve_evidence
resolve_evidence-Cites records n [] v = (tt, omega arith)
resolve_evidence-Cites records n (c ∷ cs) v =
    let found = lookup c.step records in
    let (first, one) = resolve_one-Cites records n v c found refl in
    let (rest, few) = resolve_evidence-Cites records n cs v in
    (
      All-append (Cites records n) (resolve_one c found) (resolve_evidence records cs) first rest,
      omega (arith, length-append (resolve_one c found) (resolve_evidence records cs)),
    )
