-- ===== src/Agent/Evidence.antt =====
-- internal/agent/evidence.go: finish's arguments decoded field by field, and its citations resolved
-- against the steps that happened.
pub mod Sound
use incident_diag.Base.{
  ℕ, Bool, true, false, List, [], ◌∷◌, ◌++◌, Option, none, some, ◌==◌, if◌then◌else◌, is_empty,
  bytes_eq, Bytes,
}
use incident_diag.Text.{codes}
use incident_diag.Summary.{cap}
use incident_diag.Store.Rows.{ActionType, SourceType}
use incident_diag.Agent.Types.{
  Citation, Evidence, FinalResult, Hit, Outcome, returns, fails, Record,
}
use incident_diag.Agent.Env.{Json, RawFinal}

abbrev pub tool_search_knowledge : Bytes
tool_search_knowledge = codes "search_knowledge"

module _ (json : Json) where
  one_action : Outcome Bytes → List Bytes
  one_action (returns s) = s ∷ []
  one_action (fails e) = []

  actions_of : Bytes → Outcome (List Bytes) → List Bytes
  unfolding one_action
  actions_of raw (returns actions) = actions
  actions_of raw (fails e) = one_action (json.string raw)

  -- decodeNextActions.
  unfoldable pub decode_next_actions : Bytes → List Bytes
  unfolding actions_of
  decode_next_actions raw = if is_empty raw then [] else actions_of raw (json.strings raw)

  keep_citation : Outcome Citation → List Citation → List Citation
  keep_citation (returns c) rest = c ∷ rest
  keep_citation (fails e) rest = rest

  citations_of : List Bytes → List Citation
  unfolding keep_citation
  citations_of [] = []
  citations_of (item ∷ items) = keep_citation (json.citation item) (citations_of items)

  readable : Outcome (List Bytes) → List Citation
  unfolding citations_of
  readable (returns items) = citations_of items
  readable (fails e) = []

  -- decodeCitations: an item that cannot be read is dropped, and the others are kept.
  unfoldable pub decode_citations : Bytes → List Citation
  unfolding readable
  decode_citations raw = if is_empty raw then [] else readable (json.items raw)

  final_of : Outcome RawFinal → Outcome FinalResult
  unfolding decode_next_actions decode_citations
  final_of (fails e) = fails e
  final_of (returns raw) = returns (record {
    root_cause = raw.root_cause;
    affected_service = raw.affected_service;
    next_actions = decode_next_actions raw.next_actions;
    evidence = decode_citations raw.evidence;
  })

  -- decodeFinal.
  unfoldable pub decode_final : Bytes → Outcome FinalResult
  unfolding final_of
  decode_final args = final_of (json.raw_final args)

-- The loop's map of step numbers to completed steps; a number that is written again hides the older
-- entry.
unfoldable pub lookup : ℕ → List (ℕ × Record) → Option Record
lookup k [] = none
lookup k ((j, r) ∷ rs) = if j == k then some r else lookup k rs

first_hit : List Hit → Bytes → Option Hit
first_hit [] id = none
first_hit (h ∷ hs) id = if bytes_eq h.document_id id then some h else first_hit hs id

-- findHit: an empty id matches nothing.
unfoldable pub find_hit : List Hit → Bytes → Option Hit
unfolding first_hit
find_hit hits id = if is_empty id then none else first_hit hits id

retrieval_evidence : Record → Citation → Option Hit → Evidence
retrieval_evidence rec c (some hit) = record {
  step_id = rec.ref.step_id;
  tool_call_id = [];
  source_type = SourceType.retrieval;
  source_ref = hit.source;
  document_id = hit.document_id;
  summary = (cap hit.content).text;
  note = c.note;
}
retrieval_evidence rec c none = record {
  step_id = rec.ref.step_id;
  tool_call_id = [];
  source_type = SourceType.retrieval;
  source_ref = tool_search_knowledge ++ (codes "(" ++ (rec.query ++ codes ")"));
  document_id = [];
  summary = (cap rec.observation).text;
  note = c.note;
}

tool_evidence : Record → Citation → Evidence
tool_evidence rec c = record {
  step_id = rec.ref.step_id;
  tool_call_id = rec.ref.tool_call_id;
  source_type = SourceType.tool;
  source_ref = rec.tool_name;
  document_id = [];
  summary = (cap rec.observation).text;
  note = c.note;
}

-- The body of resolveEvidence's loop for a step that happened; one that observed nothing is dropped.
evidence_of : Citation → Record → ActionType → List Evidence
unfolding retrieval_evidence tool_evidence find_hit
evidence_of c rec ActionType.retrieve =
    retrieval_evidence rec c (find_hit rec.hits c.document_id) ∷ []
evidence_of c rec ActionType.tool_call = tool_evidence rec c ∷ []
evidence_of c rec ActionType.finish = []
evidence_of c rec ActionType.none = []

resolve_one : Citation → Option Record → List Evidence
unfolding evidence_of
resolve_one c none = []
resolve_one c (some rec) = evidence_of c rec rec.action_type

-- resolveEvidence.
unfoldable pub resolve_evidence : List (ℕ × Record) → List Citation → List Evidence
unfolding resolve_one lookup
resolve_evidence records [] = []
resolve_evidence records (c ∷ cs) =
    resolve_one c (lookup c.step records) ++ resolve_evidence records cs
