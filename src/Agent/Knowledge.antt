-- ===== src/Agent/Knowledge.antt =====
-- internal/agent/knowledge.go: one search of the knowledge base, and its hits as an observation.
pub mod Fits
use incident_diag.Base.{
  ℕ, zero, suc, ◌+◌, Bool, true, false, List, [], ◌∷◌, ◌++◌, Option, none, leb, ◌==◌, if◌then◌else◌,
  is_empty, length, take, Bytes, ltb,
}
use incident_diag.Text.{codes, decimal}
use incident_diag.Text.Space.{trim_space}
use incident_diag.Summary.{cap, limit_bytes}
use incident_diag.Agent.Types.{Hit, Observation, Outcome, returns, fails}
use incident_diag.Agent.Env.{Env, KnowledgeArgs}
use incident_diag.Agent.Evidence.{tool_search_knowledge}

abbrev pub default_k : ℕ
default_k = 5

-- " · " in UTF-8.
abbrev dot : Bytes
dot = 0x20 ∷ (0xc2 ∷ (0xb7 ∷ (0x20 ∷ [])))

module _ (score : ℕ → Bytes) where
  pub hit_header : Hit → Bytes
  hit_header h =
      codes "["
      ++ (h.document_id
          ++ (codes "] "
              ++ (h.source
                  ++ ((if is_empty h.heading_path then [] else dot ++ h.heading_path)
                      ++ (codes " (" ++ (score h.score ++ codes ")"))))))

  -- The hits from index `i` on; all but the first stand behind a blank line.
  pub hit_blocks : Bool → List Hit → Bytes
  unfolding hit_header
  hit_blocks first [] = []
  hit_blocks first (h ∷ hs) =
      (if first then [] else codes "\n\n")
      ++ (hit_header h ++ (codes "\n" ++ (h.content ++ hit_blocks false hs)))

  unfoldable pub render_some_hits : List Hit → ℕ → Bytes
  unfolding hit_blocks
  render_some_hits hits shown =
      hit_blocks true (take shown hits)
      ++ (if ltb shown (length hits)
          then codes "\n\n("
            ++ (decimal shown
                ++ (codes " of "
                    ++ (decimal (length hits) ++ codes " hits shown; the rest did not fit)")))
          else [])

  -- The loop `for shown := len(hits); shown > 0; shown--`.
  unfoldable pub first_fitting : List Hit → ℕ → Bytes
  first_fitting hits zero = (cap (render_some_hits hits 1)).text
  first_fitting hits (suc shown) =
      let fewer = first_fitting hits shown in
      let text = render_some_hits hits (suc shown) in
      if leb (length text) limit_bytes then text else fewer

  unfoldable pub render_hits : List Hit → Bytes
  unfolding first_fitting
  render_hits hits =
      if is_empty hits
      then codes "No documents matched the query."
      else first_fitting hits (length hits)

failed_retrieval : Bytes → Bytes → Observation
failed_retrieval query reason = record {
  text = reason;
  error = reason;
  tool_call = none;
  hits = [];
  query = query;
}

abbrev could_not_run : Bytes → Bytes
could_not_run e = codes "the search could not be run: " ++ e

abbrev no_args : KnowledgeArgs
no_args = record { query = []; service = []; document_type = []; k = 0 }

module _ (env : Env) where
  open env use {World, json, texts, embed, search}

  found : Bytes → Outcome (List Hit) → Observation
  unfolding failed_retrieval
  found query (fails e) = failed_retrieval query (could_not_run e)
  found query (returns hits) = record {
    text = render_hits texts.score hits;
    error = [];
    tool_call = none;
    hits = hits;
    query = query;
  }

  search_with : KnowledgeArgs → World → Observation × World
  unfolding found
  search_with args w = let (res, w') = search args w in (found args.query res, w')

  embedded : KnowledgeArgs → Outcome ℕ → World → Observation × World
  unfolding failed_retrieval search_with
  embedded args (fails e) w = (failed_retrieval args.query (could_not_run e), w)
  embedded args (returns vectors) w = if vectors == 1 then search_with args w else (
    failed_retrieval args.query (could_not_run (codes "the embedding service returned no vector")),
    w,
  )

  run_query : KnowledgeArgs → World → Observation × World
  unfolding embedded
  run_query args w = let (vectors, w') = embed args.query w in embedded args vectors w'

  -- The arguments with their query trimmed and their k resolved.
  with_defaults : KnowledgeArgs → KnowledgeArgs
  with_defaults args = record args {
    query = trim_space args.query;
    k = if args.k == 0 then default_k else args.k;
  }

  retrieve_args : Outcome KnowledgeArgs → World → Observation × World
  unfolding failed_retrieval run_query with_defaults
  retrieve_args (fails e) w =
      (failed_retrieval [] (codes "the arguments to search_knowledge are not valid JSON: " ++ e), w)
  retrieve_args (returns raw) w =
      let args = with_defaults raw in
      if is_empty args.query
      then (failed_retrieval [] (tool_search_knowledge ++ codes " needs a non-empty query."), w)
      else run_query args w

  -- Knowledge.retrieve.
  unfoldable pub retrieve : Bytes → World → Observation × World
  unfolding retrieve_args
  retrieve raw w =
      if is_empty raw
      then retrieve_args (returns no_args) w
      else retrieve_args (json.knowledge_args raw) w
