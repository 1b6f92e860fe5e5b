-- ===== src/Tests/Investigation.antt =====
-- internal/agent/loop.go and evidence.go: a run with a scripted model.
use incident_diag.Base.{
  ℕ, ◌+◌, ◌≤◌, true, false, List, [], ◌∷◌, All, none, length, Bytes, arith, if◌then◌else◌, ◌==◌,
}
use incident_diag.Text.{codes}
use incident_diag.Store.Rows.{ActionType}
use incident_diag.Agent.Types.{Citation, McpStatus, returns, fails, Record, Response, Run}
use incident_diag.Agent.Env.{Env, Json}
use incident_diag.Agent.Evidence.{resolve_evidence}
use incident_diag.Agent.Evidence.Sound.{resolve_evidence-Cites, Cites}
use incident_diag.Agent.Loop.{run_agent}
use incident_diag.Agent.Loop.Total.{run_agent-Finished, Finished}
use incident_diag.Tests.Texts.{texts, incident, budget, hit}

-- A decoder for the arguments of this run: all of finish's fields are texts.
abbrev json : Json
json = record {
  valid = λ s. true;
  raw_final = λ s.
      returns (record {
        root_cause = s;
        affected_service = [];
        next_actions = [];
        evidence = codes "[1]";
      });
  strings = λ s. returns (s ∷ []);
  string = λ s. returns s;
  items = λ s. returns (s ∷ []);
  citation = λ s. returns (record { step = 1; note = []; document_id = [] });
  knowledge_args = λ s. fails (codes "no");
}

tool_call : Bytes → Bytes → Response
tool_call name args = record {
  tool_calls = record { id = []; type = []; name = name; arguments = args } ∷ [];
  prompt_tokens = 10;
  completion_tokens = 2;
}

-- The world counts what happened; it is the clock too. The model calls a tool first, and then finishes.
abbrev env : Env
env = record {
  World = ℕ;
  json = json;
  texts = texts;
  ctx_err = λ w. (none, w);
  clock = λ w. (w, w + 1);
  chat = λ messages offer w. (
    returns (
        if length messages == 3
        then tool_call (codes "logs") []
        else tool_call (codes "finish") (codes "disk full")),
    w + 1,
  );
  report = λ step w. (returns (record { step_id = codes "s"; tool_call_id = codes "t" }), w + 1);
  mcp_names = codes "logs" ∷ [];
  mcp_call = λ name args w. (
    returns (record {
      text = codes "no space left";
      status = McpStatus.ok;
      refused = false;
      note = [];
    }),
    w + 1,
  );
  embed = λ query w. (returns 1, w + 1);
  search = λ args w. (returns [], w + 1);
}

abbrev run : Run
run = record { id = codes "r"; incident = incident; budget = budget }

run_agent-Finished_example : Finished env run (run_agent env run 0)
run_agent-Finished_example = run_agent-Finished env run 0

abbrev records : List (ℕ × Record)
records =
    (
      2,
      record {
        ref = record { step_id = codes "s2"; tool_call_id = codes "t2" };
        action_type = ActionType.tool_call;
        tool_name = codes "logs";
        observation = codes "no space left";
        hits = [];
        query = [];
      },
    )
    ∷ (
      1,
      record {
        ref = record { step_id = codes "s1"; tool_call_id = [] };
        action_type = ActionType.retrieve;
        tool_name = [];
        observation = codes "hits";
        hits = hit ∷ [];
        query = codes "disk";
      },
    )
    ∷ []

-- The second citation names a step that did not happen.
abbrev citations : List Citation
citations =
    record { step = 1; note = []; document_id = codes "d1" }
    ∷ record { step = 9; note = []; document_id = [] }
    ∷ record { step = 2; note = []; document_id = [] }
    ∷ []

resolve_evidence-Cites_example :
    All (Cites records 2) (resolve_evidence records citations)
    × (length (resolve_evidence records citations) ≤ 3)
resolve_evidence-Cites_example = resolve_evidence-Cites records 2 citations (ground arith)
