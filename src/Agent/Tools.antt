-- ===== src/Agent/Tools.antt =====
-- internal/agent/tools.go: the names that go to the tool server, and one call of a tool.
use incident_diag.Base.{
  Bool, true, false, not, ◌||◌, List, [], ◌∷◌, ◌++◌, some, any, filter, if◌then◌else◌, is_empty,
  bytes_eq, ℕ, ◌-◌, Bytes, ltb,
}
use incident_diag.Text.{codes, join}
use incident_diag.Store.Rows.{ToolCallStatus}
use incident_diag.Agent.Types.{McpResult, McpStatus, Observation, Outcome, returns, fails}
use incident_diag.Agent.Env.{Env}
use incident_diag.Agent.Evidence.{tool_search_knowledge}

abbrev pub tool_finish : Bytes
tool_finish = codes "finish"

-- A server tool whose name the agent reserves is ignored.
unfoldable pub is_reserved : Bytes → Bool
is_reserved name = bytes_eq name tool_search_knowledge || bytes_eq name tool_finish

unfoldable pub known_names : List Bytes → List Bytes
unfolding is_reserved
known_names names = filter (λ n. not (is_reserved n)) names

unfoldable pub is_known : Bytes → List Bytes → Bool
unfolding known_names
is_known name names = any (λ n. bytes_eq n name) (known_names names)

-- The order of Go's strings: by bytes.
bytes_leb : Bytes → Bytes → Bool
bytes_leb [] t = true
bytes_leb (a ∷ s) [] = false
bytes_leb (a ∷ s) (b ∷ t) = elim (ltb a b) [
  | true ↦ true
  | false ↦ elim (ltb b a) [ true ↦ false | false ↦ bytes_leb s t ]
]

insert_name : Bytes → List Bytes → List Bytes
unfolding bytes_leb
insert_name s [] = s ∷ []
insert_name s (t ∷ ts) = if bytes_leb s t then s ∷ (t ∷ ts) else t ∷ insert_name s ts

sort_names : List Bytes → List Bytes
unfolding insert_name
sort_names [] = []
sort_names (s ∷ ss) = insert_name s (sort_names ss)

-- Agent.names: every valid name, sorted.
unfoldable pub valid_names : List Bytes → List Bytes
unfolding known_names sort_names
valid_names names = sort_names (tool_search_knowledge ∷ (known_names names ++ tool_finish ∷ []))

-- statusOf: an explicit error or timeout of the server wins over a refusal.
unfoldable pub status_of : McpResult → ToolCallStatus
status_of res = elim res.status [
  | McpStatus.timeout ↦ ToolCallStatus.timeout
  | McpStatus.error ↦ ToolCallStatus.error
  | McpStatus.ok ↦ if res.refused then ToolCallStatus.refused else ToolCallStatus.ok
]

abbrev pub is_ok : ToolCallStatus → Bool
is_ok ToolCallStatus.ok = true
is_ok ToolCallStatus.refused = false
is_ok ToolCallStatus.error = false
is_ok ToolCallStatus.timeout = false

-- An observation whose text is also its error and the result of its row.
refusal : Bytes → Bytes → ToolCallStatus → ℕ → Bytes → Observation
refusal name args status duration text = record {
  text = text;
  error = text;
  tool_call = some (record {
    name = name;
    arguments = args;
    status = status;
    result = text;
    error = text;
    duration = duration;
  });
  hits = [];
  query = [];
}

row_error : McpResult → Bytes
unfolding status_of
row_error res =
    if is_ok (status_of res) then [] else if is_empty res.note then res.text else res.note

observed : Bytes → Bytes → ℕ → Outcome McpResult → Observation
unfolding refusal row_error
observed name args duration (fails e) =
    refusal name args ToolCallStatus.error duration (name ++ (codes " could not be called: " ++ e))
observed name args duration (returns res) = record {
  text = res.text;
  error = [];
  tool_call = some (record {
    name = name;
    arguments = args;
    status = status_of res;
    result = res.text;
    error = row_error res;
    duration = duration;
  });
  hits = [];
  query = [];
}

module _ (env : Env) where
  open env use {World, texts, clock, mcp_names, mcp_call}

  no_such_tool : Bytes → Bytes
  no_such_tool name =
      codes "There is no tool called "
      ++ (texts.quote name
          ++ (codes ". The tools you may call are: "
              ++ (join (valid_names mcp_names) (codes ", ") ++ codes ".")))

  call_known : Bytes → Bytes → World → Observation × World
  unfolding observed
  call_known name args w =
      let (start, w₁) = clock w in
      let (res, w₂) = mcp_call name args w₁ in
      let (end, w₃) = clock w₂ in (observed name args (end - start) res, w₃)

  -- callTool.
  unfoldable pub call_tool : Bytes → Bytes → World → Observation × World
  unfolding no_such_tool call_known is_known refusal
  call_tool name args w =
      if is_known name mcp_names
      then call_known name args w
      else (refusal name args ToolCallStatus.refused 0 (no_such_tool name), w)
