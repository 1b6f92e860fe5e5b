-- ===== src/Agent/Context.antt =====
-- internal/agent/context.go: the prompt that is assembled from the steps so far.
pub mod Pairing
use incident_diag.Base.{ℕ, ◌+◌, ◌-◌, ◌*◌, ◌/◌, List, [], ◌∷◌, ◌++◌, Bytes, length}
use incident_diag.Text.{codes}
use incident_diag.Summary.{cap}
use incident_diag.Agent.Types.{Budget, Call, Incident, Message, Role, Turn, acted, unusable}
use incident_diag.Agent.Env.{Texts}

abbrev pub bytes_per_token : ℕ
bytes_per_token = 4

pub record Spent : Type 0 where
  pub step : ℕ
  pub tool_calls : ℕ

abbrev pub role_name : Role → Bytes
role_name Role.system = codes "system"
role_name Role.user = codes "user"
role_name Role.assistant = codes "assistant"
role_name Role.tool = codes "tool"

abbrev pub said : Role → Bytes → Message
said role content = record { role = role; content = content; tool_calls = []; tool_call_id = [] }

module _ (texts : Texts) where
  -- The two messages of a step that acted, or the one instruction of a step that did not.
  unfoldable pub render_turn : Turn → List Message
  render_turn (unusable number reason) = said Role.user (texts.no_tool_message number reason) ∷ []
  render_turn (acted number call observation) =
      record { role = Role.assistant; content = []; tool_calls = call ∷ []; tool_call_id = [] }
      ∷ (record {
        role = Role.tool;
        content = texts.observation_message number (cap observation).text;
        tool_calls = [];
        tool_call_id = call.id;
      }
          ∷ [])

  unfoldable pub render_turns : List Turn → List Message
  unfolding render_turn
  render_turns [] = []
  render_turns (t ∷ ts) = render_turn t ++ render_turns ts

  -- ContextBuilder.Build.
  unfoldable pub build : Incident → Budget → List Turn → Spent → List Message
  unfolding render_turns
  build incident budget turns spent =
      said Role.system texts.system_prompt
      ∷ (said Role.user (texts.incident_message incident)
          ∷ (render_turns turns
              ++ said Role.user (
                  texts.budget_message spent.step budget.max_steps spent.tool_calls
                    budget.max_tool_calls)
                ∷ []))

unfoldable pub call_bytes : List Call → ℕ
call_bytes [] = 0
call_bytes (c ∷ cs) =
    length c.id + length c.type + length c.name + length c.arguments + call_bytes cs

unfoldable pub prompt_bytes : List Message → ℕ
unfolding call_bytes
prompt_bytes [] = 0
prompt_bytes (m ∷ ms) =
    length (role_name m.role)
    + length m.content
    + length m.tool_call_id
    + call_bytes m.tool_calls
    + prompt_bytes ms

-- EstimateTokens, rounded up.
unfoldable pub estimate_tokens : List Message → ℕ
unfolding prompt_bytes
estimate_tokens msgs = (prompt_bytes msgs + bytes_per_token - 1) / bytes_per_token
