-- ===== src/Tests/Texts.antt =====
-- internal/summary, and the prompts and observations of internal/agent, on short texts.
use incident_diag.Base.{
  ◌+◌, ◌≤◌, ◌<◌, ◌≡◌, refl, true, List, [], ◌∷◌, ◌++◌, none, length, Bytes, arith,
}
use incident_diag.Text.{codes, decimal}
use incident_diag.Summary.{cap_at, limit_bytes}
use incident_diag.Agent.Types.{Budget, Call, Hit, Incident, Turn, acted, unusable}
use incident_diag.Agent.Env.{Texts}
use incident_diag.Agent.Context.{Spent, build, estimate_tokens}
use incident_diag.Agent.Context.Pairing.{
  build-is_paired, estimate_tokens-arguments, is_paired, turn_messages,
}
use incident_diag.Agent.Knowledge.{render_hits}
use incident_diag.Agent.Knowledge.Fits.{shows, render_hits_fits, ShowsMost}

-- "aé€": a rune of one byte, one of two and one of three.
abbrev runes : Bytes
runes = 97 ∷ 0xc3 ∷ 0xa9 ∷ 0xe2 ∷ 0x82 ∷ 0xac ∷ []

cut : (cap_at runes 5).text ≡ 97 ∷ 0xc3 ∷ 0xa9 ∷ []
unfolding cap_at
cut = refl

abbrev pub texts : Texts
texts = record {
  system_prompt = codes "system";
  incident_message = λ i. i.title;
  no_tool_message = λ n reason. decimal n ++ reason;
  observation_message = λ n text. decimal n ++ text;
  budget_message = λ a b c d. decimal a ++ decimal c;
  forced_finish_message = λ reason. reason;
  quote = λ s. s;
  score = λ n. decimal n;
}

abbrev pub incident : Incident
incident = record {
  id = codes "i";
  title = codes "t";
  description = [];
  service = [];
  created_at = 0;
}

abbrev pub budget : Budget
budget = record {
  max_steps = 2;
  max_tool_calls = 1;
  max_run_duration = 100;
  max_prompt_tokens = 1000;
}

abbrev call : Call
call = record {
  id = codes "c1";
  type = codes "function";
  name = codes "logs";
  arguments = codes "{\"a\": 1}";
}

abbrev turns : List Turn
turns = acted 1 call (codes "ok") ∷ unusable 2 (codes "no tool") ∷ []

abbrev spent : Spent
spent = record { step = 3; tool_calls = 1 }

build-is_paired_example :
    (is_paired none (build texts incident budget turns spent) ≡ true)
    × (length (build texts incident budget turns spent) ≡ turn_messages turns + 3)
build-is_paired_example = build-is_paired texts incident budget turns spent

estimate_tokens-arguments_example :
    1
    < estimate_tokens
        (build texts incident budget (turns ++ acted 3 call (codes "ok") ∷ turns) spent)
estimate_tokens-arguments_example =
    estimate_tokens-arguments texts incident budget turns turns spent 3 call (codes "ok") 1
      (omega arith)

abbrev pub hit : Hit
hit = record {
  document_id = codes "d1";
  source = codes "s";
  heading_path = [];
  content = codes "text";
  score = 7;
}

abbrev hits : List Hit
hits = hit ∷ record hit { document_id = codes "d2" } ∷ []

render_hits_fits_example :
    (length (render_hits texts.score hits) ≤ limit_bytes)
    × ShowsMost texts.score hits (shows texts.score hits) 2 (render_hits texts.score hits)
render_hits_fits_example = render_hits_fits texts.score hits (omega arith)
