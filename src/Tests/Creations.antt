-- ===== src/Tests/Creations.antt =====
-- internal/api/runs.go for an incident with no run.
use incident_diag.Base.{◌≡◌, refl, true, [], ◌∷◌, some, none}
use incident_diag.Store.Table.{find}
use incident_diag.Store.Incidents
use incident_diag.Store.Runs
use incident_diag.Api.Runs.{State, Settings, create_run}

abbrev settings : Settings
settings = record {
  model = [];
  max_steps = 8;
  max_tool_calls = 6;
  max_duration_seconds = 300;
  max_prompt_tokens = 60000;
}

abbrev one_incident : State
one_incident = record {
  db = record {
    incidents =
        record {
          id = 3;
          title = [];
          description = [];
          service = none;
          created_at = 1;
          updated_at = 1;
        }
        ∷ [];
    runs = [];
    steps = [];
    tool_calls = [];
    evidence = [];
    documents = [];
  };
  sent = [];
}

create_one : (create_run 9 50 none none settings true (some 3) one_incident).1.sent ≡ 9 ∷ []
unfolding create_run Runs.create_run Incidents.get_incident find
create_one = refl
