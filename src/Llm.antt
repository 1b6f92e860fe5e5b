-- ===== src/Llm.antt =====
-- internal/llm/llm.go: one completion, from the requests of the HTTP client. What the provider answers to an
-- attempt, whether the sleep before it is cut short and whether the context has ended behind it are
-- arbitrary functions of its number. The bytes of a request and of an answer, metrics and spans are left
-- out; of a reply it keeps what the agent reads.
pub mod Chat
use incident_diag.Base.{
  ℕ, zero, suc, ◌+◌, ◌/◌, Bool, true, false, not, List, [], ◌∷◌, Option, none, some, ◌==◌,
  if◌then◌else◌,
}
use incident_diag.Agent.Types
use incident_diag.Agent.Types.{Response}
use incident_diag.Retry
use incident_diag.Retry.{Result, ok, err, retry_after}

-- An APIError with its status and the delay it asks for, ErrBadResponse, and all others.
pub data ChatError : Type 0 where
  api_error : ℕ → ℕ → ChatError
  bad_response other_error : ChatError

pub record Usage : Type 0 where
  pub prompt_tokens : ℕ
  pub completion_tokens : ℕ

-- chatResponse: the tool calls of each choice, and the usage where it is reported.
pub record ChatResponse : Type 0 where
  pub choices : List (List Types.Call)
  pub usage : Option Usage

-- What becomes of a request: no response, or one with its status, the seconds of Retry-After that it
-- honours, and the body where it can be decoded.
pub data HttpAnswer : Type 0 where
  no_response : HttpAnswer
  responded : ℕ → Option ℕ → Option ChatResponse → HttpAnswer

no_usage : Usage
no_usage = record { prompt_tokens = 0; completion_tokens = 0 }

usage_of : Option Usage → Usage
unfolding no_usage
usage_of none = no_usage
usage_of (some u) = u

unfoldable pub read_response : ChatResponse → Result ChatError Response
unfolding usage_of
read_response r = elim r.choices [
  | [] ↦ err bad_response
  | calls ∷ _ ↦ ok (record {
    tool_calls = calls;
    prompt_tokens = (usage_of r.usage).prompt_tokens;
    completion_tokens = (usage_of r.usage).completion_tokens;
  })
]

-- request, from what becomes of it.
unfoldable pub read_answer : HttpAnswer → Result ChatError Response
read_answer no_response = err other_error
read_answer (responded status seconds body) =
    if not (status / 100 == 2)
    then err (api_error status (retry_after seconds))
    else elim body [ none ↦ err other_error | some r ↦ read_response r ]

-- retryable.
unfoldable pub retryable : ChatError → Bool
retryable (api_error status wait) = if status == 429 then true else not (status / 100 == 4)
retryable bad_response = false
retryable other_error = true

-- What an error asks to wait.
unfoldable pub asked : ChatError → ℕ
asked (api_error status wait) = wait
asked bad_response = 0
asked other_error = 0

-- Client.chat.
unfoldable pub chat : (ℕ → HttpAnswer) → (ℕ → Bool) → (ℕ → Bool) → ℕ → Retry.Call ChatError Response
chat provider is_interrupted has_ended max_retries =
    Retry.call retryable asked (λ n. read_answer (provider n)) is_interrupted has_ended max_retries
