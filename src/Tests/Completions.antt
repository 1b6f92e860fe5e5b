-- ===== src/Tests/Completions.antt =====
-- internal/llm on a provider that asks to wait and then answers.
use incident_diag.Base.{ℕ, zero, suc, ◌≡◌, refl, Bool, false, [], ◌∷◌, none, some}
use incident_diag.Retry.{Call, Ending, done, call, attempts, retry_after, cap_delay}
use incident_diag.Retry
use incident_diag.Retry.Decided.{IsDecided}
use incident_diag.Llm.{
  HttpAnswer, responded, ChatResponse, read_response, read_answer, retryable, asked, chat,
}
use incident_diag.Llm.Chat.{chat-IsDecided}

abbrev one_choice : ChatResponse
one_choice = record { choices = [] ∷ []; usage = none }

abbrev busy_once : ℕ → HttpAnswer
busy_once zero = responded 429 (some 2) none
busy_once (suc n) = responded 200 none (some one_choice)

abbrev not_at : ℕ → Bool
not_at n = false

chat_again : chat busy_once not_at not_at 2 ≡ record {
  ending = done (record { tool_calls = []; prompt_tokens = 0; completion_tokens = 0 });
  requests = 2;
  delays = 2000000000 ∷ [];
}
unfolding chat call attempts read_answer read_response retryable asked retry_after Retry.retry_delay
chat_again = refl

chat-IsDecided_example :
    IsDecided retryable asked
      (λ n. read_answer (busy_once n))
      not_at
      not_at
      2
      (chat busy_once not_at not_at 2)
chat-IsDecided_example = chat-IsDecided busy_once not_at not_at 2
