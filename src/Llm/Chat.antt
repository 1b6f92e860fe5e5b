-- ===== src/Llm/Chat.antt =====
-- internal/llm/llm.go: how a completion ends.
use incident_diag.Base.{
  ℕ, ◌≤◌, ◌≡◌, Bool, Option, none, some, ◌==◌, ◌/◌, Bool-cases, inl, inr, arith,
}
use incident_diag.Agent.Types.{Response}
use incident_diag.Retry.{Result, err, retry_after, max_retry_delay}
use incident_diag.Retry.Decided.{retry_after_bounds, IsDecided, call-IsDecided}
use incident_diag.Llm.{
  ChatError, api_error, bad_response, other_error, HttpAnswer, no_response, responded, ChatResponse,
  read_response, read_answer, retryable, asked, chat,
}

same_asks :
    (x e : ChatError)
    → asked x ≤ max_retry_delay
    → ◌≡◌ {A = Result ChatError Response} (err x) (err e)
    → asked e ≤ max_retry_delay
same_asks x e h k = let same : x ≡ e = cc in rw (← same) h

other_asks : asked other_error ≤ max_retry_delay
unfolding asked
other_asks = omega arith

api_asks :
    (status : ℕ) (seconds : Option ℕ)
    → asked (api_error status (retry_after seconds)) ≤ max_retry_delay
unfolding asked
api_asks status seconds = retry_after_bounds seconds

read_response_asks :
    (r : ChatResponse) (e : ChatError) → read_response r ≡ err e → asked e ≤ max_retry_delay
unfolding read_response asked
read_response_asks r e h = let same : e ≡ bad_response = ground arith in rw same (omega arith)

-- No error of an attempt asks for more than the longest delay.
read_answer_asks :
    (a : HttpAnswer) (e : ChatError) → read_answer a ≡ err e → asked e ≤ max_retry_delay
unfolding read_answer
read_answer_asks no_response e h = same_asks other_error e other_asks h
read_answer_asks (responded status seconds none) e h = elim (Bool-cases (status / 100 == 2)) [
  | inl t ↦ same_asks other_error e other_asks (rw t at h)
  | inr t ↦
      same_asks (api_error status (retry_after seconds)) e (api_asks status seconds) (rw t at h)
]
read_answer_asks (responded status seconds (some r)) e h = elim (Bool-cases (status / 100 == 2)) [
  | inl t ↦ read_response_asks r e (rw t at h)
  | inr t ↦
      same_asks (api_error status (retry_after seconds)) e (api_asks status seconds) (rw t at h)
]

-- A completion is decided by the first attempt that succeeds, fails for good, fails behind the end of the
-- context, is followed by a sleep that is cut short, or was the last allowed one; no request follows it,
-- and the call sleeps at most once for each retry and 10 s at a time, whatever the provider asks for.
pub chat-IsDecided :
    (provider : ℕ → HttpAnswer) (is_interrupted has_ended : ℕ → Bool) (max_retries : ℕ)
    → IsDecided retryable asked
        (λ n. read_answer (provider n))
        is_interrupted
        has_ended
        max_retries
        (chat provider is_interrupted has_ended max_retries)
unfolding chat
chat-IsDecided provider is_interrupted has_ended max_retries =
    call-IsDecided retryable asked (λ n. read_answer (provider n)) is_interrupted has_ended
      max_retries (λ n e h. read_answer_asks (provider n) e h)
