-- ===== src/Embed/Batches.antt =====
-- internal/embed/embed.go: the requests of a batch with their retries, and the batches of the texts. A text
-- is counted only. What the provider answers to an attempt at the batch of a first text, whether the sleep
-- before it is cut short and whether the context has ended behind it are arbitrary.
pub mod Order
use incident_diag.Base.{
  ℕ, zero, suc, ◌+◌, ◌-◌, ◌/◌, Bool, true, false, not, ◌||◌, List, [], ◌∷◌, ◌++◌, Option, none,
  some, ltb, ◌==◌, if◌then◌else◌,
}
use Prim.Native.Nat.{min}
use incident_diag.Retry
use incident_diag.Retry.{
  Result, ok, err, retry_after, Ending, done, permanent, cancelled, interrupted, spent, never_tried,
}
use incident_diag.Embed.{
  EmbedError, api_error, dimension_error, bad_response, other_error, Item, pair,
}

-- What becomes of a request: no response, or one with its status, the seconds of Retry-After that it
-- honours, and the data of the body where it can be decoded.
pub data HttpAnswer (V : Type 0) : Type 0 where
  no_response : HttpAnswer V
  responded : ℕ → Option ℕ → Option (List (Item V)) → HttpAnswer V

-- retryable.
unfoldable pub retryable : EmbedError → Bool
retryable (api_error status wait) = not (status == 400 || (status == 413 || status == 422))
retryable dimension_error = false
retryable bad_response = false
retryable other_error = true

-- What an error asks to wait.
unfoldable pub asked : EmbedError → ℕ
asked (api_error status wait) = wait
asked dimension_error = 0
asked bad_response = 0
asked other_error = 0

-- What Embed returns: the vectors, or the end of the batch that failed.
pub data Embedded (V : Type 0) : Type 0 where
  vectors : List (Option (List V)) → Embedded V
  failed : Ending EmbedError (List (Option (List V))) → Embedded V
  out_of_fuel : Embedded V

module _ {V : Type 0} where
  -- request, from what becomes of it.
  unfoldable pub read_answer : ℕ → HttpAnswer V → Result EmbedError (List (Option (List V)))
  read_answer want no_response = err other_error
  read_answer want (responded status seconds body) =
      if not (status / 100 == 2)
      then err (api_error status (retry_after seconds))
      else elim body [ none ↦ err other_error | some items ↦ pair items want ]

  module _ (provider : ℕ → ℕ → HttpAnswer V) (is_interrupted has_ended : ℕ → ℕ → Bool)
      (max_retries batch_size total : ℕ) where
    -- embedBatch, for as many texts from the one of an index.
    unfoldable pub embed_batch : ℕ → ℕ → Retry.Call EmbedError (List (Option (List V)))
    embed_batch start want =
        Retry.call retryable asked (λ n. read_answer want (provider start n)) (is_interrupted start)
          (has_ended start) max_retries

    -- An error of a batch is the error of Embed.
    abbrev pub after_batch :
        (List (Option (List V)) → Embedded V)
        → Ending EmbedError (List (Option (List V)))
        → Embedded V
    after_batch again (done vs) = again vs
    after_batch again (permanent e) = failed (permanent e)
    after_batch again (cancelled e) = failed (cancelled e)
    after_batch again (interrupted e) = failed (interrupted e)
    after_batch again (spent e) = failed (spent e)
    after_batch again never_tried = failed never_tried

    -- The loop of Embed. The fuel bounds the batches.
    unfoldable pub embed_from : ℕ → ℕ → List (Option (List V)) → Embedded V
    embed_from zero start out = if ltb start total then out_of_fuel else vectors out
    embed_from (suc fuel) start out =
        let again =
          λ (vs : List (Option (List V))). embed_from fuel (start + batch_size) (out ++ vs) in
        let c = embed_batch start (min (start + batch_size) total - start) in
        if ltb start total then after_batch again c.ending else vectors out

    -- Embed.
    unfoldable pub embed : Embedded V
    unfolding embed_from
    embed = embed_from total 0 []
