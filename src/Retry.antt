-- ===== src/Retry.antt =====
-- The retries that internal/llm/llm.go (chat) and internal/embed/embed.go (embedBatch) write alike: a loop
-- over the attempts of a request, and the delays between them. A delay is in nanoseconds, of 64 bits. What
-- an attempt answers, whether the sleep before it is cut short and whether the context has ended behind
-- it are arbitrary functions of its number.
pub mod Decided
use incident_diag.Base.{
  ℕ, zero, suc, ◌+◌, ◌-◌, ◌*◌, ◌%◌, ◌^◌, Bool, true, false, not, ◌&&◌, List, [], ◌∷◌, Option, none,
  some, ltb, leb, ◌==◌, if◌then◌else◌,
}

abbrev pub base_retry_delay : ℕ
base_retry_delay = 500000000

abbrev pub max_retry_delay : ℕ
max_retry_delay = 10000000000

abbrev pub int64_mod : ℕ
int64_mod = 18446744073709551616

abbrev pub int64_half : ℕ
int64_half = 9223372036854775808

-- `min(d, maxRetryDelay)` for the bit pattern of a signed number, with 0 in place of a negative result: a
-- sleep of either returns at once.
unfoldable pub cap_delay : ℕ → ℕ
cap_delay d =
    if leb int64_half (d % int64_mod)
    then 0
    else if leb (d % int64_mod) max_retry_delay
    then d % int64_mod
    else max_retry_delay

-- retryAfter on the seconds of the header, which are `none` where there are none to honour.
unfoldable pub retry_after : Option ℕ → ℕ
unfolding cap_delay
retry_after none = 0
retry_after (some seconds) = cap_delay (seconds * 1000000000)

-- retryDelay, with what the last error asks for.
unfoldable pub retry_delay : ℕ → ℕ → ℕ
unfolding cap_delay
retry_delay attempt asked =
    if ltb 0 asked then asked else cap_delay (base_retry_delay * 2 ^ (attempt - 1))

pub data Result (E : Type 0) (A : Type 0) : Type 0 where
  ok : A → Result E A
  err : E → Result E A

-- How a call ends: with a result, with an error that no retry can mend, with an error behind which the
-- context had ended, in a sleep that was cut short, or with the last error when the retries are spent.
pub data Ending (E : Type 0) (A : Type 0) : Type 0 where
  done : A → Ending E A
  permanent cancelled interrupted spent : E → Ending E A
  never_tried : Ending E A

-- A call: its end, and the number of requests it made and the delays it slept for.
pub record Call (E : Type 0) (A : Type 0) : Type 0 where
  pub ending : Ending E A
  pub requests : ℕ
  pub delays : List ℕ

module _ {E : Type 0} {A : Type 0} (retryable : E → Bool) (asked : E → ℕ) (request : ℕ → Result E A)
    (is_interrupted has_ended : ℕ → Bool) where
  abbrev stop : Ending E A → ℕ → List ℕ → Call E A
  stop e n delays = record { ending = e; requests = n; delays = delays }

  -- An attempt, with the loop behind it.
  abbrev pub attempt : (ℕ → Option E → List ℕ → Call E A) → ℕ → List ℕ → Call E A
  attempt again n delays = elim (request n) [
    | ok a ↦ stop (done a) (suc n) delays
    | err e ↦
        if not (retryable e)
        then stop (permanent e) (suc n) delays
        else if has_ended n
        then stop (cancelled e) (suc n) delays
        else again (suc n) (some e) delays
  ]

  -- The loop over the attempts that are left, with the last error and the delays so far, latest first.
  unfoldable pub attempts : ℕ → ℕ → Option E → List ℕ → Call E A
  attempts zero n none delays = stop never_tried n delays
  attempts zero n (some e) delays = stop (spent e) n delays
  attempts (suc left) n none delays = attempt (attempts left) n delays
  attempts (suc left) n (some e) delays =
      let delays' = retry_delay n (asked e) ∷ delays in
      let again = attempt (attempts left) n delays' in
      if is_interrupted n then stop (interrupted e) n delays' else again

  unfoldable pub call : ℕ → Call E A
  unfolding attempts
  call max_retries = attempts (suc max_retries) 0 none []
