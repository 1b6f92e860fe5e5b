-- ===== src/Retry/Decided.antt =====
-- The loop of retries: which attempt ends a call, how many requests it makes and how long it sleeps.
use incident_diag.Base.{
  ℕ, zero, suc, ◌+◌, ◌-◌, ◌*◌, ◌^◌, ◌≤◌, ◌<◌, ◌≡◌, ◌⊎◌, dec_lt, refl, Bool, true, false, List, [],
  ◌∷◌, Option, none, some, length, All, arith, Bool-cases, inl, inr,
}
use incident_diag.Retry.{
  base_retry_delay, max_retry_delay, cap_delay, retry_after, retry_delay, Result, ok, err, Ending,
  done, permanent, cancelled, interrupted, spent, never_tried, Call, attempt, attempts, call,
}

cap_delay_bounds : (d : ℕ) → cap_delay d ≤ max_retry_delay
unfolding cap_delay
cap_delay_bounds d = ground arith

pub retry_after_bounds : (s : Option ℕ) → retry_after s ≤ max_retry_delay
unfolding retry_after
retry_after_bounds none = omega arith
retry_after_bounds (some s) = cap_delay_bounds (s * 1000000000)

pub retry_delay_bounds :
    (n asked : ℕ) → asked ≤ max_retry_delay → retry_delay n asked ≤ max_retry_delay
unfolding retry_delay
retry_delay_bounds n asked h = ground (arith, cap_delay_bounds (base_retry_delay * 2 ^ (n - 1)))

Result-cases : {E A : Type 0} (r : Result E A) → ((a : A) × (r ≡ ok a)) ⊎ ((e : E) × (r ≡ err e))
Result-cases (ok a) = inl (a, refl)
Result-cases (err e) = inr (e, refl)

module _ {E : Type 0} {A : Type 0} (retryable : E → Bool) (asked : E → ℕ) (request : ℕ → Result E A)
    (is_interrupted has_ended : ℕ → Bool) where
  -- An attempt whose error is worth another one.
  abbrev pub Fails : ℕ → E → Type 0
  Fails n e = (request n ≡ err e) × ((retryable e ≡ true) × (has_ended n ≡ false))

  -- Attempts that failed before a number and were each followed by a whole sleep.
  abbrev pub Earlier : ℕ → Type 0
  Earlier n = (i : ℕ) → i < n → ((e : E) × Fails i e) × (is_interrupted (suc i) ≡ false)

  -- Why the attempt of a number is the last one.
  abbrev pub Decides : ℕ → ℕ → Ending E A → Type 0
  Decides most n (done a) = request n ≡ ok a
  Decides most n (permanent e) = (request n ≡ err e) × (retryable e ≡ false)
  Decides most n (cancelled e) = (request n ≡ err e) × ((retryable e ≡ true) × (has_ended n ≡ true))
  Decides most n (interrupted e) = Fails n e × ((n < most) × (is_interrupted (suc n) ≡ true))
  Decides most n (spent e) = Fails n e × (n ≡ most)
  Decides most n never_tried = ⊥

  -- A call ends at the first attempt that decides it, and sleeps at most once before each other one.
  abbrev pub IsDecided : ℕ → Call E A → Type 0
  IsDecided most c =
      (n : ℕ) × ((n ≤ most)
        × (Earlier n
            × (Decides most n c.ending
                × ((c.requests ≡ suc n)
                    × ((length c.delays ≤ most) × All (λ d. d ≤ max_retry_delay) c.delays)))))

  module _ (most : ℕ) (fair : (n : ℕ) (e : E) → request n ≡ err e → asked e ≤ max_retry_delay) where
    abbrev Sleeps : ℕ → List ℕ → Type 0
    Sleeps n delays = (length delays ≡ n) × All (λ d. d ≤ max_retry_delay) delays

    attempt-IsDecided :
        (again : ℕ → Option E → List ℕ → Call E A) (n : ℕ) (delays : List ℕ)
        → n ≤ most
        → Earlier n
        → Sleeps n delays
        → ((e : E) → Fails n e → IsDecided most (again (suc n) (some e) delays))
        → IsDecided most (attempt retryable asked request is_interrupted has_ended again n delays)
    attempt-IsDecided again n delays h before s k = elim (Result-cases (request n)) [
      | inl (a, e) ↦ rw (e, attempt) (n, (h, (before, (e, (refl, (omega (arith, s.0), s.1))))))
      | inr (x, e) ↦
          rw (e, attempt)
            (elim (Bool-cases (retryable x)) [
              | inr r ↦ rw r (n, (h, (before, ((e, r), (refl, (omega (arith, s.0), s.1))))))
              | inl r ↦ rw r (elim (Bool-cases (has_ended n)) [
                | inl t ↦ rw t (n, (h, (before, ((e, (r, t)), (refl, (omega (arith, s.0), s.1))))))
                | inr t ↦ rw t (k x (e, (r, t)))
              ])
            ])
    ]

    Earlier-suc :
        (n : ℕ) (e : E) → Earlier n → Fails n e → is_interrupted (suc n) ≡ false → Earlier (suc n)
    Earlier-suc n e before f t i h = elim (dec_lt i n) [
      | yes p ↦ before i p
      | no p ↦ let same : n ≡ i = omega arith in rw (← same) ((e, f), t)
    ]

    attempts-IsDecided :
        (left n : ℕ) (e : E) (delays : List ℕ)
        → n + left ≡ most
        → Earlier n
        → Fails n e
        → Sleeps n delays
        → IsDecided most
            (attempts retryable asked request is_interrupted has_ended left (suc n) (some e) delays)
    unfolding attempts
    attempts-IsDecided zero n e delays h before f s =
        (n, (omega arith, (before, ((f, omega arith), (refl, (omega (arith, s.0), s.1))))))
    attempts-IsDecided (suc left) n e delays h before f s =
        let short = retry_delay_bounds (suc n) (asked e) (fair n e f.0) in
        elim (Bool-cases (is_interrupted (suc n))) [
          | inl t ↦ rw t (
            n,
            (
              omega arith,
              (before, ((f, (omega arith, t)), (refl, (omega (arith, s.0), (short, s.1))))),
            ),
          )
          | inr t ↦ rw t (
              attempt-IsDecided (attempts retryable asked request is_interrupted has_ended left)
                (suc n) (retry_delay (suc n) (asked e) ∷ delays) (omega arith)
                (Earlier-suc n e before f t) (omega (arith, s.0), (short, s.1))
                (λ x g.
                  attempts-IsDecided left (suc n) x (retry_delay (suc n) (asked e) ∷ delays)
                    (omega arith) (Earlier-suc n e before f t) g
                    (omega (arith, s.0), (short, s.1))))
        ]

    -- A call of a request with retries is decided by its first attempt that succeeds, fails for good, fails
    -- behind the end of the context, is followed by a sleep that is cut short, or was the last allowed one;
    -- it makes no other request behind that, and sleeps at most once for each retry and 10 s at a time.
    pub call-IsDecided : IsDecided most (call retryable asked request is_interrupted has_ended most)
    unfolding call
    call-IsDecided =
        attempt-IsDecided (attempts retryable asked request is_interrupted has_ended most) 0 []
          (omega arith) (λ i h. absurd (omega arith)) (refl, tt)
          (λ e f.
            attempts-IsDecided most 0 e [] (omega arith) (λ i h. absurd (omega arith)) f (refl, tt))
