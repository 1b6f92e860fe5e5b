-- ===== src/Embed/Batches/Order.antt =====
-- internal/embed/embed.go: Embed returns a vector for each text, in the order of the texts.
use incident_diag.Base.{
  ℕ, zero, suc, ◌+◌, ◌-◌, ◌/◌, ◌≤◌, ◌<◌, ◌≡◌, ◌⊎◌, inl, inr, refl, sym, ap, ◌∙◌, Bool, false, List,
  [], ◌∷◌, ◌++◌, Option, none, some, get_elem?, length, length-append, ltb, ◌==◌, arith, Bool-cases,
}
use Prim.Native.Nat.{min}
use incident_diag.Retry.{
  Result, ok, err, retry_after, max_retry_delay, Ending, done, permanent, cancelled, interrupted,
  spent, never_tried,
}
use incident_diag.Retry.Decided.{retry_after_bounds, IsDecided, Decides, call-IsDecided}
use incident_diag.Embed.{EmbedError, api_error, other_error, Item, pair, dimensions}
use incident_diag.Embed.Pairing.{Has, pair-IsPaired, IsPairError, pair_errors}
use incident_diag.Embed.Batches.{
  HttpAnswer, no_response, responded, retryable, asked, Embedded, vectors, failed, out_of_fuel,
  read_answer, embed_batch, after_batch, embed_from, embed,
}

get_elem?-append {ℓ} :
    {A : Type ℓ} (xs ys : List A) (i : ℕ)
    → ((i < length xs) × (get_elem? (xs ++ ys) i ≡ get_elem? xs i))
      ⊎ ((length xs ≤ i) × (get_elem? (xs ++ ys) i ≡ get_elem? ys (i - length xs)))
get_elem?-append [] ys i = inr (omega arith, ap (get_elem? ys) (omega arith))
get_elem?-append (x ∷ xs) ys zero = inl (omega arith, refl)
get_elem?-append (x ∷ xs) ys (suc i) = elim (get_elem?-append xs ys i) [
  | inl (h, e) ↦ inl (omega arith, e)
  | inr (h, e) ↦ inr (omega arith, e ∙ ap (get_elem? ys) (omega arith))
]

other_asks : asked other_error ≤ max_retry_delay
unfolding asked
other_asks = omega arith

api_asks :
    (status : ℕ) (seconds : Option ℕ)
    → asked (api_error status (retry_after seconds)) ≤ max_retry_delay
unfolding asked
api_asks status seconds = retry_after_bounds seconds

pair_asks : (e : EmbedError) → IsPairError e → asked e ≤ max_retry_delay
unfolding asked
pair_asks e (inl h) = rw h (omega arith)
pair_asks e (inr h) = rw h (omega arith)

module _ {V : Type 0} where
  same_asks :
      (x e : EmbedError)
      → asked x ≤ max_retry_delay
      → ◌≡◌ {A = Result EmbedError (List (Option (List V)))} (err x) (err e)
      → asked e ≤ max_retry_delay
  same_asks x e h k = let same : x ≡ e = cc in rw (← same) h

  -- An answer that gives vectors pairs them with their texts, and any other asks for a short wait.
  read_answer_cases :
      (want : ℕ) (a : HttpAnswer V)
      → ((vs : List (Option (List V)))
          → read_answer want a ≡ ok vs
          → (status : ℕ) × ((seconds : Option ℕ) × ((items : List (Item V)) × ((a
                    ≡ responded status seconds (some items))
                  × (pair items want ≡ ok vs)))))
        × ((e : EmbedError) → read_answer want a ≡ err e → asked e ≤ max_retry_delay)
  unfolding read_answer
  read_answer_cases want no_response = ((λ vs h. cc), λ e h. same_asks other_error e other_asks h)
  read_answer_cases want (responded status seconds none) = elim (Bool-cases (status / 100 == 2)) [
    | inl t ↦ rw (t, read_answer) ((λ vs h. cc), λ e h. same_asks other_error e other_asks h)
    | inr t ↦
        rw (t, read_answer)
          (
            (λ vs h. cc),
            λ e h. same_asks (api_error status (retry_after seconds)) e (api_asks status seconds) h,
          )
  ]
  read_answer_cases want (responded status seconds (some items)) =
      elim (Bool-cases (status / 100 == 2)) [
        | inl t ↦
            rw (t, read_answer)
              (
                (λ vs h. (status, (seconds, (items, (refl, h))))),
                λ e h. pair_asks e (pair_errors items want e h),
              )
        | inr t ↦
            rw (t, read_answer)
              (
                (λ vs h. cc),
                λ e h.
                    same_asks (api_error status (retry_after seconds)) e (api_asks status seconds)
                      h,
              )
      ]

  module _ (provider : ℕ → ℕ → HttpAnswer V) (is_interrupted has_ended : ℕ → ℕ → Bool)
      (max_retries batch_size total : ℕ) where
    pub embed_batch-IsDecided :
        (start want : ℕ)
        → IsDecided retryable asked
            (λ n. read_answer want (provider start n))
            (is_interrupted start)
            (has_ended start)
            max_retries
            (embed_batch provider is_interrupted has_ended max_retries batch_size total start want)
    unfolding embed_batch
    embed_batch-IsDecided start want =
        call-IsDecided retryable asked (λ n. read_answer want (provider start n))
          (is_interrupted start) (has_ended start) max_retries
          (λ n e h. (read_answer_cases want (provider start n)).1 e h)

    -- The vector of a text comes from an item of an answer at the batch of the text.
    abbrev pub IsSourced : ℕ → List V → Type 0
    IsSourced i v =
        (start : ℕ) × ((n : ℕ) × ((status : ℕ) × ((seconds : Option ℕ) × ((items : List (Item V))
                × ((start ≤ i)
                    × ((provider start n ≡ responded status seconds (some items))
                        × (Has items (i - start) v × (length v ≡ dimensions))))))))

    -- A vector for each text so far, in order.
    abbrev AreEmbedded : ℕ → List (Option (List V)) → Type 0
    AreEmbedded n out =
        (length out ≡ n)
        × (((i : ℕ) → i < n → (v : List V) × (get_elem? out i ≡ some (some v)))
            × ((i : ℕ) (v : List V) → get_elem? out i ≡ some (some v) → IsSourced i v))

    append-AreEmbedded :
        (start n k want : ℕ) (out vs : List (Option (List V)))
        → AreEmbedded start out
        → read_answer want (provider start n) ≡ ok vs
        → start + want ≡ k
        → AreEmbedded k (out ++ vs)
    append-AreEmbedded start n k want out vs (l, (full, from)) h e =
        let (status, (seconds, (items, (a, p)))) =
          (read_answer_cases want (provider start n)).0 vs h in
        let (l', (full', from')) = pair-IsPaired V items want vs p in
        (
          omega (arith, l, l', length-append out vs),
          (
            (λ i h. elim (get_elem?-append out vs i) [
              | inl (b, g) ↦ let (v, q) = full i (omega arith) in (v, g ∙ q)
              | inr (b, g) ↦ let (v, q) = full' (i - length out) (omega arith) in (v, g ∙ q)
            ]),
            λ i v q. elim (get_elem?-append out vs i) [
              | inl (b, g) ↦ from i v (sym g ∙ q)
              | inr (b, g) ↦
                  let same : i - length out ≡ i - start = omega arith in
                  let (has, long) = from' (i - length out) v (sym g ∙ q) in
                  (
                    start,
                    (n, (status, (seconds, (items, (omega arith, (a, (rw (← same) has, long))))))),
                  )
            ],
          ),
        )

    -- What becomes of the texts: a vector for each, or a batch that failed in its last attempt.
    abbrev pub IsEmbedded : Embedded V → Type 0
    IsEmbedded (vectors out) = AreEmbedded total out
    IsEmbedded (failed e) =
        (start : ℕ) × ((want : ℕ) × ((n : ℕ) × ((start + want ≤ total)
              × Decides retryable asked (λ k. read_answer want (provider start k))
                  (is_interrupted start) (has_ended start) max_retries n e)))
    IsEmbedded out_of_fuel = ⊥

    after_batch-IsEmbedded :
        (again : List (Option (List V)) → Embedded V) (n start want : ℕ)
        (e : Ending EmbedError (List (Option (List V))))
        → start + want ≤ total
        → Decides retryable asked
            (λ k. read_answer want (provider start k))
            (is_interrupted start)
            (has_ended start)
            max_retries
            n
            e
        → ((vs : List (Option (List V)))
            → read_answer want (provider start n) ≡ ok vs
            → IsEmbedded (again vs))
        → IsEmbedded
            (after_batch provider is_interrupted has_ended max_retries batch_size total again e)
    after_batch-IsEmbedded again n start want (done vs) h d k = k vs d
    after_batch-IsEmbedded again n start want (permanent e) h d k = (start, (want, (n, (h, d))))
    after_batch-IsEmbedded again n start want (cancelled e) h d k = (start, (want, (n, (h, d))))
    after_batch-IsEmbedded again n start want (interrupted e) h d k = (start, (want, (n, (h, d))))
    after_batch-IsEmbedded again n start want (spent e) h d k = (start, (want, (n, (h, d))))
    after_batch-IsEmbedded again n start want never_tried h d k = elim d [ ]

    embed_from-IsEmbedded :
        (fuel start : ℕ) (out : List (Option (List V)))
        → 0 < batch_size
        → total ≤ fuel + start
        → AreEmbedded (min start total) out
        → IsEmbedded (
            embed_from provider is_interrupted has_ended max_retries batch_size total fuel start
              out)
    unfolding embed_from
    embed_from-IsEmbedded zero start out b f h =
        let over : ltb start total ≡ false = ground arith in
        let whole : min start total ≡ total = omega arith in rw over (rw whole at h)
    embed_from-IsEmbedded (suc fuel) start out b f h = elim (Bool-cases (ltb start total)) [
      | inr t ↦ let whole : min start total ≡ total = ground arith in rw t (rw whole at h)
      | inl t ↦
          let want = min (start + batch_size) total - start in
          let start_want : start + want ≡ min (start + batch_size) total = ground arith in
          let here : min start total ≡ start = ground arith in
          let (n, (l, (before, (d, rest)))) = embed_batch-IsDecided start want in
          rw t (
            after_batch-IsEmbedded
              (λ vs.
                embed_from provider is_interrupted has_ended max_retries batch_size total fuel
                  (start + batch_size) (out ++ vs))
              n start want
              ((embed_batch provider is_interrupted has_ended max_retries batch_size total start
                want).ending)
              (omega arith) d
              (λ vs k. embed_from-IsEmbedded fuel (start + batch_size) (out ++ vs) b (omega arith) (
                append-AreEmbedded start n (min (start + batch_size) total) want out vs
                  (rw here at h) k start_want)))
    ]

    -- Where a batch holds a text at least, Embed returns one vector of 1024 numbers for each text, in the
    -- order of the texts, each from the item of its index in an answer at its batch; or it fails, where the
    -- last attempt at a batch failed for good, behind the end of the context, before a sleep that was cut
    -- short, or with no retry left.
    pub embed-IsEmbedded :
        0 < batch_size
        → IsEmbedded (embed provider is_interrupted has_ended max_retries batch_size total)
    unfolding embed
    embed-IsEmbedded b =
        let none_yet : min 0 total ≡ 0 = omega arith in
        embed_from-IsEmbedded total 0 [] b (omega arith)
          (rw none_yet (refl, ((λ i h. absurd (omega arith)), λ i v h. cc)))
