-- ===== src/Lab/Pool/Tokens.antt =====
-- internal/lab/pool.go: the tokens and the gauge count the callers that hold a connection.
use incident_diag.Base.{
  ℕ, ◌+◌, ◌≤◌, ◌≡◌, refl, ap, Bool, true, false, List, [], ◌∷◌, ◌++◌, count, count-append, All,
  if◌then◌else◌, arith,
}
use incident_diag.Lab.Pool.{
  Caller, arriving, queued, taken, holding, returning, released, refused, Pool, new_pool, Does,
  takes, waits, is_served, gives_up, counts, uncounts, frees, releases_again, Step, arrives, moves,
  Reach, here, next,
}

abbrev pub has_token : Caller → Bool
has_token taken = true
has_token holding = true
has_token returning = true
has_token _ = false

abbrev pub is_counted : Caller → Bool
is_counted holding = true
is_counted _ = false

pub record IsValid (p : Pool) : Type 0 where
  pub within : p.tokens ≤ p.size
  pub tokens : p.tokens ≡ count has_token p.callers
  pub in_use : p.in_use ≡ count is_counted p.callers

-- What a move does to the two counts.
Does-counts :
    {p : Pool} {a b : Caller} {t u : ℕ} (x y : ℕ)
    → Does p a b t u
    → p.tokens ≤ p.size
    → p.tokens ≡ (if has_token a then 1 else 0) + x
    → p.in_use ≡ (if is_counted a then 1 else 0) + y
    → (t ≤ p.size)
      × ((t ≡ (if has_token b then 1 else 0) + x) × (u ≡ (if is_counted b then 1 else 0) + y))
Does-counts x y (takes h) w e f = omega arith
Does-counts x y (waits h) w e f = omega arith
Does-counts x y (is_served h) w e f = omega arith
Does-counts x y gives_up w e f = omega arith
Does-counts x y counts w e f = omega arith
Does-counts x y uncounts w e f = omega arith
Does-counts x y frees w e f = omega arith
Does-counts x y releases_again w e f = omega arith

count_middle :
    (f : Caller → Bool) (xs : List Caller) (a : Caller) (ys : List Caller)
    → count f (xs ++ a ∷ ys) ≡ (if f a then 1 else 0) + (count f xs + count f ys)
count_middle f xs a ys = omega (arith, count-append f xs (a ∷ ys))

Step-IsValid : {p q : Pool} → Step p q → IsValid p → IsValid q
Step-IsValid {p} arrives v = record {
  within = v.within;
  tokens = omega (arith, v.tokens, count-append has_token p.callers (arriving ∷ []));
  in_use = omega (arith, v.in_use, count-append is_counted p.callers (arriving ∷ []));
}
Step-IsValid {p} (moves {a} {b} before behind e d) v =
    let held = ap (count has_token) e in
    let counted = ap (count is_counted) e in
    let (w, (t, u)) =
      Does-counts (count has_token before + count has_token behind)
        (count is_counted before + count is_counted behind) d v.within
        (omega (arith, v.tokens, held, count_middle has_token before a behind))
        (omega (arith, v.in_use, counted, count_middle is_counted before a behind)) in
    record {
      within = w;
      tokens = omega (arith, t, count_middle has_token before b behind);
      in_use = omega (arith, u, count_middle is_counted before b behind);
    }

Reach-IsValid : {p q : Pool} → IsValid p → Reach p q → IsValid q
Reach-IsValid v here = v
Reach-IsValid v (next r s) = Step-IsValid s (Reach-IsValid v r)

Reach-size : {p q : Pool} → Reach p q → q.size ≡ p.size
Reach-size here = refl
Reach-size (next r arrives) = Reach-size r
Reach-size (next r (moves before behind e d)) = Reach-size r

abbrev pub is_ended : Caller → Bool
is_ended released = true
is_ended refused = true
is_ended _ = false

count-is_ended :
    (xs : List Caller)
    → All (λ a. is_ended a ≡ true) xs
    → (count has_token xs ≡ 0) × (count is_counted xs ≡ 0)
count-is_ended [] h = (refl, refl)
count-is_ended (released ∷ xs) h = omega (arith, count-is_ended xs h.1)
count-is_ended (refused ∷ xs) h = omega (arith, count-is_ended xs h.1)
count-is_ended (arriving ∷ xs) h = cc
count-is_ended (queued ∷ xs) h = cc
count-is_ended (taken ∷ xs) h = cc
count-is_ended (holding ∷ xs) h = cc
count-is_ended (returning ∷ xs) h = cc

counted-le-held : (xs : List Caller) → count is_counted xs ≤ count has_token xs
counted-le-held [] = omega arith
counted-le-held (holding ∷ xs) = omega (arith, counted-le-held xs)
counted-le-held (taken ∷ xs) = omega (arith, counted-le-held xs)
counted-le-held (returning ∷ xs) = omega (arith, counted-le-held xs)
counted-le-held (arriving ∷ xs) = omega (arith, counted-le-held xs)
counted-le-held (queued ∷ xs) = omega (arith, counted-le-held xs)
counted-le-held (released ∷ xs) = omega (arith, counted-le-held xs)
counted-le-held (refused ∷ xs) = omega (arith, counted-le-held xs)

queued_full : {p : Pool} {t u : ℕ} → Does p arriving queued t u → p.size ≤ p.tokens
queued_full (waits h) = h

-- In every interleaving of any number of callers, at most as many as the size hold a connection at once,
-- the gauge never counts more than hold one, a caller goes to the queue only while all connections are
-- held, and when all callers have ended every connection is free and the gauge is back at zero.
pub Reach-new_pool :
    (size : ℕ) (p : Pool)
    → Reach (new_pool size) p
    → (count has_token p.callers ≤ size)
      × ((p.in_use ≤ count has_token p.callers)
          × (((t u : ℕ) → Does p arriving queued t u → count has_token p.callers ≡ size)
              × (All (λ a. is_ended a ≡ true) p.callers → (p.tokens ≡ 0) × (p.in_use ≡ 0))))
Reach-new_pool size p r =
    let v = Reach-IsValid (record { within = omega arith; tokens = refl; in_use = refl }) r in
    let s = Reach-size r in
    (
      omega (arith, v.within, v.tokens, s),
      (
        omega (arith, v.in_use, counted-le-held p.callers),
        (
          λ t u d. omega (arith, queued_full d, v.within, v.tokens, s),
          λ h. omega (arith, v.tokens, v.in_use, count-is_ended p.callers h),
        ),
      ),
    )
