-- ===== src/Lab/Pool.antt =====
-- internal/lab/pool.go: the connections to the card processor, which callers take and give back at once.
-- The tokens are the items in the channel. A step is one operation on the channel or on the gauge by one
-- caller, so that a sequence of steps is an interleaving. What is measured of a wait is left out.
pub mod Tokens
use incident_diag.Base.{ℕ, suc, ◌+◌, ◌-◌, ◌≤◌, ◌<◌, ◌≡◌, List, [], ◌∷◌, ◌++◌}

-- Where a caller of Acquire stands: before the first select, in the second one, with a token that is not
-- in the gauge yet, with the connection, behind the decrement of the release, or at an end.
pub data Caller : Type 0 where
  arriving queued taken holding returning released refused : Caller

pub record Pool : Type 0 where
  pub size : ℕ
  pub tokens : ℕ
  -- The gauge poolInUse.
  pub in_use : ℕ
  pub callers : List Caller

-- NewPool.
abbrev pub new_pool : ℕ → Pool
new_pool size = record { size = size; tokens = 0; in_use = 0; callers = [] }

-- What a caller does in Acquire and in the release function, to the tokens and the gauge.
pub data Does (p : Pool) : Caller → Caller → ℕ → ℕ → Type 0 where
  -- The first select: a token is sent where the channel has room.
  takes : p.tokens < p.size → Does p arriving taken (p.tokens + 1) p.in_use
  waits : p.size ≤ p.tokens → Does p arriving queued p.tokens p.in_use
  -- The second select: room in the channel, or the end of the context.
  is_served : p.tokens < p.size → Does p queued taken (p.tokens + 1) p.in_use
  gives_up : Does p queued refused p.tokens p.in_use
  counts : Does p taken holding p.tokens (p.in_use + 1)
  -- The release, whose body runs once.
  uncounts : Does p holding returning p.tokens (p.in_use - 1)
  frees : Does p returning released (p.tokens - 1) p.in_use
  releases_again : Does p released released p.tokens p.in_use

-- A step of the pool: a new caller, or one of the callers moves on.
pub data Step (p : Pool) : Pool → Type 0 where
  arrives : Step p (record p { callers = p.callers ++ arriving ∷ [] })
  moves :
      {a b : Caller} {tokens in_use : ℕ} (before behind : List Caller)
      → p.callers ≡ before ++ a ∷ behind
      → Does p a b tokens in_use
      → Step p (record p { tokens = tokens; in_use = in_use; callers = before ++ b ∷ behind })

pub data Reach (p : Pool) : Pool → Type 0 where
  here : Reach p p
  next : {q r : Pool} → Reach p q → Step q r → Reach p r
