-- ===== src/Tests/Labs.antt =====
-- internal/lab: a CPU fault that is set twice, and a pool of one connection.
use incident_diag.Base.{
  ℕ, ◌≤◌, ◌≡◌, refl, Bool, true, List, [], ◌∷◌, Option, none, some, count, All, arith, leb,
}
use incident_diag.Lab.Fault.{
  cpu, Controller, Request, post, new_controller, start_cpu, stop_cpu, set_cpu, set, handle, replay,
}
use incident_diag.Lab.Fault.Burn.{IsSound, replay-IsSound}
use incident_diag.Lab.Pool.{
  Pool, arriving, queued, taken, new_pool, Does, takes, waits, arrives, moves, Reach, here, next,
}
use incident_diag.Lab.Pool.Tokens.{has_token, is_ended, Reach-new_pool}

-- A ratio in percent.
abbrev in_unit : ℕ → Bool
in_unit r = leb r 100

abbrev burn : ℕ → Request ℕ
burn n = post (record {
  kind = some cpu;
  latency = none;
  failure = none;
  cpu = some (record { kind = cpu; enabled = true; workers = some n });
})

abbrev requests : List (Option (Request ℕ))
requests = some (burn 3) ∷ some (burn 2) ∷ some (burn 99) ∷ []

burning_of : Option (Controller ℕ) → List ℕ
burning_of none = []
burning_of (some c) = c.burning

burn_twice : burning_of (replay in_unit 0 requests (new_controller in_unit 0)) ≡ 1 ∷ 1 ∷ []
unfolding burning_of replay new_controller handle set set_cpu start_cpu stop_cpu
burn_twice = refl

replay-IsSound_example :
    (c : Controller ℕ) × ((replay in_unit 0 requests (new_controller in_unit 0) ≡ some c)
      × IsSound in_unit 0 c)
replay-IsSound_example = replay-IsSound in_unit 0 requests

-- The connection is held by one caller, and another one waits for it.
abbrev one_waits : Pool
one_waits = record { size = 1; tokens = 1; in_use = 0; callers = taken ∷ queued ∷ [] }

Reach-one_waits : Reach (new_pool 1) one_waits
Reach-one_waits =
    next
      (next (next (next here arrives) arrives)
        (moves [] (arriving ∷ []) refl (takes (omega arith))))
      (moves (taken ∷ []) [] refl (waits (omega arith)))

Reach-new_pool_example :
    (count has_token one_waits.callers ≤ 1)
    × ((one_waits.in_use ≤ count has_token one_waits.callers)
        × (((t u : ℕ) → Does one_waits arriving queued t u → count has_token one_waits.callers ≡ 1)
            × (All (λ a. is_ended a ≡ true) one_waits.callers
                → (one_waits.tokens ≡ 0) × (one_waits.in_use ≡ 0))))
Reach-new_pool_example = Reach-new_pool 1 one_waits Reach-one_waits
