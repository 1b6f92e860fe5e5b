-- ===== src/Tests/Consumer.antt =====
-- internal/mq on three records in two polls.
use incident_diag.Base.{ℕ, suc, ◌+◌, ◌≡◌, refl, Bool, false, List, [], ◌∷◌, take, not, ◌==◌}
use incident_diag.Mq.{Fetches, run}
use incident_diag.Mq.Order.{IsInStep, run-IsInStep, run_handles, handled, allowed}

abbrev polls : List (Fetches ℕ)
polls =
    record { is_closed = false; records = 1 ∷ 2 ∷ [] }
    ∷ record { is_closed = false; records = 3 ∷ [] }
    ∷ []

abbrev worlds_handler : ℕ → ℕ → ℕ
worlds_handler r w = w + r

-- The second commit fails.
abbrev committing : ℕ → ℕ → Bool × ℕ
committing r w = (not (r == 2), suc w)

abbrev never : ℕ → Bool
never w = false

-- The crash is behind the handler of record 3 and before its commit.
run-IsInStep_example : IsInStep (take 6 (run worlds_handler committing never suc polls 0).0)
run-IsInStep_example = run-IsInStep worlds_handler committing never suc polls 0 6

run_handles_example :
    let (trace, returned) = run worlds_handler committing never suc polls 0 in
    (handled trace ≡ 1 ∷ 2 ∷ 3 ∷ []) × (allowed trace ≡ 2) × (returned ≡ false)
run_handles_example = run_handles worlds_handler committing never suc polls 0 (λ v. refl) refl
