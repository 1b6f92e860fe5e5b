-- ===== src/Mq/Order.antt =====
-- internal/mq/consumer.go: the order of handling and committing, and what a crash leaves.
use incident_diag.Base.{
  ℕ, suc, Bool-cases, ◌+◌, ◌≡◌, refl, ap, ◌∙◌, ◌⊎◌, inl, inr, Bool, true, false, ◌||◌, List, [],
  ◌∷◌, ◌++◌, arith, take, zero, not, ◌&&◌, if-cases, length,
}
use incident_diag.Mq.{
  Event, handles, commits, commit_fails, allows_rebalance, Fetches, handle, visit, each_record, run,
}

module _ {R : Type 0} where
  unfoldable pub handled : List (Event R) → List R
  handled [] = []
  handled (handles r ∷ es) = r ∷ handled es
  handled (commits r ∷ es) = handled es
  handled (commit_fails r ∷ es) = handled es
  handled (allows_rebalance ∷ es) = handled es

  -- The records whose commit was answered, in order, and whether it succeeded.
  unfoldable pub answered : List (Event R) → List (R × Bool)
  answered [] = []
  answered (handles r ∷ es) = answered es
  answered (commits r ∷ es) = (r, true) ∷ answered es
  answered (commit_fails r ∷ es) = (r, false) ∷ answered es
  answered (allows_rebalance ∷ es) = answered es

  unfoldable pub allowed : List (Event R) → ℕ
  allowed [] = 0
  allowed (handles r ∷ es) = allowed es
  allowed (commits r ∷ es) = allowed es
  allowed (commit_fails r ∷ es) = allowed es
  allowed (allows_rebalance ∷ es) = suc (allowed es)

  abbrev records_of : List (R × Bool) → List R
  records_of [] = []
  records_of ((r, ok) ∷ rs) = r ∷ records_of rs

  -- The commit of every record that was handled was answered, in the order of handling, but for at most
  -- the last one.
  abbrev pub IsInStep : List (Event R) → Type 0
  IsInStep es =
      (handled es ≡ records_of (answered es))
      ⊎ ((r : R) × (handled es ≡ records_of (answered es) ++ r ∷ []))

  -- A trace in which each record is committed at once when it is handled, or its commit fails.
  data IsTrace : List (Event R) → Type 0 where
    empty : IsTrace []
    one : (r : R) (es : List (Event R)) → IsTrace es → IsTrace (handles r ∷ (commits r ∷ es))
    lost : (r : R) (es : List (Event R)) → IsTrace es → IsTrace (handles r ∷ (commit_fails r ∷ es))
    allow : (es : List (Event R)) → IsTrace es → IsTrace (allows_rebalance ∷ es)

  append-IsTrace : {es fs : List (Event R)} → IsTrace es → IsTrace fs → IsTrace (es ++ fs)
  append-IsTrace empty k = k
  append-IsTrace (one r es h) k = one r _ (append-IsTrace h k)
  append-IsTrace (lost r es h) k = lost r _ (append-IsTrace h k)
  append-IsTrace (allow es h) k = allow _ (append-IsTrace h k)

  extended : (r : R) (es : List (Event R)) → IsInStep es → IsInStep (handles r ∷ (commits r ∷ es))
  unfolding handled answered
  extended r es (inl e) = inl (ap (◌∷◌ r) e)
  extended r es (inr (x, e)) = inr (x, ap (◌∷◌ r) e)

  extended_lost :
      (r : R) (es : List (Event R)) → IsInStep es → IsInStep (handles r ∷ (commit_fails r ∷ es))
  unfolding handled answered
  extended_lost r es (inl e) = inl (ap (◌∷◌ r) e)
  extended_lost r es (inr (x, e)) = inr (x, ap (◌∷◌ r) e)

  trace-IsInStep : (n : ℕ) {es : List (Event R)} → IsTrace es → IsInStep (take n es)
  unfolding handled answered
  trace-IsInStep zero t = inl refl
  trace-IsInStep (suc n) empty = inl refl
  trace-IsInStep (suc zero) (one r es t) = inr (r, refl)
  trace-IsInStep (suc (suc n)) (one r es t) = extended r (take n es) (trace-IsInStep n t)
  trace-IsInStep (suc zero) (lost r es t) = inr (r, refl)
  trace-IsInStep (suc (suc n)) (lost r es t) = extended_lost r (take n es) (trace-IsInStep n t)
  trace-IsInStep (suc n) (allow es t) = trace-IsInStep n t

  handled-append : (es fs : List (Event R)) → handled (es ++ fs) ≡ handled es ++ handled fs
  unfolding handled
  handled-append [] fs = refl
  handled-append (handles r ∷ es) fs = ap (◌∷◌ r) (handled-append es fs)
  handled-append (commits r ∷ es) fs = handled-append es fs
  handled-append (commit_fails r ∷ es) fs = handled-append es fs
  handled-append (allows_rebalance ∷ es) fs = handled-append es fs

  allowed-append : (es fs : List (Event R)) → allowed (es ++ fs) ≡ allowed es + allowed fs
  unfolding allowed
  allowed-append [] fs = omega arith
  allowed-append (handles r ∷ es) fs = allowed-append es fs
  allowed-append (commits r ∷ es) fs = allowed-append es fs
  allowed-append (commit_fails r ∷ es) fs = allowed-append es fs
  allowed-append (allows_rebalance ∷ es) fs = omega (arith, allowed-append es fs)

  -- The records of all polls, in poll order.
  abbrev pub fetched : List (Fetches R) → List R
  fetched [] = []
  fetched (f ∷ fs) = f.records ++ fetched fs

  abbrev pub are_open : List (Fetches R) → Bool
  are_open [] = true
  are_open (f ∷ fs) = not f.is_closed && are_open fs

  module _ {World : Type 0} (handler : R → World → World) (commit : R → World → Bool × World)
      (is_over : World → Bool) where
    handle-IsTrace : (r : R) (w : World) → IsTrace (handle handler commit is_over r w).0
    unfolding handle
    handle-IsTrace r w = elim (Bool-cases (commit r (handler r w)).0) [
      | inl e ↦ rw e (one r [] empty)
      | inr e ↦ rw e (lost r [] empty)
    ]

    visit-IsTrace : (r : R) (w : World) → IsTrace (visit handler commit is_over r w).0
    unfolding visit
    visit-IsTrace r w =
        if-cases (λ (x : List (Event R) × World). IsTrace x.0) (is_over w) _ _ (λ h. empty)
          (λ h. handle-IsTrace r w)

    each_record-IsTrace :
        (rs : List R) (w : World) → IsTrace (each_record handler commit is_over rs w).0
    unfolding each_record
    each_record-IsTrace [] w = empty
    each_record-IsTrace (r ∷ rs) w =
        append-IsTrace (visit-IsTrace r w)
          (each_record-IsTrace rs (visit handler commit is_over r w).1)

    -- A record that is visited is handled, and what follows it is one answer to its commit.
    visit_all :
        (r : R) (w : World) (es : List (Event R))
        → is_over w ≡ false
        → let here = (visit handler commit is_over r w).0 in
          (handled (here ++ es) ≡ r ∷ handled es) × (allowed (here ++ es) ≡ allowed es)
    unfolding visit handle handled allowed
    visit_all r w es on = rw on (elim (Bool-cases (commit r (handler r w)).0) [
      | inl e ↦ rw e (refl, refl)
      | inr e ↦ rw e (refl, refl)
    ])

    each_record_all :
        (rs : List R) (w : World)
        → ((v : World) → is_over v ≡ false)
        → (handled (each_record handler commit is_over rs w).0 ≡ rs)
          × (allowed (each_record handler commit is_over rs w).0 ≡ 0)
    unfolding each_record handled allowed
    each_record_all [] w on = (refl, refl)
    each_record_all (r ∷ rs) w on =
        let rest = each_record_all rs (visit handler commit is_over r w).1 on in
        let here = visit_all r w _ (on w) in (here.0 ∙ ap (◌∷◌ r) rest.0, here.1 ∙ rest.1)

    module _ (poll : World → World) where
      run-IsTrace :
          (fs : List (Fetches R)) (w : World) → IsTrace (run handler commit is_over poll fs w).0
      unfolding run
      run-IsTrace [] w = empty
      run-IsTrace (f ∷ fs) w =
          let here = each_record-IsTrace f.records (poll w) in
          if-cases (λ (x : List (Event R) × Bool). IsTrace x.0) (f.is_closed || is_over (poll w)) _
            _ (λ h. allow _ empty)
            (λ h.
              append-IsTrace here (
                allow _ (run-IsTrace fs (each_record handler commit is_over f.records (poll w)).1)))

      -- Wherever the process crashes, the commit of every record that it has handled has succeeded or
      -- failed, in the order of handling, but for at most the last record: a failed handler withholds no
      -- commit, and a failed commit holds up no later record. This is so whenever the context ends.
      pub run-IsInStep :
          (fs : List (Fetches R)) (w : World) (n : ℕ)
          → IsInStep (take n (run handler commit is_over poll fs w).0)
      run-IsInStep fs w n = trace-IsInStep n (run-IsTrace fs w)

      -- While the client is open and the context has not ended, every fetched record is handled, once
      -- and in poll order, whatever the handler answered before; a rebalance is allowed once for each
      -- poll, and the consumer goes on.
      pub run_handles :
          (fs : List (Fetches R)) (w : World)
          → ((v : World) → is_over v ≡ false)
          → are_open fs ≡ true
          → let (trace, returned) = run handler commit is_over poll fs w in
            (handled trace ≡ fetched fs) × (allowed trace ≡ length fs) × (returned ≡ false)
      unfolding run handled allowed
      run_handles [] w on h = (refl, refl, refl)
      run_handles (f ∷ fs) w on h =
          let (here, counted) = each_record_all f.records (poll w) on in
          let next = (each_record handler commit is_over f.records (poll w)).1 in
          let events = (each_record handler commit is_over f.records (poll w)).0 in
          let more : List (Event R) =
            allows_rebalance ∷ (run handler commit is_over poll fs next).0 in
          let (later, count, going) = run_handles fs next on (ground arith) in
          if-cases
            (λ (x : List (Event R) × Bool).
              (handled x.0 ≡ fetched (f ∷ fs)) × (allowed x.0 ≡ length (f ∷ fs)) × (x.1 ≡ false))
            (f.is_closed || is_over (poll w)) _ _ (λ k. absurd (ground (arith, on (poll w))))
            (λ k. (
              handled-append events more ∙ rw (here, later) refl,
              omega (arith, allowed-append events more, counted, count),
              going,
            ))
