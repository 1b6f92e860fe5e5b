-- ===== src/Lab/Fault/Burn.antt =====
-- internal/lab/fault.go: any requests keep the faults within their ranges, and the goroutines those of
-- the fault that is set.
use incident_diag.Base.{
  ℕ, ◌≡◌, refl, Bool, true, List, [], ◌∷◌, Option, none, some, arith, Option-cases, inl, inr,
}
use incident_diag.Lab.Fault.{
  Kind, latency, error, cpu, Controller, state, bad_request, method_not_allowed, Body, Request, get,
  delete, post, Done, replied, blocked, is_within, no_cpu, no_faults, new_controller, decoded,
  close, set_latency, set_error, set_cpu, clear, close, set, handle, call, left, replay,
  error_status,
}
use incident_diag.Lab.Fault.Valid.{
  stop_cpu_lem, IsValid, IsDone, set_latency-IsDone, set_error-IsDone, cpu-IsValid, set_cpu-IsDone,
}

module _ {R : Type 0} (in_unit : R → Bool) (zero_ratio : R) where
  -- A controller without faults.
  clean-IsValid :
      (c : Controller R)
      → c.faults ≡ no_faults in_unit zero_ratio
      → c.cpu_cancel ≡ none
      → c.burning ≡ []
      → IsValid in_unit zero_ratio c
  clean-IsValid c e f g = record {
    latency_kind = rw e refl;
    error_kind = rw e refl;
    cpu_kind = rw e refl;
    times = rw e refl;
    failure = rw e (λ t. cc);
    burns = rw e (f, g);
  }

  clear-IsDone :
      (c : Controller R)
      → IsValid in_unit zero_ratio c
      → IsDone in_unit zero_ratio c (clear in_unit zero_ratio c)
  unfolding clear
  clear-IsDone c v =
      rw (stop_cpu_lem c c.faults.cpu.enabled v.burns, clear) (refl, clean-IsValid _ refl refl refl)

  close-IsDone :
      (c : Controller R) → IsValid in_unit zero_ratio c → IsDone in_unit zero_ratio c (close c)
  unfolding close
  close-IsDone c v =
      rw (stop_cpu_lem c c.faults.cpu.enabled v.burns, close)
        (refl, cpu-IsValid in_unit zero_ratio no_cpu c _ v refl refl (refl, refl))

  decoded-IsDone :
      {A : Type 0} (f : A → Controller R → Done R) (o : Option A) (c : Controller R)
      → ((a : A) → IsDone in_unit zero_ratio c (f a c))
      → IsDone in_unit zero_ratio c (decoded f o c)
  decoded-IsDone f none c h = refl
  decoded-IsDone f (some a) c h = h a

  set-IsDone :
      (b : Body R) (c : Controller R)
      → IsValid in_unit zero_ratio c
      → IsDone in_unit zero_ratio c (set in_unit zero_ratio b c)
  unfolding set
  set-IsDone b c v = elim (Option-cases b.kind) [
    | inl e ↦ rw (e, set) refl
    | inr (latency, e) ↦
        rw (e, set)
          (decoded-IsDone set_latency b.latency c
            (λ f. set_latency-IsDone in_unit zero_ratio f c v))
    | inr (error, e) ↦
        rw (e, set)
          (decoded-IsDone (set_error in_unit) b.failure c
            (λ f. set_error-IsDone in_unit zero_ratio f c v))
    | inr (cpu, e) ↦
        rw (e, set) (decoded-IsDone set_cpu b.cpu c (λ f. set_cpu-IsDone in_unit zero_ratio f c v))
    | inr (Kind.other t, e) ↦ rw (e, set) refl
  ]

  handle-IsDone :
      (r : Request R) (c : Controller R)
      → IsValid in_unit zero_ratio c
      → IsDone in_unit zero_ratio c (handle in_unit zero_ratio r c)
  unfolding handle
  handle-IsDone get c v = (refl, v)
  handle-IsDone delete c v = clear-IsDone c v
  handle-IsDone (post b) c v = set-IsDone b c v
  handle-IsDone Request.other c v = refl

  call-IsDone :
      (r : Option (Request R)) (c : Controller R)
      → IsValid in_unit zero_ratio c
      → IsDone in_unit zero_ratio c (call in_unit zero_ratio r c)
  call-IsDone none c v = close-IsDone c v
  call-IsDone (some r) c v = handle-IsDone r c v

  -- A call that is done leaves a valid controller.
  left-IsValid :
      (c : Controller R) (d : Done R)
      → IsValid in_unit zero_ratio c
      → IsDone in_unit zero_ratio c d
      → (c' : Controller R) × ((left in_unit zero_ratio d ≡ some c')
          × IsValid in_unit zero_ratio c')
  left-IsValid c (replied (state s) c') v h = (c', (refl, h.1))
  left-IsValid c (replied (bad_request r) c') v h = (c', (refl, rw h v))
  left-IsValid c (replied method_not_allowed c') v h = (c', (refl, rw h v))
  left-IsValid c blocked v h = elim h [ ]

  -- A request is failed only with the status of an error.
  error_status_lem :
      (is_positive below_one : R → Bool) (drawn : Bool) (c : Controller R) (s : Option ℕ)
      → IsValid in_unit zero_ratio c
      → error_status is_positive below_one drawn c ≡ some s
      → is_within 400 599 s ≡ true
  unfolding error_status
  error_status_lem is_positive below_one drawn c s v h =
      let on : c.faults.failure.enabled ≡ true = ground arith in
      let same : s ≡ c.faults.failure.status = ground arith in rw same (v.failure on).0

  -- What holds of a controller at all times.
  abbrev pub IsSound : Controller R → Type 0
  IsSound c =
      IsValid in_unit zero_ratio c
      × (((r : Request R) → IsDone in_unit zero_ratio c (handle in_unit zero_ratio r c))
          × ((is_positive below_one : R → Bool) (drawn : Bool) (s : Option ℕ)
              → error_status is_positive below_one drawn c ≡ some s
              → is_within 400 599 s ≡ true))

  replay_lem :
      (rs : List (Option (Request R))) (c : Controller R)
      → IsValid in_unit zero_ratio c
      → (c' : Controller R) × ((replay in_unit zero_ratio rs c ≡ some c')
          × IsValid in_unit zero_ratio c')
  unfolding replay
  replay_lem [] c v = (c, (refl, v))
  replay_lem (r ∷ rs) c v =
      let (c', (e, w)) = left-IsValid c (call in_unit zero_ratio r c) v (call-IsDone r c v) in
      let (d, (g, u)) = replay_lem rs c' w in (d, (rw (e, replay) g, u))

  -- Behind any requests and closings, none of which waits forever: the faults are within their ranges, as
  -- many goroutines burn as the CPU fault that is enabled asks for and none if it is not, each under the
  -- context that the next stop ends; a request that is refused changes nothing and any other shows the
  -- faults it leaves; and a request is failed only with a status from 400 to 599.
  pub replay-IsSound :
      (rs : List (Option (Request R)))
      → (c : Controller R) × ((replay in_unit zero_ratio rs (new_controller in_unit zero_ratio)
            ≡ some c)
          × IsSound c)
  unfolding new_controller
  replay-IsSound rs =
      let (c, (e, v)) = replay_lem rs _ (clean-IsValid _ refl refl refl) in
      (
        c,
        (
          e,
          (
            v,
            (
              (λ r. handle-IsDone r c v),
              λ is_positive below_one drawn s h.
                  error_status_lem is_positive below_one drawn c s v h,
            ),
          ),
        ),
      )
