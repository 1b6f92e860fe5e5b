-- ===== src/Lab/Fault/Valid.antt =====
-- internal/lab/fault.go: what is valid, and each setter keeps it.
use incident_diag.Base.{
  ℕ, zero, suc, ◌≡◌, refl, ap, Bool, true, false, not, ◌&&◌, ◌||◌, List, [], ◌++◌, Option, none,
  some, filter, ◌==◌, ==_refl, arith, Bool-cases, inl, inr,
}
use incident_diag.Lab.Fault.{
  max_cpu_workers, latency, error, cpu, LatencyFault, ErrorFault, CpuFault, Controller, state,
  bad_request, method_not_allowed, Done, replied, blocked, is_within, is_negative, goroutines,
  spawn, start_cpu, stop_cpu, restart, set_latency, set_error, set_cpu,
}

filter-spawn : (n k : ℕ) → filter (λ g. not (g == k)) (spawn n k) ≡ []
filter-spawn zero k = refl
filter-spawn (suc n) k = rw (==_refl k) (filter-spawn n k)

-- The goroutines of a fault: all of them, of the context that the next stop ends, or none.
abbrev pub Burns : Bool → Option ℕ → Option ℕ → List ℕ → Type 0
Burns false workers cancel burning = (cancel ≡ none) × (burning ≡ [])
Burns true workers cancel burning =
    (is_within 1 max_cpu_workers workers ≡ true)
    × ((k : ℕ) × ((cancel ≡ some k) × (burning ≡ spawn (goroutines workers) k)))

module _ {R : Type 0} where
  abbrev pub stopped : Controller R → Controller R
  stopped c = record c { cpu_cancel = none; burning = [] }

  stop_cpu-none :
      (c : Controller R) → c.cpu_cancel ≡ none → c.burning ≡ [] → stop_cpu c ≡ some (stopped c)
  unfolding stop_cpu
  stop_cpu-none c e f = ground arith

  stop_cpu-some :
      (c : Controller R) (n k : ℕ)
      → c.cpu_cancel ≡ some k
      → c.burning ≡ spawn n k
      → stop_cpu c ≡ some (stopped c)
  unfolding stop_cpu
  stop_cpu-some c n k e f = rw (e, f, filter-spawn n k) refl

  pub stop_cpu_lem :
      (c : Controller R) (on : Bool)
      → Burns on c.faults.cpu.workers c.cpu_cancel c.burning
      → stop_cpu c ≡ some (stopped c)
  stop_cpu_lem c false (e, f) = stop_cpu-none c e f
  stop_cpu_lem c true (w, (k, (e, f))) = stop_cpu-some c (goroutines c.faults.cpu.workers) k e f

  restart-Burns :
      (f : CpuFault) (c : Controller R)
      → c.cpu_cancel ≡ none
      → c.burning ≡ []
      → (f.enabled && not (is_within 1 max_cpu_workers f.workers)) ≡ false
      → Burns f.enabled f.workers (restart f c).cpu_cancel (restart f c).burning
  unfolding start_cpu
  restart-Burns f c e g h = elim (Bool-cases f.enabled) [
    | inl t ↦ simp t (
      ground arith,
      (c.contexts, (refl, ap (λ (l : List ℕ). l ++ spawn (goroutines f.workers) c.contexts) g)),
    )
    | inr t ↦ simp t (e, g)
  ]

  restart_faults :
      (f : CpuFault) (c : Controller R)
      → (restart f c).faults ≡ record c.faults { cpu = record f { kind = cpu } }
  unfolding start_cpu
  restart_faults f c = elim (Bool-cases f.enabled) [ inl t ↦ simp t refl | inr t ↦ simp t refl ]

module _ {R : Type 0} (in_unit : R → Bool) (zero_ratio : R) where
  abbrev pub InRange : ErrorFault R → Type 0
  InRange f = f.enabled ≡ true → (is_within 400 599 f.status ≡ true) × (in_unit f.ratio ≡ true)

  -- A controller with faults within their ranges and the goroutines of its CPU fault.
  pub record IsValid (c : Controller R) : Type 0 where
    pub latency_kind : c.faults.latency.kind ≡ latency
    pub error_kind : c.faults.failure.kind ≡ error
    pub cpu_kind : c.faults.cpu.kind ≡ cpu
    pub times :
        (is_negative c.faults.latency.delay_ms || is_negative c.faults.latency.jitter_ms) ≡ false
    pub failure : InRange c.faults.failure
    pub burns : Burns c.faults.cpu.enabled c.faults.cpu.workers c.cpu_cancel c.burning

  -- What a call does: it shows the faults that it leaves, or it is refused and changes nothing.
  abbrev pub IsDone : Controller R → Done R → Type 0
  IsDone c (replied (state s) c') = (s ≡ c'.faults) × IsValid c'
  IsDone c (replied (bad_request r) c') = c' ≡ c
  IsDone c (replied method_not_allowed c') = c' ≡ c
  IsDone c blocked = ⊥

  pub set_latency-IsDone :
      (f : LatencyFault) (c : Controller R) → IsValid c → IsDone c (set_latency f c)
  unfolding set_latency
  set_latency-IsDone f c v = elim (Bool-cases (is_negative f.delay_ms || is_negative f.jitter_ms)) [
    | inl e ↦ rw e refl
    | inr e ↦ rw e (
      refl,
      record {
        latency_kind = refl;
        error_kind = v.error_kind;
        cpu_kind = v.cpu_kind;
        times = e;
        failure = v.failure;
        burns = v.burns;
      },
    )
  ]

  pub set_error-IsDone :
      (f : ErrorFault R) (c : Controller R) → IsValid c → IsDone c (set_error in_unit f c)
  unfolding set_error
  set_error-IsDone f c v = elim (Bool-cases (f.enabled && not (is_within 400 599 f.status))) [
    | inl e ↦ rw e refl
    | inr e ↦ rw e (elim (Bool-cases (f.enabled && not (in_unit f.ratio))) [
      | inl g ↦ rw g refl
      | inr g ↦ rw g (
        refl,
        record {
          latency_kind = v.latency_kind;
          error_kind = refl;
          cpu_kind = v.cpu_kind;
          times = v.times;
          failure = λ t. ground arith;
          burns = v.burns;
        },
      )
    ])
  ]

  -- Only the CPU fault and its goroutines change.
  pub cpu-IsValid :
      (f : CpuFault) (c c' : Controller R)
      → IsValid c
      → f.kind ≡ cpu
      → c'.faults ≡ record c.faults { cpu = f }
      → Burns f.enabled f.workers c'.cpu_cancel c'.burning
      → IsValid c'
  cpu-IsValid f c c' v k e b = record {
    latency_kind = rw e v.latency_kind;
    error_kind = rw e v.error_kind;
    cpu_kind = rw e k;
    times = rw e v.times;
    failure = rw e v.failure;
    burns = rw e b;
  }

  pub set_cpu-IsDone : (f : CpuFault) (c : Controller R) → IsValid c → IsDone c (set_cpu f c)
  unfolding set_cpu
  set_cpu-IsDone f c v =
      elim (Bool-cases (f.enabled && not (is_within 1 max_cpu_workers f.workers))) [
        | inl e ↦ rw e refl
        | inr e ↦
            rw (e, stop_cpu_lem c c.faults.cpu.enabled v.burns)
              (
                refl,
                cpu-IsValid (record f { kind = cpu }) c (restart f (stopped c)) v refl
                    (restart_faults f (stopped c)) (restart-Burns f (stopped c) refl refl e),
              )
      ]
