-- ===== src/Lab/Fault.antt =====
-- internal/lab/fault.go: the faults that are injected into a service, and the /fault endpoint. A negative
-- number is `none`. A ratio is a floating-point number, whose comparisons with 0, 1 and a drawn number
-- are parameters, and so is the decoding of a body. A goroutine that burns CPU is the context it runs
-- under. The delay of a request, with its jitter, is floating-point arithmetic and left out.
pub mod Valid
pub mod Burn
use incident_diag.Base.{
  ℕ, zero, suc, ◌+◌, Bool, true, false, not, ◌&&◌, ◌||◌, List, [], ◌∷◌, ◌++◌, Option, none, some,
  filter, is_empty, ltb, leb, ◌==◌, if◌then◌else◌, Bytes,
}

abbrev pub max_cpu_workers : ℕ
max_cpu_workers = 32

-- The value of a fault's kind.
pub data Kind : Type 0 where
  latency error cpu : Kind
  -- Any other text, which only a request can hold.
  other : Bytes → Kind

pub record LatencyFault : Type 0 where
  pub kind : Kind
  pub enabled : Bool
  pub delay_ms : Option ℕ
  pub jitter_ms : Option ℕ

pub record ErrorFault (R : Type 0) : Type 0 where
  pub kind : Kind
  pub enabled : Bool
  pub status : Option ℕ
  pub ratio : R

pub record CpuFault : Type 0 where
  pub kind : Kind
  pub enabled : Bool
  pub workers : Option ℕ

-- State.
pub record Faults (R : Type 0) : Type 0 where
  pub latency : LatencyFault
  pub failure : ErrorFault R
  pub cpu : CpuFault

-- The fields of the controller, with the goroutines that burn and the number of contexts made so far.
pub record Controller (R : Type 0) : Type 0 where
  pub faults : Faults R
  pub cpu_cancel : Option ℕ
  pub burning : List ℕ
  pub contexts : ℕ

-- Why a request is refused, with its status.
pub data Refusal : Type 0 where
  invalid_body negative_time status_out_of_range ratio_out_of_range workers_out_of_range : Refusal
  unknown_kind : Refusal

pub data Reply (R : Type 0) : Type 0 where
  state : Faults R → Reply R
  bad_request : Refusal → Reply R
  method_not_allowed : Reply R

-- The body of a POST: its kind, and the fault that it decodes to under this kind, where it does.
pub record Body (R : Type 0) : Type 0 where
  pub kind : Option Kind
  pub latency : Option LatencyFault
  pub failure : Option (ErrorFault R)
  pub cpu : Option CpuFault

pub data Request (R : Type 0) : Type 0 where
  get delete other : Request R
  post : Body R → Request R

-- What a call does to the controller; `blocked` is a wait for goroutines that were never told to end.
pub data Done (R : Type 0) : Type 0 where
  replied : Reply R → Controller R → Done R
  blocked : Done R

abbrev is_within : ℕ → ℕ → Option ℕ → Bool
is_within lo hi none = false
is_within lo hi (some n) = leb lo n && leb n hi

abbrev is_negative : Option ℕ → Bool
is_negative none = true
is_negative (some n) = false

abbrev goroutines : Option ℕ → ℕ
goroutines none = 0
goroutines (some n) = n

abbrev spawn : ℕ → ℕ → List ℕ
spawn zero c = []
spawn (suc n) c = c ∷ spawn n c

abbrev pub no_latency : LatencyFault
no_latency = record { kind = latency; enabled = false; delay_ms = some 0; jitter_ms = some 0 }

abbrev pub no_cpu : CpuFault
no_cpu = record { kind = cpu; enabled = false; workers = some 0 }

module _ {R : Type 0} where
  -- startCPULocked.
  unfoldable pub start_cpu : ℕ → Controller R → Controller R
  start_cpu n c = record c {
    cpu_cancel = some c.contexts;
    burning = c.burning ++ spawn n c.contexts;
    contexts = suc c.contexts;
  }

  -- stopCPULocked: the goroutines of the context end, and it waits for all of them.
  unfoldable pub stop_cpu : Controller R → Option (Controller R)
  stop_cpu c = elim c.cpu_cancel [
    | none ↦ some c
    | some k ↦
        let left = filter (λ g. not (g == k)) c.burning in
        if is_empty left then some (record c { cpu_cancel = none; burning = left }) else none
  ]

  abbrev refuse : Refusal → Controller R → Done R
  refuse r c = replied (bad_request r) c

  abbrev show : Controller R → Done R
  show c = replied (state c.faults) c

  -- SetLatency.
  unfoldable pub set_latency : LatencyFault → Controller R → Done R
  set_latency f c =
      if is_negative f.delay_ms || is_negative f.jitter_ms
      then refuse negative_time c
      else show (record c { faults = record c.faults { latency = record f { kind = latency } } })

  -- SetCPU behind the stop.
  abbrev restart : CpuFault → Controller R → Controller R
  restart f c =
      let c' = record c { faults = record c.faults { cpu = record f { kind = cpu } } } in
      if f.enabled then start_cpu (goroutines f.workers) c' else c'

  -- SetCPU.
  unfoldable pub set_cpu : CpuFault → Controller R → Done R
  set_cpu f c =
      if f.enabled && not (is_within 1 max_cpu_workers f.workers)
      then refuse workers_out_of_range c
      else elim (stop_cpu c) [ none ↦ blocked | some c' ↦ show (restart f c') ]

  -- Close.
  unfoldable pub close : Controller R → Done R
  close c = elim (stop_cpu c) [
    | none ↦ blocked
    | some c' ↦ show (record c' { faults = record c'.faults { cpu = no_cpu } })
  ]

  abbrev pub decoded : {A : Type 0} → (A → Controller R → Done R) → Option A → Controller R → Done R
  decoded f none c = refuse invalid_body c
  decoded f (some a) c = f a c

  module _ (is_positive below_one : R → Bool) where
    -- ErrorStatus, where `drawn` is whether the random number is below the ratio.
    unfoldable pub error_status : Bool → Controller R → Option (Option ℕ)
    error_status drawn c =
        let f = c.faults.failure in
        if not f.enabled || not (is_positive f.ratio)
        then none
        else if below_one f.ratio && not drawn
        then none
        else some f.status

  module _ (in_unit : R → Bool) where
    -- SetError.
    unfoldable pub set_error : ErrorFault R → Controller R → Done R
    set_error f c =
        if f.enabled && not (is_within 400 599 f.status)
        then refuse status_out_of_range c
        else if f.enabled && not (in_unit f.ratio)
        then refuse ratio_out_of_range c
        else show (record c { faults = record c.faults { failure = record f { kind = error } } })

    module _ (zero_ratio : R) where
      abbrev no_failure : ErrorFault R
      no_failure = record { kind = error; enabled = false; status = some 0; ratio = zero_ratio }

      abbrev pub no_faults : Faults R
      no_faults = record { latency = no_latency; failure = no_failure; cpu = no_cpu }

      unfoldable pub new_controller : Controller R
      new_controller = record { faults = no_faults; cpu_cancel = none; burning = []; contexts = 0 }

      -- Clear.
      unfoldable pub clear : Controller R → Done R
      clear c = elim (stop_cpu c) [
        | none ↦ blocked
        | some c' ↦ show (record c' { faults = no_faults })
      ]

      -- Controller.set.
      unfoldable pub set : Body R → Controller R → Done R
      set b c = elim b.kind [
        | none ↦ refuse invalid_body c
        | some k ↦ elim k [
          | latency ↦ decoded set_latency b.latency c
          | error ↦ decoded set_error b.failure c
          | cpu ↦ decoded set_cpu b.cpu c
          | other t ↦ refuse unknown_kind c
        ]
      ]

      -- Controller.Handler.
      unfoldable pub handle : Request R → Controller R → Done R
      handle get c = show c
      handle delete c = clear c
      handle (post b) c = set b c
      handle other c = replied method_not_allowed c

      -- The controller after requests and closings, the first one first; `none` is a call that never ends.
      abbrev pub call : Option (Request R) → Controller R → Done R
      call none c = close c
      call (some r) c = handle r c

      abbrev pub left : Done R → Option (Controller R)
      left (replied r c) = some c
      left blocked = none

      unfoldable pub replay : List (Option (Request R)) → Controller R → Option (Controller R)
      replay [] c = some c
      replay (r ∷ rs) c = elim (left (call r c)) [ none ↦ none | some c' ↦ replay rs c' ]
