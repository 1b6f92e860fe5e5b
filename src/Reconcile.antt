-- ===== src/Reconcile.antt =====
-- internal/reconcile/policy.go and runner.go: which rows nothing will send a message for again, and
-- the sweep that sends one for each. Durations and times are counts of microseconds; the difference
-- `at - d` of the source is moved to the other side of its comparison, where it cannot be negative.
pub mod Due
pub mod Sweep
use incident_diag.Base.{
  ℕ, ◌+◌, ◌-◌, ◌*◌, Bool, true, false, not, ◌&&◌, List, [], ◌∷◌, Option, none, some, ltb, leb, ◌==◌,
  if◌then◌else◌, length, get_elem?,
}
use incident_diag.Store.Rows.{RunStatus, DocumentStatus}
use incident_diag.Store.Runs.{is_before}
use incident_diag.Store.Candidates.{
  Category, never_enqueued, abandoned, retryable, Candidate, ReconcilePolicy,
}

abbrev pub minute : ℕ
minute = 60_000_000

abbrev pub backoff_schedule : List ℕ
backoff_schedule = 1 * minute ∷ 5 * minute ∷ []

-- An index past the end would panic; `backoff` reads no such place.
abbrev pub at_index : ℕ → List ℕ → ℕ
at_index i xs = elim (get_elem? xs i) [ none ↦ 0 | some d ↦ d ]

unfoldable pub backoff : ℕ → ℕ
backoff attempts =
    if ltb attempts 1
    then at_index 0 backoff_schedule
    else if ltb (length backoff_schedule) attempts
    then at_index (length backoff_schedule - 1) backoff_schedule
    else at_index (attempts - 1) backoff_schedule

-- The loop of MinBackoff over `backoffSchedule[1:]`.
unfoldable pub min_from : ℕ → List ℕ → ℕ
min_from min [] = min
min_from min (d ∷ ds) = min_from (if ltb d min then d else min) ds

unfoldable pub min_backoff : ℕ
unfolding min_from
min_backoff = min_from (1 * minute) (5 * minute ∷ [])

pub record Policy : Type 0 where
  pub interval : ℕ
  pub pending_after : ℕ
  pub lease : ℕ
  pub max_attempts : ℕ
  pub batch : ℕ

-- RunPolicy: the shared policy with the run-side lease and attempt limit.
unfoldable pub run_policy : Policy → ℕ → ℕ → Policy
run_policy p lease max_attempts = record p { lease = lease; max_attempts = max_attempts }

unfoldable pub store_policy : Policy → ReconcilePolicy
store_policy p = record {
  pending_after = p.pending_after;
  lease = p.lease;
  max_attempts = p.max_attempts;
  min_backoff = min_backoff;
}

-- The empty category of a row that is not the sweep's business is `none`.
due_document_by : DocumentStatus → Policy → Candidate DocumentStatus → ℕ → Option Category × Bool
due_document_by DocumentStatus.pending p c at =
    (some never_enqueued, ltb (c.updated_at + p.pending_after) at)
due_document_by DocumentStatus.processing p c at =
    (some abandoned, is_before c.processing_started_at p.lease at)
due_document_by DocumentStatus.failed p c at =
    if leb p.max_attempts c.attempts
    then (some retryable, false)
    else (some retryable, ltb (c.updated_at + backoff c.attempts) at)
due_document_by DocumentStatus.ready p c at = (none, false)

unfoldable pub due_document : Policy → Candidate DocumentStatus → ℕ → Option Category × Bool
unfolding due_document_by
due_document p c at = due_document_by c.status p c at

-- A NULL stamp is tested before the attempt limit; both refuse.
started_run : Policy → Candidate RunStatus → ℕ → Option ℕ → Option Category × Bool
started_run p c at none = (some abandoned, false)
started_run p c at (some started) =
    if leb p.max_attempts c.attempts
    then (some abandoned, false)
    else (some abandoned, ltb (started + p.lease) at)

due_run_by : RunStatus → Policy → Candidate RunStatus → ℕ → Option Category × Bool
unfolding started_run
due_run_by RunStatus.pending p c at = (some never_enqueued, ltb (c.updated_at + p.pending_after) at)
due_run_by RunStatus.running p c at = started_run p c at c.processing_started_at
due_run_by RunStatus.succeeded p c at = (none, false)
due_run_by RunStatus.failed p c at = (none, false)

unfoldable pub due_run : Policy → Candidate RunStatus → ℕ → Option Category × Bool
unfolding due_run_by
due_run p c at = due_run_by c.status p c at

-- What one sweep did: the rows that the query returned, the messages by category (`Enqueued` is a map
-- with these keys, the empty category last) and the failures.
pub record Stats : Type 0 where
  pub candidates : ℕ
  pub never_enqueued : ℕ
  pub abandoned : ℕ
  pub retryable : ℕ
  pub unlabelled : ℕ
  pub failed : ℕ

-- Stats.Total.
unfoldable pub total : Stats → ℕ
total s = s.never_enqueued + s.abandoned + s.retryable + s.unlabelled

-- The zero value, but for the number of candidates.
abbrev pub no_stats : ℕ → Stats
no_stats n = record {
  candidates = n;
  never_enqueued = 0;
  abandoned = 0;
  retryable = 0;
  unlabelled = 0;
  failed = 0;
}

-- `stats.Enqueued[category]++`.
count_enqueued : Option Category → Stats → Stats
count_enqueued none s = record s { unlabelled = s.unlabelled + 1 }
count_enqueued (some Category.never_enqueued) s = record s { never_enqueued = s.never_enqueued + 1 }
count_enqueued (some Category.abandoned) s = record s { abandoned = s.abandoned + 1 }
count_enqueued (some Category.retryable) s = record s { retryable = s.retryable + 1 }

-- The Kafka producer is the parameter: whether the message of a row was produced, and what it leaves
-- of the world.
module _ {W : Type 0} (produce : ℕ → W → Bool × W) {S : Type 0}
    (due : Candidate S → Option Category × Bool) where
  enqueue : Candidate S → Option Category → Stats → W → Stats × W
  unfolding count_enqueued
  enqueue c category s w =
      let (sent, w') = produce c.id w in
      (if sent then count_enqueued category s else record s { failed = s.failed + 1 }, w')

  visit : Candidate S → Stats → W → Stats × W
  unfolding enqueue
  visit c s w = let (category, is_due) = due c in if is_due then enqueue c category s w else (s, w)

  -- The loop of Sweep over its candidates.
  unfoldable pub visit_all : List (Candidate S) → Stats → W → Stats × W
  unfolding visit
  visit_all [] s w = (s, w)
  visit_all (c ∷ cs) s w = let (s', w') = visit c s w in visit_all cs s' w'

  -- Sweep, for the rows that the query returned.
  unfoldable pub sweep : List (Candidate S) → W → Stats × W
  unfolding visit_all
  sweep cs w = visit_all cs (no_stats (length cs)) w
