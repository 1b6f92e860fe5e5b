-- ===== src/Tests/Streams.antt =====
-- internal/api/sse.go on the stream of one run.
use incident_diag.Base.{
  ℕ, ◌≡◌, refl, true, false, List, [], ◌∷◌, Option, none, some, filter, arith, bytes_eq,
}
use incident_diag.Store.Errors.{ok}
use incident_diag.Events.{
  Entry, ReadFault, block_expired, is_after, deliver, replay, follow, read_event,
}
use incident_diag.Api.Sse.{
  run_finished, event, ping, Connection, Round, stream, send, loop, turn, advance, finished,
}
use incident_diag.Api.Sse.Order.{Ascends}
use incident_diag.Api.Sse.Timeline.{Moves, IsStreamed, stream-IsStreamed}
use incident_diag.Tests.Runs.{one_run}

abbrev entry : ℕ → Entry
entry id = record { id = id; event = 115 ∷ []; payload = 123 ∷ 125 ∷ [] }

-- It was added by hand, without its payload.
abbrev malformed : Entry
malformed = record (entry 3) { payload = [] }

abbrev last_entry : Entry
last_entry = record (entry 6) { event = run_finished }

abbrev begun : List Entry
begun = entry 1 ∷ entry 2 ∷ malformed ∷ []

abbrev ended : List Entry
ended = entry 2 ∷ malformed ∷ entry 5 ∷ last_entry ∷ []

abbrev round : List Entry → Option ReadFault → Round
round log fault = record {
  context_ended = false;
  log = log;
  fault = fault;
  run = ok one_run;
  now = 40;
}

-- Nothing is added in the first turn; in the second one the oldest entry is trimmed and the run ends.
abbrev rounds : List Round
rounds = round begun (some block_expired) ∷ round ended none ∷ []

abbrev works : Connection
works = record { is_broken = λ n. false; at = λ n. 10 }

-- Redis returns the entries behind an id.
abbrev range : Option ℕ → List Entry → List Entry
range after log = filter (λ m. is_after after m.id) log

begun-Ascends : Ascends 0 begun
begun-Ascends = ground arith

ended-Ascends : Ascends 0 (entry 1 ∷ ended)
ended-Ascends = ground arith

abbrev moves : Moves [] begun rounds
moves = (
  [],
  begun,
  [],
  refl,
  refl,
  begun-Ascends,
  (
    entry 1 ∷ [],
    entry 2 ∷ malformed ∷ [],
    entry 5 ∷ last_entry ∷ [],
    refl,
    refl,
    ended-Ascends,
    tt,
  ),
)

stream-IsStreamed_example :
    IsStreamed
      (some 1)
      (entry 1 ∷ [])
      begun
      rounds
      true
      (stream works range range 30 none begun rounds (some 1) 0)
stream-IsStreamed_example =
    stream-IsStreamed (some 1) works range range 30 (λ after log. refl) (λ after log. refl) none
      begun rounds 0 begun-Ascends moves

frames_sent :
    (stream works range range 30 none begun rounds (some 1) 0).client.frames
    ≡ event (record { id = 2; name = 115 ∷ []; payload = 123 ∷ 125 ∷ [] })
      ∷ ping
      ∷ event (record { id = 5; name = 115 ∷ []; payload = 123 ∷ 125 ∷ [] })
      ∷ event (record { id = 6; name = run_finished; payload = 123 ∷ 125 ∷ [] })
      ∷ []
unfolding stream send loop turn advance finished deliver replay follow read_event bytes_eq
frames_sent = refl
