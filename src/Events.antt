-- ===== src/Events.antt =====
-- internal/events/read.go: a run's stream as its readers see it. An entry id <ms>-<seq> is the number
-- of its place in the order of ids; "" for no id is `none`, and a missing field is the empty text.
-- The payload is the data field.
use incident_diag.Base.{
  ℕ, Bool, true, ◌||◌, List, [], ◌∷◌, Option, none, some, if◌then◌else◌, is_empty, Bytes, ltb,
}

-- redis.XMessage, with the two fields that are read.
pub record Entry : Type 0 where
  pub id : ℕ
  pub event : Bytes
  pub payload : Bytes

pub record ReadEvent : Type 0 where
  pub id : ℕ
  pub name : Bytes
  pub payload : Bytes

unfoldable pub read_event : Entry → Option ReadEvent
read_event m =
    if is_empty m.event || is_empty m.payload
    then none
    else some (record { id = m.id; name = m.event; payload = m.payload })

-- What ends a request: the run's last event, a frame that is not written, a failed read.
pub data StreamError : Type 0 where
  stream_done write_failed read_failed : StreamError

-- Why Redis returns an error: the block expired, the context ended, or anything else.
pub data ReadFault : Type 0 where
  block_expired context_ended broken : ReadFault

pub record Delivered (S : Type 0) : Type 0 where
  pub last : Option ℕ
  pub error : Option StreamError
  pub state : S

-- The ids behind an exclusive start.
abbrev pub is_after : Option ℕ → ℕ → Bool
is_after none id = true
is_after (some after) id = ltb after id

-- `if err := fn(ev); err != nil` behind an entry.
unfoldable pub delivered :
    {S : Type 0} → ℕ → Option StreamError × S → (S → Delivered S) → Delivered S
delivered id (some e, s) rest = record { last = some id; error = some e; state = s }
delivered id (none, s) rest = rest s

module _ {S : Type 0} (fn : ReadEvent → S → Option StreamError × S) where
  -- The loop of deliver, with the id of the last entry that it read.
  unfoldable pub deliver : List Entry → Option ℕ → S → Delivered S
  unfolding delivered
  deliver [] last s = record { last = last; error = none; state = s }
  deliver (m ∷ ms) last s = elim (read_event m) [
    | none ↦ deliver ms (some m.id) s
    | some ev ↦ delivered m.id (fn ev s) (λ s'. deliver ms (some m.id) s')
  ]

  abbrev nothing : Option StreamError → S → Delivered S
  nothing error s = record { last = none; error = error; state = s }

  -- Client.Replay and Client.Follow: what XRANGE and XREAD return from an id is a parameter, of the
  -- entries that the stream holds when it is read.
  module _ (xrange xread : Option ℕ → List Entry → List Entry) where
    unfoldable pub replay : Option ReadFault → Option ℕ → List Entry → S → Delivered S
    replay none after log s = deliver (xrange after log) none s
    replay (some context_ended) after log s = nothing none s
    replay (some block_expired) after log s = nothing (some read_failed) s
    replay (some broken) after log s = nothing (some read_failed) s

    unfoldable pub follow : Option ReadFault → Option ℕ → List Entry → S → Delivered S
    follow none after log s = deliver (xread after log) none s
    follow (some context_ended) after log s = nothing none s
    follow (some block_expired) after log s = nothing none s
    follow (some broken) after log s = nothing (some read_failed) s
