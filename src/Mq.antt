-- ===== src/Mq.antt =====
-- internal/mq: the messages of both topics, and the consumer that hands them to a handler. The JSON
-- encoder and decoder and the test for a ULID are parameters. A negative schema version is read as 0,
-- which is no version either.
pub mod Order
use incident_diag.Base.{
  ℕ, Bool, true, false, ◌||◌, List, [], ◌∷◌, ◌++◌, Option, none, some, ◌==◌, if◌then◌else◌, Bytes,
}

-- SchemaVersion.
abbrev pub this_version : ℕ
this_version = 1

-- Envelope, flattened into the message as it is on the wire, and the id of the row it is about: the
-- document_id of a DocumentMessage or the run_id of a RunMessage.
pub record Message : Type 0 where
  pub schema_version : ℕ
  pub message_id : Bytes
  pub produced_at : ℕ
  pub entity_id : Bytes

-- newEnvelope stamps the new id and the clock's reading.
unfoldable pub new_message : Bytes → ℕ → Bytes → Message
new_message id now entity_id = record {
  schema_version = this_version;
  message_id = id;
  produced_at = now;
  entity_id = entity_id;
}

-- The results of Decode: with an unknown version, the value is returned beside the error.
pub data Decoded : Type 0 where
  decoded : Message → Decoded
  unknown_version : Message → Decoded
  invalid : Decoded

module _ (unmarshal : Bytes → Option Message) (is_valid : Bytes → Bool) where
  checked : Option Message → Decoded
  checked none = invalid
  checked (some msg) =
      if is_valid msg.entity_id
      then if msg.schema_version == this_version then decoded msg else unknown_version msg
      else invalid

  unfoldable pub decode : Bytes → Decoded
  unfolding checked
  decode text = checked (unmarshal text)

-- What a run of the consumer does, as far as Kafka and the handler see it.
pub data Event (R : Type 0) : Type 0 where
  handles : R → Event R
  commits : R → Event R
  commit_fails : R → Event R
  allows_rebalance : Event R

-- What PollFetches returns: whether the client is closed, and the records in poll order.
pub record Fetches (R : Type 0) : Type 0 where
  pub is_closed : Bool
  pub records : List R

-- The handler and the commit are arbitrary calls, which read and change a world; their errors are
-- logged and no more, and the commit says whether it succeeded. A context may end at any of them.
module _ {R World : Type 0} (handler : R → World → World) (commit : R → World → Bool × World)
    (is_over : World → Bool) where
  -- Consumer.handle.
  unfoldable pub handle : R → World → List (Event R) × World
  handle r w =
      let (committed, w') = commit r (handler r w) in
      (handles r ∷ (if committed then commits r else commit_fails r) ∷ [], w')

  -- EachRecord over the fetched records: those behind the end of the context are left.
  unfoldable pub visit : R → World → List (Event R) × World
  unfolding handle
  visit r w = if is_over w then ([], w) else handle r w

  unfoldable pub each_record : List R → World → List (Event R) × World
  unfolding visit
  each_record [] w = ([], w)
  each_record (r ∷ rs) w =
      let (here, w') = visit r w in let (later, w'') = each_record rs w' in (here ++ later, w'')

  -- Consumer.Run over the polls that are looked at, and whether it returned. A poll takes time, in
  -- which the context may end.
  module _ (poll : World → World) where
    unfoldable pub run : List (Fetches R) → World → List (Event R) × Bool
    run [] w = ([], false)
    run (f ∷ fs) w =
        let w' = poll w in
        if f.is_closed || is_over w'
        then (allows_rebalance ∷ [], true)
        else (let (here, w'') = each_record f.records w' in
            let (later, returned) = run fs w'' in (here ++ allows_rebalance ∷ later, returned))
