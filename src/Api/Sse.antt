-- ===== src/Api/Sse.antt =====
-- internal/api/sse.go: the timeline of a run as Server-Sent Events.
pub mod Told
pub mod Order
pub mod Picks
pub mod Caught
pub mod Trimmed
pub mod Turn
pub mod Timeline
use incident_diag.Base.{
  ℕ, zero, suc, ◌+◌, ◌*◌, ◌-◌, ◌≤◌, Bool, true, false, List, [], ◌∷◌, ◌++◌, Option, none, some, leb,
  if◌then◌else◌, Bytes, bytes_eq, length,
}
use incident_diag.Store.Errors.{Result, ok, err, Kind, not_found}
use incident_diag.Store.Rows.{Run, RunStatus}
use incident_diag.Events.{
  Entry, ReadEvent, StreamError, stream_done, write_failed, ReadFault, Delivered, replay, follow,
}

-- events.RunFinished, "run.finished".
abbrev pub run_finished : Bytes
run_finished = 114 ∷ 117 ∷ 110 ∷ 46 ∷ 102 ∷ 105 ∷ 110 ∷ 105 ∷ 115 ∷ 104 ∷ 101 ∷ 100 ∷ []

pub data Frame : Type 0 where
  event : ReadEvent → Frame
  ping : Frame

-- The connection: which write fails, and when each is made, by the number of frames before it.
pub record Connection : Type 0 where
  pub is_broken : ℕ → Bool
  pub at : ℕ → ℕ

-- What has been written, when last, and whether the reader wrote since the loop last reset `wrote`.
pub record Client : Type 0 where
  pub frames : List Frame
  pub last_write : ℕ
  pub wrote : Bool

-- One turn of the loop: whether the context has ended, what the stream holds, whether the read fails,
-- what GetRun answers, and the time of the heartbeat's test.
pub record Round : Type 0 where
  pub context_ended : Bool
  pub log : List Entry
  pub fault : Option ReadFault
  pub run : Result Run
  pub now : ℕ

pub data Ended : Type 0 where
  by_error : StreamError → Ended
  run_over context_over ping_failed : Ended

-- `ended` is `none` while the handler is still in its loop.
pub record Streamed : Type 0 where
  pub after : Option ℕ
  pub client : Client
  pub ended : Option Ended

abbrev pub terminal : RunStatus → Bool
terminal RunStatus.succeeded = true
terminal RunStatus.failed = true
terminal RunStatus.pending = false
terminal RunStatus.running = false

-- Server.finished: a failed read means "not yet".
unfoldable pub finished : Result Run → Bool
finished (ok r) = terminal r.status
finished (err k) = false

-- Server.streamRunEvents in front of the stream: an id that is none and a run that is not there are
-- refused, and so is a run that has ended, with 410.
pub data Opening : Type 0 where
  refuses : Kind → Opening
  gone streams : Opening

opened : Result Run → Opening
opened (err k) = refuses k
opened (ok r) = if terminal r.status then gone else streams

unfoldable pub open_stream : Bool → Result Run → Opening
unfolding opened
open_stream valid run = if valid then opened run else refuses not_found

-- `if last != "" { after = last }`.
unfoldable pub advance : Option ℕ → Option ℕ → Option ℕ
advance (some last) after = some last
advance none after = after

module _ (connection : Connection) where
  write : Frame → Client → Option Client
  write f c =
      let n = length c.frames in
      if connection.is_broken n
      then none
      else some (record c { frames = c.frames ++ f ∷ []; last_write = connection.at n })

  -- The callback `send`.
  unfoldable pub send : ReadEvent → Client → Option StreamError × Client
  unfolding write
  send ev c = elim (write (event ev) c) [
    | none ↦ (some write_failed, c)
    | some c' ↦ (
      if bytes_eq ev.name run_finished then some stream_done else none,
      record c' { wrote = true },
    )
  ]

  module _ (xrange xread : Option ℕ → List Entry → List Entry) (heartbeat : ℕ) where
    pinged : Option Client → Client → Option ℕ → Streamed × Bool
    pinged none c after = (record { after = after; client = c; ended = some ping_failed }, false)
    pinged (some c') c after = (record { after = after; client = c'; ended = none }, true)

    -- The end of an idle turn, and whether another one follows.
    idle : Round → Option ℕ → Client → Streamed × Bool
    unfolding pinged write
    idle r after c =
        if finished r.run
        then (record { after = after; client = c; ended = some run_over }, false)
        else if leb (c.last_write + heartbeat) r.now
        then pinged (write ping c) c after
        else (record { after = after; client = c; ended = none }, true)

    after_read : Round → Option ℕ → Delivered Client → Streamed × Bool
    unfolding idle
    after_read r after d =
        let after' = advance d.last after in
        elim d.error [
          | some e ↦ (record { after = after'; client = d.state; ended = some (by_error e) }, false)
          | none ↦
              if d.state.wrote
              then (record { after = after'; client = d.state; ended = none }, true)
              else idle r after' d.state
        ]

    unfoldable pub turn : Round → Option ℕ → Client → Streamed × Bool
    unfolding after_read
    turn r after c =
        if r.context_ended
        then (record { after = after; client = c; ended = some context_over }, false)
        else after_read r after
            (follow send xrange xread r.fault after r.log (record c { wrote = false }))

    -- The loop over the turns that are looked at.
    unfoldable pub loop : List Round → Option ℕ → Client → Streamed
    loop [] after c = record { after = after; client = c; ended = none }
    loop (r ∷ rs) after c =
        let (s, again) = turn r after c in if again then loop rs s.after s.client else s

    after_replay : List Round → Option ℕ → Delivered Client → Streamed
    after_replay rs after d = elim d.error [
      | some e ↦ record {
        after = advance d.last after;
        client = d.state;
        ended = some (by_error e);
      }
      | none ↦ loop rs (advance d.last after) d.state
    ]

    -- Server.stream behind its headers, from the client's resume point.
    unfoldable pub stream : Option ReadFault → List Entry → List Round → Option ℕ → ℕ → Streamed
    unfolding after_replay
    stream fault log rs after started = after_replay rs after (
        replay send xrange xread fault after log
          (record { frames = []; last_write = started; wrote = false }))
