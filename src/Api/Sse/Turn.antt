-- ===== src/Api/Sse/Turn.antt =====
-- internal/api/sse.go: one turn of the loop that streams a run.
use incident_diag.Base.{
  if-cases, ℕ, ◌+◌, ◌≡◌, ◌≢◌, refl, sym, ap, ◌∙◌, Bool, true, false, List, [], ◌∷◌, ◌++◌, Option,
  none, some, append_nil, leb, length,
}
use mathlib.Core.Path.{subst}
use incident_diag.Events.{
  Entry, StreamError, ReadFault, block_expired, context_ended, broken, Delivered, deliver, replay,
  follow,
}
use incident_diag.Api.Sse.{
  ping, Connection, Client, Round, Ended, run_over, ping_failed, Streamed, advance, send, turn,
  write, idle, pinged, after_read, finished,
}
use incident_diag.Api.Sse.Told.{events_in, sent, sent-append, deliver-IsTold, deliver-last}
use incident_diag.Api.Sse.Order.{Ascends, Ascends-later, entries_after}
use incident_diag.Api.Sse.Caught.{
  IsTimeline, IsCaught, IsCaught-IsTimeline, IsCaught-grows, IsCaught-up, told-IsTimeline,
}

ping-sent :
    (connection : Connection) (c c' : Client)
    → write connection ping c ≡ some c'
    → sent c'.frames ≡ sent c.frames
unfolding write sent
ping-sent connection c c' =
    let n = length c.frames in
    if-cases (λ o. o ≡ some c' → sent c'.frames ≡ sent c.frames) (connection.is_broken n) none
      (some (record c { frames = c.frames ++ ping ∷ []; last_write = connection.at n })) (λ h e. cc)
      (λ h e.
        let same : record c { frames = c.frames ++ ping ∷ []; last_write = connection.at n } ≡ c' =
          cc in
        rw (← same) (sent-append c.frames (ping ∷ []) ∙ append_nil (sent c.frames)))

abbrev pub is_calm : Option ReadFault → Bool
is_calm none = true
is_calm (some f) = false

module _ (start : Option ℕ) (trimmed : List Entry) where
  module _ (connection : Connection) (xrange xread : Option ℕ → List Entry → List Entry)
      (heartbeat : ℕ)
      (xrange-after : (after : Option ℕ) (log : List Entry)
        → xrange after log ≡ entries_after after log)
      (xread-after : (after : Option ℕ) (log : List Entry)
        → xread after log ≡ entries_after after log) where
    -- What holds behind a turn, and what more holds if another one follows.
    abbrev pub IsKept : Bool → List Entry → Streamed × Bool → Type 0
    IsKept full log x =
        IsTimeline start trimmed log x.0.client.frames
        × (x.1 ≡ true → IsCaught start full trimmed log x.0.after x.0.client.frames)
        × (x.1 ≡ false → x.0.ended ≢ none)

    ended-IsKept :
        (full : Bool) (log : List Entry) (after : Option ℕ) (c : Client) (e : Ended)
        → IsCaught start full trimmed log after c.frames
        → IsKept full log (record { after = after; client = c; ended = some e }, false)
    ended-IsKept full log after c e i =
        (IsCaught-IsTimeline start full trimmed log after c.frames i, (λ h. cc), (λ h k. cc))

    open-IsKept :
        (full : Bool) (log : List Entry) (after : Option ℕ) (c : Client)
        → IsCaught start full trimmed log after c.frames
        → IsKept full log (record { after = after; client = c; ended = none }, true)
    open-IsKept full log after c i =
        (IsCaught-IsTimeline start full trimmed log after c.frames i, (λ h. i), (λ h. cc))

    pinged-IsKept :
        (full : Bool) (log : List Entry) (after : Option ℕ) (c : Client) (o : Option Client)
        → ((c' : Client) → o ≡ some c' → sent c'.frames ≡ sent c.frames)
        → IsCaught start full trimmed log after c.frames
        → IsKept full log (pinged connection xrange xread heartbeat o c after)
    unfolding pinged
    pinged-IsKept full log after c none same i = ended-IsKept full log after c ping_failed i
    pinged-IsKept full log after c (some c') same i = open-IsKept full log after c' (record {
      done = i.done;
      left = i.left;
      split = i.split;
      gone = i.gone;
      picked = i.picked;
      told = same c' refl ∙ i.told;
      unread = i.unread;
      sees = i.sees;
      all = i.all;
    })

    idle-IsKept :
        (r : Round) (full : Bool) (log : List Entry) (after : Option ℕ) (c : Client)
        → IsCaught start full trimmed log after c.frames
        → IsKept full log (idle connection xrange xread heartbeat r after c)
    unfolding idle
    idle-IsKept r full log after c i =
        if-cases (IsKept full log) (finished r.run) _ _
          (λ h. ended-IsKept full log after c run_over i)
          (λ h.
            if-cases (IsKept full log) (leb (c.last_write + heartbeat) r.now) _ _
              (λ k.
                pinged-IsKept full log after c (write connection ping c) (ping-sent connection c) i)
              (λ k. open-IsKept full log after c i))

    -- A read of the stream, whichever way it ends.
    abbrev pub IsRead : Bool → List Entry → Option ℕ → Client → Delivered Client → Type 0
    IsRead full log after c d =
        IsTimeline start trimmed log d.state.frames
        × (d.error ≡ none → IsCaught start full trimmed log (advance d.last after) d.state.frames)

    nothing-IsRead :
        (log : List Entry) (after : Option ℕ) (c : Client) (e : Option StreamError)
        → IsCaught start false trimmed log after c.frames
        → IsRead false log after c (record { last = none; error = e; state = c })
    unfolding advance
    nothing-IsRead log after c e i =
        (IsCaught-IsTimeline start false trimmed log after c.frames i, (λ h. i))

    deliver-IsRead :
        (log : List Entry) (after : Option ℕ) (c : Client)
        → Ascends 0 log
        → IsCaught start false trimmed log after c.frames
        → IsRead true log after c (deliver (send connection) (entries_after after log) none c)
    deliver-IsRead log after c rises i =
        let ms = entries_after after log in
        let d = deliver (send connection) ms none c in
        let (read, rest, split, told, all) = deliver-IsTold connection ms none c in
        (
          told-IsTimeline start false trimmed log after c.frames i rises d.state.frames read rest
              split told,
          (λ h.
              IsCaught-up start false trimmed log after c.frames i rises d.last d.state.frames
                (deliver-last connection ms none c h)
                (told
                  ∙ ap (λ l. sent c.frames ++ events_in l)
                      (sym (split ∙ rw (all h) (append_nil read))))),
        )

    follow-IsRead :
        (fault : Option ReadFault) (log : List Entry) (after : Option ℕ) (c : Client)
        → Ascends 0 log
        → IsCaught start false trimmed log after c.frames
        → IsRead
            (is_calm fault)
            log
            after
            c
            (follow (send connection) xrange xread fault after log c)
    unfolding follow
    follow-IsRead none log after c rises i =
        rw (xread-after after log) (deliver-IsRead log after c rises i)
    follow-IsRead (some context_ended) log after c rises i = nothing-IsRead log after c none i
    follow-IsRead (some block_expired) log after c rises i = nothing-IsRead log after c none i
    follow-IsRead (some broken) log after c rises i = nothing-IsRead log after c _ i

    pub replay-IsRead :
        (fault : Option ReadFault) (log : List Entry) (after : Option ℕ) (c : Client)
        → Ascends 0 log
        → IsCaught start false trimmed log after c.frames
        → IsRead
            (is_calm fault)
            log
            after
            c
            (replay (send connection) xrange xread fault after log c)
    unfolding replay
    replay-IsRead none log after c rises i =
        rw (xrange-after after log) (deliver-IsRead log after c rises i)
    replay-IsRead (some context_ended) log after c rises i = nothing-IsRead log after c none i
    replay-IsRead (some block_expired) log after c rises i = nothing-IsRead log after c _ i
    replay-IsRead (some broken) log after c rises i = nothing-IsRead log after c _ i

    fields-IsKept :
        (r : Round) (log : List Entry) (after : Option ℕ) (c : Client) (last : Option ℕ)
        (e : Option StreamError) (state : Client) (full : Bool)
        → IsRead full log after c (record { last = last; error = e; state = state })
        → IsKept full log (
            after_read connection xrange xread heartbeat r after
              (record { last = last; error = e; state = state }))
    unfolding after_read
    fields-IsKept r log after c last (some e) state full h = (h.0, (λ k. cc), (λ k j. cc))
    fields-IsKept r log after c last none state full h =
        if-cases (IsKept full log) state.wrote _ _ (λ k. (h.0, (λ again. h.1 refl), (λ j. cc)))
          (λ k. idle-IsKept r full log (advance last after) state (h.1 refl))

    after_read-IsKept :
        (r : Round) (log : List Entry) (after : Option ℕ) (c : Client) (d : Delivered Client)
        (full : Bool)
        → IsRead full log after c d
        → IsKept full log (after_read connection xrange xread heartbeat r after d)
    after_read-IsKept r log after c d full h =
        fields-IsKept r log after c d.last d.error d.state full h

    pub turn-IsKept :
        (r : Round) (full : Bool) (log chunk : List Entry) (after : Option ℕ) (c : Client)
        → r.log ≡ log ++ chunk
        → Ascends 0 (trimmed ++ r.log)
        → IsCaught start full trimmed log after c.frames
        → IsKept (is_calm r.fault) r.log (turn connection xrange xread heartbeat r after c)
    unfolding turn
    turn-IsKept r full log chunk after c grown rises i =
        let here : IsCaught start false trimmed r.log after c.frames =
          subst (λ l. IsCaught start false trimmed l after c.frames) (sym grown)
            (IsCaught-grows start full trimmed log chunk after c.frames
              (subst (λ l. Ascends 0 (trimmed ++ l)) grown rises) i) in
        let ready : Client = record c { wrote = false } in
        if-cases (IsKept (is_calm r.fault) r.log) r.context_ended _ _
          (λ h. (
            IsCaught-IsTimeline start false trimmed r.log after c.frames here,
            (λ k. cc),
            (λ k j. cc),
          ))
          (λ h.
            after_read-IsKept r r.log after ready _ (is_calm r.fault)
              (follow-IsRead r.fault r.log after ready (Ascends-later 0 trimmed r.log rises) here))
