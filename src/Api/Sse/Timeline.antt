-- ===== src/Api/Sse/Timeline.antt =====
-- internal/api/sse.go: the timeline that a client is sent, from its resume point to the end.
use incident_diag.Base.{
  if-cases, ℕ, ◌≡◌, refl, sym, ap, ◌∙◌, Bool, true, false, List, [], ◌∷◌, ◌++◌, Option, none, some,
  append_nil,
}
use mathlib.Core.Path.{subst}
use incident_diag.Events.{Entry, StreamError, ReadFault, replay}
use incident_diag.Api.Sse.{
  Frame, Connection, Client, Round, Streamed, advance, send, turn, loop, stream, after_replay,
}
use incident_diag.Api.Sse.Told.{events_in, sent}
use incident_diag.Api.Sse.Order.{Ascends, entries_after}
use incident_diag.Api.Sse.Picks.{Picks, nothing}
use incident_diag.Api.Sse.Trimmed.{IsTimeline-trims, IsCaught-trims, Ascends-parts}
use incident_diag.Api.Sse.Caught.{IsTimeline, IsCaught, IsCaught-IsTimeline, IsTimeline-grows}
use incident_diag.Api.Sse.Turn.{is_calm, IsRead, replay-IsRead, turn-IsKept}

-- What happens to the stream before each turn: its oldest entries may be trimmed, none or some or all of
-- them, and entries are added. The ids rise over all that was ever added. Beside the stream stands all
-- that was trimmed before.
abbrev pub Moves : List Entry → List Entry → List Round → Type 0
Moves trimmed log [] = Unit
Moves trimmed log (r ∷ rs) =
    (lost kept chunk : List Entry) × (log ≡ lost ++ kept)
    × (r.log ≡ kept ++ chunk)
    × Ascends 0 (trimmed ++ (log ++ chunk))
    × Moves (trimmed ++ lost) r.log rs

-- The stream at the end, and all that was trimmed up to then.
abbrev pub final : List Entry → List Round → List Entry
final log [] = log
final log (r ∷ rs) = final r.log rs

abbrev pub dropped :
    (trimmed log : List Entry) (rs : List Round) → Moves trimmed log rs → List Entry
dropped trimmed log [] g = trimmed
dropped trimmed log (r ∷ rs) (lost, kept, chunk, e, e', rises, g) =
    dropped (trimmed ++ lost) r.log rs g

-- The last read that was made had no fault.
abbrev pub calm_last : Bool → List Round → Bool
calm_last calm [] = calm
calm_last calm (r ∷ rs) = calm_last (is_calm r.fault) rs

-- The timeline; it has all that the stream holds if the request goes on and its last read had no fault.
abbrev pub IsStreamed : Option ℕ → List Entry → List Entry → List Round → Bool → Streamed → Type 0
IsStreamed start trimmed log rs calm s =
    IsTimeline start trimmed (final log rs) s.client.frames
    × (s.ended ≡ none
        → calm_last calm rs ≡ true
        → (gone : List Entry) × (Picks gone (entries_after start trimmed)
            × (sent s.client.frames ≡ events_in (gone ++ entries_after start (final log rs)))))

module _ (start : Option ℕ) where
  module _ (connection : Connection) (xrange xread : Option ℕ → List Entry → List Entry)
      (heartbeat : ℕ)
      (xrange-after : (after : Option ℕ) (log : List Entry)
        → xrange after log ≡ entries_after after log)
      (xread-after : (after : Option ℕ) (log : List Entry)
        → xread after log ≡ entries_after after log) where
    final-IsTimeline :
        (trimmed log : List Entry) (rs : List Round) (fs : List Frame) (g : Moves trimmed log rs)
        → IsTimeline start trimmed log fs
        → IsTimeline start (dropped trimmed log rs g) (final log rs) fs
    final-IsTimeline trimmed log [] fs g t = t
    final-IsTimeline trimmed log (r ∷ rs) fs (lost, kept, chunk, e, e', rises, g) t =
        final-IsTimeline (trimmed ++ lost) r.log rs fs g (
          subst (λ l. IsTimeline start (trimmed ++ lost) l fs) (sym e')
            (IsTimeline-grows start (trimmed ++ lost) kept chunk fs (
              IsTimeline-trims start trimmed lost kept fs
                (subst (λ l. IsTimeline start trimmed l fs) e t))))

    caught_whole :
        (trimmed log : List Entry) (after : Option ℕ) (fs : List Frame)
        → IsCaught start true trimmed log after fs
        → (gone : List Entry) × (Picks gone (entries_after start trimmed)
            × (sent fs ≡ events_in (gone ++ entries_after start log)))
    caught_whole trimmed log after fs i = (
      i.gone,
      (
        i.picked,
        i.told
            ∙ ap (λ l. events_in (i.gone ++ l))
                (sym (i.split ∙ rw (i.all refl) (append_nil i.done))),
      ),
    )

    loop-IsStreamed :
        (rs : List Round) (full : Bool) (trimmed log : List Entry) (after : Option ℕ) (c : Client)
        (g : Moves trimmed log rs)
        → IsCaught start full trimmed log after c.frames
        → IsStreamed start
            (dropped trimmed log rs g)
            log
            rs
            full
            (loop connection xrange xread heartbeat rs after c)
    unfolding loop
    loop-IsStreamed [] full trimmed log after c g i = (
      IsCaught-IsTimeline start full trimmed log after c.frames i,
      (λ _ calm.
          caught_whole trimmed log after c.frames
            (subst (λ b. IsCaught start b trimmed log after c.frames) calm i)),
    )
    loop-IsStreamed (r ∷ rs) full trimmed log after c (lost, kept, chunk, e, e', rises, g) i =
        let (before, here) = Ascends-parts trimmed log lost kept chunk e rises in
        let cut : IsCaught start full (trimmed ++ lost) kept after c.frames =
          IsCaught-trims start full trimmed lost kept after c.frames before
            (subst (λ l. IsCaught start full trimmed l after c.frames) e i) in
        let told =
          turn-IsKept start (trimmed ++ lost) connection xrange xread heartbeat xrange-after
            xread-after r full kept chunk after c e'
            (subst (λ l. Ascends 0 ((trimmed ++ lost) ++ l)) (sym e') here) cut in
        let x = turn connection xrange xread heartbeat r after c in
        if-cases
          (λ (s : Streamed).
            IsStreamed start (dropped (trimmed ++ lost) r.log rs g) log (r ∷ rs) full s)
          x.1 _ _
          (λ again.
            loop-IsStreamed rs (is_calm r.fault) (trimmed ++ lost) r.log x.0.after x.0.client g
              (told.1 again))
          (λ over. (
            final-IsTimeline (trimmed ++ lost) r.log rs x.0.client.frames g told.0,
            (λ on. absurd (told.2 over on)),
          ))

    after_replay-IsStreamed :
        (rs : List Round) (log : List Entry) (after : Option ℕ) (c : Client) (last : Option ℕ)
        (e : Option StreamError) (state : Client) (full : Bool) (g : Moves [] log rs)
        → IsRead start [] connection xrange xread heartbeat xrange-after xread-after full log after
            c
            (record { last = last; error = e; state = state })
        → IsStreamed start (dropped [] log rs g) log rs full (
            after_replay connection xrange xread heartbeat rs after
              (record { last = last; error = e; state = state }))
    unfolding after_replay
    after_replay-IsStreamed rs log after c last (some e) state full g h =
        (final-IsTimeline [] log rs state.frames g h.0, (λ on. cc))
    after_replay-IsStreamed rs log after c last none state full g h =
        loop-IsStreamed rs full [] log (advance last after) state g (h.1 refl)

    -- However the reads, the writes and the context fail, and whatever is trimmed of the stream at its old
    -- end, a client is sent the well-formed entries behind its resume point in the order of the stream,
    -- each at most once: of those that have been trimmed some may be left out, and of those that the
    -- stream holds none is left out before the last one that is sent. It has been sent all that the
    -- stream holds behind the resume point while the request goes on and the last read had no fault.
    -- XRANGE and XREAD return the entries behind an id, and the ids rise over all that is ever added.
    pub stream-IsStreamed :
        (fault : Option ReadFault) (log : List Entry) (rs : List Round) (started : ℕ)
        → Ascends 0 log
        → (g : Moves [] log rs)
        → IsStreamed start
            (dropped [] log rs g)
            log
            rs
            (is_calm fault)
            (stream connection xrange xread heartbeat fault log rs start started)
    unfolding stream sent events_in
    stream-IsStreamed fault log rs started rises g =
        let c : Client = record { frames = []; last_write = started; wrote = false } in
        let d = replay (send connection) xrange xread fault start log c in
        let begins : IsCaught start false [] log start [] = record {
          gone = [];
          done = [];
          left = entries_after start log;
          picked = nothing;
          split = refl;
          told = refl;
          unread = refl;
          sees = λ n below. refl;
          all = λ h. cc;
        } in
        after_replay-IsStreamed rs log start c d.last d.error d.state (is_calm fault) g (
          replay-IsRead start [] connection xrange xread heartbeat xrange-after xread-after fault
            log start c rises begins)
