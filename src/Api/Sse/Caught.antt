-- ===== src/Api/Sse/Caught.antt =====
-- internal/api/sse.go: how far a client has come in a stream.
use incident_diag.Base.{
  ℕ, ◌<◌, ◌≡◌, refl, sym, ap, ◌∙◌, Bool, true, false, List, [], ◌∷◌, ◌++◌, Option, none, some, All,
  append_nil, append_assoc, filter-append, All-filter, All-map, All-later, All-earlier, filter-All,
  filter-passes,
}
use mathlib.Core.Path.{subst}
use incident_diag.Events.{Entry, is_after}
use incident_diag.Api.Sse.{Frame, advance}
use incident_diag.Api.Sse.Told.{events_in, sent, events_in-append, last_of}
use incident_diag.Api.Sse.Picks.{Picks}
use incident_diag.Api.Sse.Order.{
  Ascends, IsBelow, entries_after, last_of_missed, last_of_sees, append-Ascends,
}

advance-last_of :
    (after : Option ℕ) (last : ℕ) (ms : List Entry)
    → advance (last_of (some last) ms) after ≡ last_of (some last) ms
unfolding advance
advance-last_of after last [] = refl
advance-last_of after last (m ∷ ms) = advance-last_of after m.id ms

advance_lem :
    (after : Option ℕ) (ms : List Entry) → advance (last_of none ms) after ≡ last_of after ms
unfolding advance
advance_lem after [] = refl
advance_lem after (m ∷ ms) = advance-last_of after m.id ms

module _ (start : Option ℕ) where
  -- What a client was sent: the events of entries that have been trimmed since, and of the first
  -- entries after its resume point that the stream still holds. What was trimmed is a list of its own.
  pub record IsTimeline (trimmed log : List Entry) (frames : List Frame) : Type 0 where
    pub gone : List Entry
    pub done : List Entry
    pub left : List Entry
    pub picked : Picks gone (entries_after start trimmed)
    pub split : entries_after start log ≡ done ++ left
    pub told : sent frames ≡ events_in (gone ++ done)

  -- A client at the cursor `after`: the entries after it are those of the stream that it was not sent,
  -- and none if the stream was read in full.
  pub record IsCaught (full : Bool) (trimmed log : List Entry) (after : Option ℕ)
      (frames : List Frame) : Type 0 where
    pub gone : List Entry
    pub done : List Entry
    pub left : List Entry
    pub picked : Picks gone (entries_after start trimmed)
    pub split : entries_after start log ≡ done ++ left
    pub told : sent frames ≡ events_in (gone ++ done)
    pub unread : entries_after after log ≡ left
    pub sees : (n : ℕ) → IsBelow n (trimmed ++ log) → is_after after n ≡ is_after start n
    pub all : full ≡ true → left ≡ []

  pub IsCaught-IsTimeline :
      (full : Bool) (trimmed log : List Entry) (after : Option ℕ) (fs : List Frame)
      → IsCaught full trimmed log after fs
      → IsTimeline trimmed log fs
  IsCaught-IsTimeline full trimmed log after fs i = record {
    gone = i.gone;
    done = i.done;
    left = i.left;
    picked = i.picked;
    split = i.split;
    told = i.told;
  }

  pub IsTimeline-grows :
      (trimmed log chunk : List Entry) (fs : List Frame)
      → IsTimeline trimmed log fs
      → IsTimeline trimmed (log ++ chunk) fs
  IsTimeline-grows trimmed log chunk fs t = record {
    gone = t.gone;
    done = t.done;
    left = t.left ++ entries_after start chunk;
    picked = t.picked;
    split =
        rw (filter-append (λ m. is_after start m.id) log chunk, t.split)
          (append_assoc t.done t.left (entries_after start chunk));
    told = t.told;
  }

  pub IsCaught-grows :
      (full : Bool) (trimmed log chunk : List Entry) (after : Option ℕ) (fs : List Frame)
      → Ascends 0 (trimmed ++ (log ++ chunk))
      → IsCaught full trimmed log after fs
      → IsCaught false trimmed (log ++ chunk) after fs
  IsCaught-grows full trimmed log chunk after fs rises i =
      let before : trimmed ++ (log ++ chunk) ≡ (trimmed ++ log) ++ chunk =
        sym (append_assoc trimmed log chunk) in
      record {
        gone = i.gone;
        done = i.done;
        left = i.left ++ entries_after start chunk;
        picked = i.picked;
        split =
            rw (filter-append (λ m. is_after start m.id) log chunk, i.split)
              (append_assoc i.done i.left (entries_after start chunk));
        told = i.told;
        unread =
            rw
              (
                filter-append (λ m. is_after after m.id) log chunk,
                i.unread,
                filter-All (λ m. is_after after m.id) (λ m. is_after start m.id) chunk
                    (All-map _ _ chunk (λ c below. i.sees c.id below)
                      (append-Ascends 0 (trimmed ++ log) chunk (subst (Ascends 0) before rises))),
              )
              refl;
        sees = λ n below. i.sees n (
            All-earlier (λ (m : Entry). m.id < n) (trimmed ++ log) chunk
              (subst (IsBelow n) before below));
        all = λ h. cc;
      }

  module _ (full : Bool) (trimmed log : List Entry) (after : Option ℕ) (fs : List Frame)
      (i : IsCaught full trimmed log after fs) (rises : Ascends 0 log) where
    left_after : All (λ m. is_after start m.id ≡ true) i.left
    left_after =
        All-later (λ m. is_after start m.id ≡ true) i.done i.left
          (subst (All (λ m. is_after start m.id ≡ true)) i.split
            (filter-passes (λ m. is_after start m.id) log))

    -- All that is unread is sent.
    pub IsCaught-up :
        (last : Option ℕ) (fs' : List Frame)
        → last ≡ last_of none (entries_after after log)
        → sent fs' ≡ sent fs ++ events_in (entries_after after log)
        → IsCaught true trimmed log (advance last after) fs'
    IsCaught-up last fs' e told =
        let cursor : advance last after ≡ last_of after i.left =
          ap (λ l. advance l after) e
          ∙ advance_lem after (entries_after after log)
          ∙ ap (last_of after) i.unread in
        record {
          gone = i.gone;
          done = i.done ++ i.left;
          left = [];
          picked = i.picked;
          split = i.split ∙ sym (append_nil (i.done ++ i.left));
          told =
              told
              ∙ rw (i.told, i.unread) (sym (events_in-append (i.gone ++ i.done) i.left))
              ∙ ap events_in (append_assoc i.gone i.done i.left);
          unread = rw (cursor, ← i.unread) (last_of_missed after 0 log rises);
          sees = λ n below. rw cursor (
              last_of_sees start after n i.left (i.sees n below)
                (subst (IsBelow n) i.unread (
                  All-filter (λ (m : Entry). m.id < n) (λ m. is_after after m.id) log
                    (All-later (λ (m : Entry). m.id < n) trimmed log below)))
                left_after);
          all = λ h. refl;
        }

    pub told-IsTimeline :
        (fs' : List Frame) (read rest : List Entry)
        → entries_after after log ≡ read ++ rest
        → sent fs' ≡ sent fs ++ events_in read
        → IsTimeline trimmed log fs'
    told-IsTimeline fs' read rest split told = record {
      gone = i.gone;
      done = i.done ++ read;
      left = rest;
      picked = i.picked;
      split =
          i.split
          ∙ ap (λ l. i.done ++ l) (sym i.unread ∙ split)
          ∙ sym (append_assoc i.done read rest);
      told =
          told
          ∙ rw i.told (sym (events_in-append (i.gone ++ i.done) read))
          ∙ ap events_in (append_assoc i.gone i.done read);
    }
