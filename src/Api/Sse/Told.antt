-- ===== src/Api/Sse/Told.antt =====
-- internal/events/read.go, deliver, over the callback of internal/api/sse.go: what it tells a client.
use incident_diag.Base.{
  ℕ, ◌≡◌, refl, sym, ap, ◌∙◌, List, [], ◌∷◌, ◌++◌, Option, none, some, append_nil, append_assoc,
  Option-cases, Bool-cases, inl, inr, length,
}
use mathlib.Core.Path.{subst}
use incident_diag.Events.{
  Entry, ReadEvent, StreamError, write_failed, Delivered, read_event, deliver, delivered,
}
use incident_diag.Api.Sse.{Frame, event, ping, Connection, Client, send, write}

-- The well-formed entries of a stream.
unfoldable pub events_in : List Entry → List ReadEvent
events_in [] = []
events_in (m ∷ ms) = elim (read_event m) [ none ↦ events_in ms | some ev ↦ ev ∷ events_in ms ]

-- The id of the last entry, or the one before them all.
abbrev pub last_of : Option ℕ → List Entry → Option ℕ
last_of last [] = last
last_of last (m ∷ ms) = last_of (some m.id) ms

-- The events among the frames.
unfoldable pub sent : List Frame → List ReadEvent
sent [] = []
sent (event ev ∷ fs) = ev ∷ sent fs
sent (ping ∷ fs) = sent fs

pub sent-append : (fs gs : List Frame) → sent (fs ++ gs) ≡ sent fs ++ sent gs
unfolding sent
sent-append [] gs = refl
sent-append (event ev ∷ fs) gs = ap (◌∷◌ ev) (sent-append fs gs)
sent-append (ping ∷ fs) gs = sent-append fs gs

pub events_in-append : (xs ys : List Entry) → events_in (xs ++ ys) ≡ events_in xs ++ events_in ys
unfolding events_in
events_in-append [] ys = refl
events_in-append (x ∷ xs) ys = elim (Option-cases (read_event x)) [
  | inl e ↦ rw (events_in, e) (events_in-append xs ys)
  | inr h ↦ rw (events_in, h.1) (ap (◌∷◌ (h.0)) (events_in-append xs ys))
]

module _ (connection : Connection) where
  send_cases {ℓ} :
      (P : Option StreamError × Client → Type ℓ) (ev : ReadEvent) (c : Client)
      → P (some write_failed, c)
      → ((e : Option StreamError) (c' : Client)
          → sent c'.frames ≡ sent c.frames ++ ev ∷ []
          → P (e, c'))
      → P (send connection ev c)
  unfolding send write
  send_cases P ev c broken written = elim (Bool-cases (connection.is_broken (length c.frames))) [
    | inl h ↦ rw (send, h) broken
    | inr h ↦ rw (send, h) (written _ _ (unfold sent in sent-append c.frames (event ev ∷ [])))
  ]

  -- The entries that a delivery has sent, and those that it has not come to.
  abbrev pub IsTold : Client → List Entry → Delivered Client → Type 0
  IsTold c ms d =
      (read : List Entry) × (rest : List Entry) × (ms ≡ read ++ rest)
      × (sent d.state.frames ≡ sent c.frames ++ events_in read)
      × (d.error ≡ none → rest ≡ [])

  skips :
      (m : Entry) (ms : List Entry) (last : Option ℕ) (c : Client)
      → read_event m ≡ none
      → deliver (send connection) (m ∷ ms) last c ≡ deliver (send connection) ms (some m.id) c
  unfolding deliver
  skips m ms last c e = rw (deliver, e) refl

  delivers :
      (m : Entry) (ms : List Entry) (last : Option ℕ) (c : Client) (ev : ReadEvent)
      → read_event m ≡ some ev
      → deliver (send connection) (m ∷ ms) last c
        ≡ delivered m.id (send connection ev c) (λ c'. deliver (send connection) ms (some m.id) c')
  unfolding deliver
  delivers m ms last c ev e = rw (deliver, e) refl

  skip-IsTold :
      (m : Entry) (ms : List Entry) (c : Client) (d : Delivered Client)
      → read_event m ≡ none
      → IsTold c ms d
      → IsTold c (m ∷ ms) d
  unfolding events_in
  skip-IsTold m ms c d e (read, rest, split, told, all) =
      (m ∷ read, rest, ap (◌∷◌ m) split, rw (events_in, e) told, all)

  event-IsTold :
      (m : Entry) (ms : List Entry) (c c' : Client) (d : Delivered Client) (ev : ReadEvent)
      → read_event m ≡ some ev
      → sent c'.frames ≡ sent c.frames ++ ev ∷ []
      → IsTold c' ms d
      → IsTold c (m ∷ ms) d
  unfolding events_in
  event-IsTold m ms c c' d ev e grown (read, rest, split, told, all) = (
    m ∷ read,
    rest,
    ap (◌∷◌ m) split,
    rw (events_in, e) (told ∙ rw grown (append_assoc (sent c.frames) (ev ∷ []) (events_in read))),
    all,
  )

  -- The entry at which the callback ends the request, sent or not.
  stop-IsTold :
      (m : Entry) (ms : List Entry) (c c' : Client) (ev : ReadEvent) (e : StreamError)
      → read_event m ≡ some ev
      → sent c'.frames ≡ sent c.frames ++ ev ∷ []
      → IsTold c (m ∷ ms) (record { last = some m.id; error = some e; state = c' })
  unfolding events_in
  stop-IsTold m ms c c' ev e h grown = (m ∷ [], ms, refl, rw (events_in, h) grown, (λ k. cc))

  fail-IsTold :
      (ms : List Entry) (c : Client) (last : Option ℕ) (e : StreamError)
      → IsTold c ms (record { last = last; error = some e; state = c })
  unfolding events_in
  fail-IsTold ms c last e = ([], ms, refl, sym (append_nil (sent c.frames)), (λ k. cc))

  delivered-IsTold :
      (m : Entry) (ms : List Entry) (c c' : Client) (o : Option StreamError) (ev : ReadEvent)
      → read_event m ≡ some ev
      → sent c'.frames ≡ sent c.frames ++ ev ∷ []
      → IsTold c' ms (deliver (send connection) ms (some m.id) c')
      → IsTold c (m ∷ ms) (delivered m.id (o, c') (λ x. deliver (send connection) ms (some m.id) x))
  unfolding delivered
  delivered-IsTold m ms c c' (some e) ev h grown told = stop-IsTold m ms c c' ev e h grown
  delivered-IsTold m ms c c' none ev h grown told =
      event-IsTold m ms c c' (deliver (send connection) ms (some m.id) c') ev h grown told

  pub deliver-IsTold :
      (ms : List Entry) (last : Option ℕ) (c : Client)
      → IsTold c ms (deliver (send connection) ms last c)
  unfolding deliver events_in
  deliver-IsTold [] last c = ([], [], refl, sym (append_nil (sent c.frames)), (λ h. refl))
  deliver-IsTold (m ∷ ms) last c = elim (Option-cases (read_event m)) [
    | inl e ↦ subst (IsTold c (m ∷ ms)) (sym (skips m ms last c e)) (
        skip-IsTold m ms c (deliver (send connection) ms (some m.id) c) e
          (deliver-IsTold ms (some m.id) c))
    | inr h ↦ subst (IsTold c (m ∷ ms)) (sym (delivers m ms last c (h.0) (h.1))) (
        send_cases
          (λ x.
            IsTold c (m ∷ ms)
              (delivered m.id x (λ c'. deliver (send connection) ms (some m.id) c')))
          (h.0) c (fail-IsTold (m ∷ ms) c (some m.id) write_failed)
          (λ o c' grown.
            delivered-IsTold m ms c c' o (h.0) (h.1) grown (deliver-IsTold ms (some m.id) c')))
  ]

  delivered-last :
      (m : Entry) (ms : List Entry) (o : Option StreamError) (c : Client)
      → (delivered m.id (o, c) (λ x. deliver (send connection) ms (some m.id) x)).error ≡ none
      → ((deliver (send connection) ms (some m.id) c).error ≡ none
          → (deliver (send connection) ms (some m.id) c).last ≡ last_of (some m.id) ms)
      → (delivered m.id (o, c) (λ x. deliver (send connection) ms (some m.id) x)).last
        ≡ last_of (some m.id) ms
  unfolding delivered
  delivered-last m ms (some e) c h ih = cc
  delivered-last m ms none c h ih = ih h

  -- The id that a delivery without an error returns.
  pub deliver-last :
      (ms : List Entry) (last : Option ℕ) (c : Client)
      → (deliver (send connection) ms last c).error ≡ none
      → (deliver (send connection) ms last c).last ≡ last_of last ms
  unfolding deliver
  deliver-last [] last c h = refl
  deliver-last (m ∷ ms) last c h = elim (Option-cases (read_event m)) [
    | inl e ↦
        let same = skips m ms last c e in
        ap (λ d. d.last) same ∙ deliver-last ms (some m.id) c (sym (ap (λ d. d.error) same) ∙ h)
    | inr k ↦
        let same = delivers m ms last c (k.0) (k.1) in
        ap (λ d. d.last) same
        ∙ delivered-last m ms (send connection (k.0) c).0 (send connection (k.0) c).1
            (sym (ap (λ d. d.error) same) ∙ h)
            (deliver-last ms (some m.id) (send connection (k.0) c).1)
  ]
