-- ===== src/Api/Sse/Trimmed.antt =====
-- internal/events/events.go, Trim and MAXLEN: the oldest entries of a stream are dropped, and what this
-- leaves of the timeline of a client.
use incident_diag.Base.{
  ℕ, suc, ◌≡◌, ◌≢◌, filter, refl, sym, ap, ◌∙◌, Bool, true, false, List, [], ◌∷◌, ◌++◌, Option,
  length, length-append, length-filter, count-le-length, append_assoc, append_nil, arith,
  Bool-cases, inl, inr, filter-append,
}
use mathlib.Core.Path.{subst}
use incident_diag.Events.{Entry, is_after}
use incident_diag.Api.Sse.{Frame}
use incident_diag.Api.Sse.Told.{events_in, sent}
use incident_diag.Api.Sse.Order.{
  Ascends, Ascends-later, Ascends-earlier, IsBelow, entries_after, after_rising, after_whole,
}
use incident_diag.Api.Sse.Picks.{Picks, Picks-append, Picks-all, Picks-none}
use incident_diag.Api.Sse.Caught.{IsTimeline, IsCaught}

-- The ids of the stream before it is trimmed, and of all entries behind it.
pub Ascends-parts :
    (trimmed log lost kept chunk : List Entry)
    → log ≡ lost ++ kept
    → Ascends 0 (trimmed ++ (log ++ chunk))
    → Ascends 0 (lost ++ kept) × Ascends 0 ((trimmed ++ lost) ++ (kept ++ chunk))
Ascends-parts trimmed log lost kept chunk e rises =
    let split : trimmed ++ (log ++ chunk) ≡ (trimmed ++ lost) ++ (kept ++ chunk) =
      ap (λ (l : List Entry). trimmed ++ (l ++ chunk)) e
      ∙ ap (λ (l : List Entry). trimmed ++ l) (append_assoc lost kept chunk)
      ∙ sym (append_assoc trimmed lost (kept ++ chunk)) in
    (
      subst (Ascends 0) e
          (Ascends-earlier 0 log chunk (Ascends-later 0 trimmed (log ++ chunk) rises)),
      subst (Ascends 0) split rises,
    )

module _ (start : Option ℕ) where
  -- One more entry is trimmed, and was sent or not.
  pick_kept :
      (gone trimmed : List Entry) (x : Entry)
      → Picks gone (entries_after start trimmed)
      → Picks gone (entries_after start (trimmed ++ x ∷ []))
  pick_kept gone trimmed x h = rw (filter-append (λ m. is_after start m.id) trimmed (x ∷ [])) (
      subst (λ ms. Picks ms (entries_after start trimmed ++ entries_after start (x ∷ [])))
        (append_nil gone) (Picks-append h (Picks-none (entries_after start (x ∷ [])))))

  pick_sent :
      (gone trimmed : List Entry) (x : Entry)
      → is_after start x.id ≡ true
      → Picks gone (entries_after start trimmed)
      → Picks (gone ++ x ∷ []) (entries_after start (trimmed ++ x ∷ []))
  pick_sent gone trimmed x e h =
      rw (filter-append (λ m. is_after start m.id) trimmed (x ∷ []))
        (Picks-append h (rw e (Picks-all (x ∷ []))))

  -- The sent entries, one of which moves to those that are gone.
  moved :
      (gone ds : List Entry) (x y : Entry)
      → x ≡ y
      → events_in (gone ++ y ∷ ds) ≡ events_in ((gone ++ x ∷ []) ++ ds)
  moved gone ds x y e = rw e (ap events_in (sym (append_assoc gone (y ∷ []) ds)))

  passed :
      (a : Option ℕ) (x : Entry) (log : List Entry)
      → is_after a x.id ≡ false
      → entries_after a (x ∷ log) ≡ entries_after a log
  passed a x log e = rw e refl

  taken :
      (a : Option ℕ) (x : Entry) (log : List Entry)
      → is_after a x.id ≡ true
      → entries_after a (x ∷ log) ≡ x ∷ entries_after a log
  taken a x log e = rw e refl

  heads_eq : (x y : Entry) (xs ys : List Entry) → x ∷ xs ≡ y ∷ ys → x ≡ y
  heads_eq x y xs ys e = cc

  tails_eq : (x y : Entry) (xs ys : List Entry) → x ∷ xs ≡ y ∷ ys → xs ≡ ys
  tails_eq x y xs ys e = cc

  IsTimeline-sent :
      (trimmed log : List Entry) (x : Entry) (fs : List Frame) (gone done left : List Entry)
      → is_after start x.id ≡ true
      → Picks gone (entries_after start trimmed)
      → x ∷ entries_after start log ≡ done ++ left
      → sent fs ≡ events_in (gone ++ done)
      → IsTimeline start (trimmed ++ x ∷ []) log fs
  IsTimeline-sent trimmed log x fs gone [] left e picked split told = record {
    gone = gone;
    done = [];
    left = entries_after start log;
    picked = pick_kept gone trimmed x picked;
    split = refl;
    told = told;
  }
  IsTimeline-sent trimmed log x fs gone (y ∷ ds) left e picked split told = record {
    gone = gone ++ x ∷ [];
    done = ds;
    left = left;
    picked = pick_sent gone trimmed x e picked;
    split = tails_eq x y _ _ split;
    told = told ∙ moved gone ds x y (heads_eq x y _ _ split);
  }

  IsTimeline-first :
      (trimmed log : List Entry) (x : Entry) (fs : List Frame)
      → IsTimeline start trimmed (x ∷ log) fs
      → IsTimeline start (trimmed ++ x ∷ []) log fs
  IsTimeline-first trimmed log x fs t = elim (Bool-cases (is_after start x.id)) [
    | inr e ↦ record {
      gone = t.gone;
      done = t.done;
      left = t.left;
      picked = pick_kept t.gone trimmed x t.picked;
      split = sym (passed start x log e) ∙ t.split;
      told = t.told;
    }
    | inl e ↦
        IsTimeline-sent trimmed log x fs t.gone t.done t.left e t.picked
          (sym (taken start x log e) ∙ t.split) t.told
  ]

  -- The oldest entries are trimmed.
  pub IsTimeline-trims :
      (trimmed lost log : List Entry) (fs : List Frame)
      → IsTimeline start trimmed (lost ++ log) fs
      → IsTimeline start (trimmed ++ lost) log fs
  IsTimeline-trims trimmed [] log fs t =
      subst (λ l. IsTimeline start l log fs) (sym (append_nil trimmed)) t
  IsTimeline-trims trimmed (x ∷ lost) log fs t =
      subst (λ l. IsTimeline start l log fs) (append_assoc trimmed (x ∷ []) lost)
        (IsTimeline-trims (trimmed ++ x ∷ []) lost log fs
          (IsTimeline-first trimmed (lost ++ log) x fs t))

  too_long :
      (done : List Entry) (p : Entry → Bool) (x : Entry) (log : List Entry)
      → filter p log ≢ done ++ x ∷ log
  too_long done p x log e =
      omega (
        arith,
        ap length e,
        length-append done (x ∷ log),
        length-filter p log,
        count-le-length p log,
      )

  all_after :
      (a : Option ℕ) (x : Entry) (log : List Entry)
      → is_after a x.id ≡ true
      → Ascends 0 (x ∷ log)
      → entries_after a log ≡ log
  all_after a x log e rises =
      after_whole a (suc x.id) log (after_rising a x.id (suc x.id) (omega arith) e) rises.1

  -- An unread entry is trimmed: none of the stream was sent.
  none_done :
      (done : List Entry) (x : Entry) (log : List Entry) → x ∷ log ≡ done ++ x ∷ log → done ≡ []
  none_done [] x log e = refl
  none_done (y ∷ ds) x log e = absurd (omega (arith, ap length e, length-append ds (x ∷ log)))

  module _ (full : Bool) (trimmed log : List Entry) (x : Entry) (after : Option ℕ) (fs : List Frame)
      (i : IsCaught start full trimmed (x ∷ log) after fs) (rises : Ascends 0 (x ∷ log)) where
    still_sees :
        (n : ℕ) → IsBelow n ((trimmed ++ x ∷ []) ++ log) → is_after after n ≡ is_after start n
    still_sees n below = i.sees n (subst (IsBelow n) (append_assoc trimmed (x ∷ []) log) below)

    -- The entry is behind the resume point and was read.
    IsCaught-sent :
        (done : List Entry)
        → is_after start x.id ≡ true
        → is_after after x.id ≡ false
        → x ∷ log ≡ done ++ i.left
        → sent fs ≡ events_in (i.gone ++ done)
        → IsCaught start full (trimmed ++ x ∷ []) log after fs
    IsCaught-sent [] e f split told = absurd (
        too_long [] (λ m. is_after after m.id) x log
          (sym (passed after x log f) ∙ i.unread ∙ sym split))
    IsCaught-sent (y ∷ ds) e f split told = record {
      gone = i.gone ++ x ∷ [];
      done = ds;
      left = i.left;
      picked = pick_sent i.gone trimmed x e i.picked;
      split = all_after start x log e rises ∙ tails_eq x y _ _ split;
      told = told ∙ moved i.gone ds x y (heads_eq x y _ _ split);
      unread = sym (passed after x log f) ∙ i.unread;
      sees = still_sees;
      all = i.all;
    }

    whole : (a : Option ℕ) → is_after a x.id ≡ true → entries_after a (x ∷ log) ≡ x ∷ log
    whole a e = taken a x log e ∙ ap (◌∷◌ x) (all_after a x log e rises)

    x_left : i.left ≡ x ∷ log → i.left ≡ [] → ⊥
    x_left h k = cc

    IsCaught-first : IsCaught start full (trimmed ++ x ∷ []) log after fs
    IsCaught-first = elim (Bool-cases (is_after start x.id)) [
      | inr e ↦ elim (Bool-cases (is_after after x.id)) [
        | inl f ↦ absurd (
            too_long i.done (λ m. is_after start m.id) x log
              (sym (passed start x log e)
                ∙ i.split
                ∙ ap (λ l. i.done ++ l) (sym i.unread ∙ whole after f)))
        | inr f ↦ record {
          gone = i.gone;
          done = i.done;
          left = i.left;
          picked = pick_kept i.gone trimmed x i.picked;
          split = sym (passed start x log e) ∙ i.split;
          told = i.told;
          unread = sym (passed after x log f) ∙ i.unread;
          sees = still_sees;
          all = i.all;
        }
      ]
      | inl e ↦ elim (Bool-cases (is_after after x.id)) [
        | inl f ↦
            let left : i.left ≡ x ∷ log = sym i.unread ∙ whole after f in
            let nothing_done : i.done ≡ [] =
              none_done i.done x log (sym (whole start e) ∙ i.split ∙ ap (λ l. i.done ++ l) left) in
            record {
              gone = i.gone;
              done = [];
              left = log;
              picked = pick_kept i.gone trimmed x i.picked;
              split = all_after start x log e rises;
              told = i.told ∙ ap (λ l. events_in (i.gone ++ l)) nothing_done;
              unread = all_after after x log f rises;
              sees = still_sees;
              all = λ h. absurd (x_left left (i.all h));
            }
        | inr f ↦ IsCaught-sent i.done e f (sym (whole start e) ∙ i.split) i.told
      ]
    ]

  pub IsCaught-trims :
      (full : Bool) (trimmed lost log : List Entry) (after : Option ℕ) (fs : List Frame)
      → Ascends 0 (lost ++ log)
      → IsCaught start full trimmed (lost ++ log) after fs
      → IsCaught start full (trimmed ++ lost) log after fs
  IsCaught-trims full trimmed [] log after fs rises i =
      subst (λ l. IsCaught start full l log after fs) (sym (append_nil trimmed)) i
  IsCaught-trims full trimmed (x ∷ lost) log after fs rises i =
      subst (λ l. IsCaught start full l log after fs) (append_assoc trimmed (x ∷ []) lost)
        (IsCaught-trims full (trimmed ++ x ∷ []) lost log after fs
          (Ascends-later 0 (x ∷ []) (lost ++ log) rises)
          (IsCaught-first full trimmed (lost ++ log) x after fs i rises))
