-- ===== src/Api/Sse/Order.antt =====
-- internal/api/sse.go and internal/events/read.go: which entries of a stream a client is sent.
use incident_diag.Base.{
  ℕ, suc, ◌≤◌, ◌<◌, ◌≡◌, refl, sym, ap, ◌∙◌, Bool, true, false, List, [], ◌∷◌, ◌++◌, Option, none,
  some, filter, arith, All, Bool-cases, inl, inr, All-both, All-later, All-map, lt→ltb,
}
use mathlib.Core.Path.{subst}
use incident_diag.Events.{Entry, is_after}
use incident_diag.Api.Sse.Told.{last_of}

-- The ids of a stream rise.
abbrev pub Ascends : ℕ → List Entry → Type 0
Ascends low [] = Unit
Ascends low (m ∷ ms) = (low ≤ m.id) × Ascends (suc m.id) ms

-- Every entry of a list is below an id.
abbrev pub IsBelow : ℕ → List Entry → Type 0
IsBelow n ms = All (λ (m : Entry). m.id < n) ms

abbrev pub entries_after : Option ℕ → List Entry → List Entry
entries_after after ms = filter (λ m. is_after after m.id) ms

Ascends-wider : (low high : ℕ) (ms : List Entry) → low ≤ high → Ascends high ms → Ascends low ms
Ascends-wider low high [] le h = tt
Ascends-wider low high (m ∷ ms) le h = (omega (arith, h.0), h.1)

last_of_above :
    (x y : ℕ) (ms : List Entry)
    → y ≤ x
    → Ascends (suc x) ms
    → is_after (last_of (some x) ms) y ≡ false
last_of_above x y [] le h = ground arith
last_of_above x y (m ∷ ms) le h = last_of_above m.id y ms (omega (arith, h.0)) h.1

last_of_top :
    (low : ℕ) (a : Option ℕ) (ms : List Entry)
    → Ascends low ms
    → All (λ m. is_after (last_of a ms) m.id ≡ false) ms
last_of_top low a [] h = tt
last_of_top low a (m ∷ ms) h =
    (last_of_above m.id m.id ms (omega arith) h.1, last_of_top (suc m.id) (some m.id) ms h.1)

pub after_rising : (a : Option ℕ) (x y : ℕ) → x ≤ y → is_after a x ≡ true → is_after a y ≡ true
after_rising none x y le h = refl
after_rising (some a) x y le h = ground arith

pub after_whole :
    (a : Option ℕ) (low : ℕ) (ms : List Entry)
    → is_after a low ≡ true
    → Ascends low ms
    → entries_after a ms ≡ ms
after_whole a low [] h k = refl
after_whole a low (m ∷ ms) h k =
    let here = after_rising a low m.id k.0 h in
    rw here (
      ap (◌∷◌ m)
        (after_whole a (suc m.id) ms (after_rising a m.id (suc m.id) (omega arith) here) k.1))

filter-Ascends :
    (a : Option ℕ) (low : ℕ) (ms : List Entry) → Ascends low ms → Ascends low (entries_after a ms)
filter-Ascends a low [] h = tt
filter-Ascends a low (m ∷ ms) h =
    ground
      (arith, filter-Ascends a (suc m.id) ms h.1, Ascends-wider low (suc m.id) (entries_after a ms))

last_of_low :
    (a : Option ℕ) (y : ℕ) (ms : List Entry)
    → is_after a y ≡ false
    → Ascends (suc y) ms
    → is_after (last_of a ms) y ≡ false
last_of_low a y [] h k = h
last_of_low a y (m ∷ ms) h k = last_of_above m.id y ms (omega (arith, k.0)) k.1

filter_nothing : (p : Entry → Bool) (ms : List Entry) → All (λ m. p m ≡ false) ms → filter p ms ≡ []
filter_nothing p [] h = refl
filter_nothing p (m ∷ ms) h = rw (h.0) (filter_nothing p ms h.1)

-- Behind the last entry that is after an id, no entry is left.
pub last_of_missed :
    (a : Option ℕ) (low : ℕ) (ms : List Entry)
    → Ascends low ms
    → entries_after (last_of a (entries_after a ms)) ms ≡ []
last_of_missed a low [] h = refl
last_of_missed a low (m ∷ ms) h = elim (Bool-cases (is_after a m.id)) [
  | inl e ↦
      let whole = after_whole a m.id (m ∷ ms) e (omega arith, h.1) in
      subst (λ es. entries_after (last_of a es) (m ∷ ms) ≡ []) (sym whole)
        (filter_nothing (λ x. is_after (last_of a (m ∷ ms)) x.id) (m ∷ ms)
          (last_of_top low a (m ∷ ms) h))
  | inr e ↦
      let skipped : entries_after a (m ∷ ms) ≡ entries_after a ms = rw e refl in
      subst (λ es. entries_after (last_of a es) (m ∷ ms) ≡ []) (sym skipped)
        (rw (last_of_low a m.id (entries_after a ms) e (filter-Ascends a (suc m.id) ms h.1))
          (last_of_missed a (suc m.id) ms h.1))
]

-- An id above all of the entries is after the last one of them if it was after the start.
pub last_of_sees :
    (start a : Option ℕ) (n : ℕ) (ms : List Entry)
    → is_after a n ≡ is_after start n
    → IsBelow n ms
    → All (λ m. is_after start m.id ≡ true) ms
    → is_after (last_of a ms) n ≡ is_after start n
last_of_sees start a n [] same low h = same
last_of_sees start a n (m ∷ ms) same low h =
    last_of_sees start (some m.id) n ms
      (lt→ltb m.id n low.0 ∙ sym (after_rising start m.id n (omega (arith, low.0)) h.0)) low.1 h.1

Ascends-low : (low : ℕ) (ms : List Entry) → Ascends low ms → All (λ m. low ≤ m.id) ms
Ascends-low low [] h = tt
Ascends-low low (m ∷ ms) h =
    (h.0, All-map _ _ ms (λ x k. omega (arith, h.0)) (Ascends-low (suc m.id) ms h.1))

pub append-Ascends :
    (low : ℕ) (log chunk : List Entry)
    → Ascends low (log ++ chunk)
    → All (λ c. IsBelow c.id log) chunk
append-Ascends low [] chunk h = All-map _ _ chunk (λ x k. tt) (Ascends-low low chunk h)
append-Ascends low (m ∷ ms) chunk h =
    All-both _ _ chunk
      (All-later (λ c. suc m.id ≤ c.id) ms chunk (Ascends-low (suc m.id) (ms ++ chunk) h.1))
      (append-Ascends (suc m.id) ms chunk h.1)

pub Ascends-later : (low : ℕ) (xs ys : List Entry) → Ascends low (xs ++ ys) → Ascends 0 ys
Ascends-later low [] ys h = Ascends-wider 0 low ys (omega arith) h
Ascends-later low (x ∷ xs) ys h = Ascends-later (suc x.id) xs ys h.1

pub Ascends-earlier : (low : ℕ) (xs ys : List Entry) → Ascends low (xs ++ ys) → Ascends low xs
Ascends-earlier low [] ys h = tt
Ascends-earlier low (x ∷ xs) ys h = (h.0, Ascends-earlier (suc x.id) xs ys h.1)
