-- ===== src/Summary/Bounds.antt =====
-- What a capped text keeps: a prefix of the input, within the limit, cut between runes.
use incident_diag.Base.{
  ℕ, zero, suc, ◌≤◌, ◌<◌, ◌≡◌, ◌⊎◌, ◌↔◌, ap, refl, true, false, inl, inr, Bool-cases, Bytes, length,
  take, length-take, arith, dec_lt,
}
use incident_diag.Summary.{starts_at, back_up, cap_at}

back_up-le : (s : Bytes) (cut : ℕ) → back_up s cut ≤ cut
unfolding back_up
back_up-le s zero = omega arith
back_up-le s (suc cut) = ground (arith, back_up-le s cut)

-- The loop stops at 0 or at the start of a rune.
back_up_stops : (s : Bytes) (cut : ℕ) → (back_up s cut ≡ 0) ⊎ (starts_at s (back_up s cut) ≡ true)
unfolding back_up
back_up_stops s zero = inl refl
back_up_stops s (suc cut) = elim (Bool-cases (starts_at s (suc cut))) [
  | inl e ↦ rw e (inr e)
  | inr e ↦ rw e (back_up_stops s cut)
]

-- No start of a rune lies between the place where the loop stops and the limit.
back_up_latest : (s : Bytes) (cut i : ℕ) → back_up s cut < i → i ≤ cut → starts_at s i ≡ false
unfolding back_up
back_up_latest s zero i h k = absurd (omega arith)
back_up_latest s (suc cut) i h k = ground (arith, back_up_latest s cut i)

-- `n` is the last place at or below `limit` where a rune of `s` starts, or 0.
abbrev pub IsLastBoundary : Bytes → ℕ → ℕ → Type 0
IsLastBoundary s limit n =
    (n ≤ limit)
    × ((n ≡ 0) ⊎ (starts_at s n ≡ true))
    × ((i : ℕ) → n < i → i ≤ limit → starts_at s i ≡ false)

length-take-back_up :
    (s : Bytes) (limit : ℕ) → limit < length s → length (take (back_up s limit) s) ≡ back_up s limit
length-take-back_up s limit h = omega (arith, length-take (back_up s limit) s, back_up-le s limit)

-- All three results where something is dropped.
cap_at_over :
    (s : Bytes) (limit : ℕ) → limit < length s → (cap_at s limit).text ≡ take (back_up s limit) s
unfolding cap_at
cap_at_over s limit h = ground arith

cap_at_recorded :
    (s : Bytes) (limit : ℕ)
    → limit < length s
    → ((cap_at s limit).original_bytes ≡ length s) × ((cap_at s limit).truncated ≡ true)
unfolding cap_at
cap_at_recorded s limit h = ground arith

-- A text longer than the limit is cut at the last rune boundary at or below the limit: what is kept
-- is the input up to that boundary, the original length is recorded and the flag is set.
pub cap_at_cuts :
    (s : Bytes) (limit : ℕ)
    → limit < length s
    → let c = cap_at s limit in
      (c.text ≡ take (length c.text) s)
      × IsLastBoundary s limit (length c.text)
      × (c.original_bytes ≡ length s)
      × (c.truncated ≡ true)
cap_at_cuts s limit h =
    let (original, flag) = cap_at_recorded s limit h in
    rw (cap_at_over s limit h) (
      rw (length-take-back_up s limit h)
        (refl, (back_up-le s limit, back_up_stops s limit, back_up_latest s limit), original, flag))

cap_at_within :
    (s : Bytes) (limit : ℕ)
    → length s ≤ limit
    → cap_at s limit ≡ record { text = s; original_bytes = length s; truncated = false }
unfolding cap_at
cap_at_within s limit h = ground arith

pub length-cap_at : (s : Bytes) (limit : ℕ) → length (cap_at s limit).text ≤ limit
length-cap_at s limit = elim (dec_lt limit (length s)) [
  | yes h ↦
      omega (
        arith,
        ap length (cap_at_over s limit h),
        length-take-back_up s limit h,
        back_up-le s limit,
      )
  | no h ↦ let e = cap_at_within s limit (omega arith) in rw e (omega arith)
]

over_of_truncated : (s : Bytes) (limit : ℕ) → (cap_at s limit).truncated ≡ true → limit < length s
unfolding cap_at
over_of_truncated s limit e = ground arith

-- A capped text never exceeds the limit, capping it again changes nothing, and the flag is set
-- exactly when the input was longer than the limit.
pub cap_at_bound :
    (s : Bytes) (limit : ℕ)
    → let c = cap_at s limit in
      (length c.text ≤ limit)
      × ((cap_at c.text limit).text ≡ c.text)
      × ((c.truncated ≡ true) ↔ (limit < length s))
cap_at_bound s limit = (
  length-cap_at s limit,
  ap (λ c. c.text) (cap_at_within (cap_at s limit).text limit (length-cap_at s limit)),
  (over_of_truncated s limit, (λ h. (cap_at_recorded s limit h).1)),
)
