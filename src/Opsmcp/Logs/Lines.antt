-- ===== src/Opsmcp/Logs/Lines.antt =====
-- internal/opsmcp/logs.go, readLine: it reads the lines of the file, whatever the size of the buffer.
use incident_diag.Base.{
  ℕ, zero, suc, ◌+◌, ◌≤◌, ◌≡◌, refl, ap, ◌∙◌, Bool, true, false, ◌||◌, [], ◌∷◌, ◌++◌, Option, none,
  some, length, length-append, append_assoc, ltb, ◌==◌, if◌then◌else◌, Bytes, arith, Option-cases,
  inl, inr,
}
use native.Mathlib.Nat.{add_assoc, zero-add}
use incident_diag.Opsmcp.Logs.{
  buffer_full, at_end, Slice, read_slice, Line, finish_line, read_more, read_line,
  read_buffer_bytes, max_log_line_bytes,
}

-- The bytes up to the first newline, with it, and whether there was none; and the bytes behind it.
pub record Cut : Type 0 where
  pub line : Bytes
  pub rest : Bytes
  pub ended : Bool

unfoldable pub cut : Bytes → Cut
cut [] = record { line = []; rest = []; ended = true }
cut (b ∷ s) =
    let r = cut s in
    if b == 10
    then record { line = b ∷ []; rest = s; ended = false }
    else record r { line = b ∷ r.line }

-- A slice, completed by what is cut behind a full buffer.
abbrev complete : Slice → Cut
complete r = elim r.stop [
  | none ↦ record { line = r.chunk; rest = r.rest; ended = false }
  | some e ↦ elim e [
    | buffer_full ↦ record (cut r.rest) { line = r.chunk ++ (cut r.rest).line }
    | at_end ↦ record { line = r.chunk; rest = r.rest; ended = true }
  ]
]

read_slice_lem : (n : ℕ) (s : Bytes) → complete (read_slice n s) ≡ cut s
unfolding read_slice cut
read_slice_lem zero s = refl
read_slice_lem (suc n) [] = refl
read_slice_lem (suc n) (b ∷ s) = ground (arith, read_slice_lem n s)

length-read_slice :
    (n : ℕ) (s : Bytes)
    → (length (read_slice n s).chunk + length (read_slice n s).rest ≡ length s)
      × (length (read_slice n s).chunk ≤ n)
unfolding read_slice
length-read_slice zero s = omega arith
length-read_slice (suc n) [] = omega arith
length-read_slice (suc n) (b ∷ s) = ground (arith, length-read_slice n s)

read_slice_full :
    (n : ℕ) (s : Bytes)
    → (read_slice n s).stop ≡ some buffer_full
    → length (read_slice n s).chunk ≡ n
unfolding read_slice
read_slice_full zero s h = refl
read_slice_full (suc n) [] h = cc
read_slice_full (suc n) (b ∷ s) h = ground (arith, read_slice_full n s)

pub cut_shorter : (s : Bytes) → (cut s).ended ≡ false → suc (length (cut s).rest) ≤ length s
unfolding cut
cut_shorter [] h = cc
cut_shorter (b ∷ s) h = ground (arith, cut_shorter s)

-- The line that readLine returns for what is cut behind the bytes it holds.
abbrev line_of : Bytes → Bool → Cut → Line
line_of buf too_long c =
    finish_line (too_long || ltb max_log_line_bytes (length buf + length c.line)) (buf ++ c.line)
      c.ended c.rest

-- Over the bound only the rest of a line matters.
finish_line_long :
    (a b : Bytes) (e : Bool) (s : Bytes) → finish_line true a e s ≡ finish_line true b e s
unfolding finish_line
finish_line_long a b e s = refl

-- What follows a full buffer is read behind it, whether the bytes were kept or not.
line_of-append :
    (buf chunk : Bytes) (too_long over : Bool) (c : Cut)
    → ltb max_log_line_bytes (length buf + length chunk) ≡ over
    → line_of (if over then buf else buf ++ chunk) (too_long || over) c
      ≡ line_of buf too_long (record c { line = chunk ++ c.line })
unfolding finish_line
line_of-append buf chunk true over c h = refl
line_of-append buf chunk false true c h = ground (arith, length-append chunk c.line)
line_of-append buf chunk false false c h =
    rw (length-append buf chunk, length-append chunk c.line, append_assoc buf chunk c.line)
      (rw (add_assoc (length buf) (length chunk) (length c.line)))

-- A round of the loop on a slice, with the rest of the loop.
abbrev round : (Bytes → Bool → Bytes → Option Line) → Bytes → Bool → Slice → Option Line
round again buf too_long r =
    let over = ltb max_log_line_bytes (length buf + length r.chunk) in
    let buf' = if over then buf else buf ++ r.chunk in
    elim r.stop [
      | none ↦ some (finish_line (too_long || over) buf' false r.rest)
      | some e ↦ elim e [
        | buffer_full ↦ again buf' (too_long || over) r.rest
        | at_end ↦ some (finish_line (too_long || over) buf' true r.rest)
      ]
    ]

last_line :
    (buf chunk : Bytes) (too_long ended over : Bool) (s : Bytes)
    → ltb max_log_line_bytes (length buf + length chunk) ≡ over
    → some (finish_line (too_long || over) (if over then buf else buf ++ chunk) ended s)
      ≡ some (line_of buf too_long (record { line = chunk; rest = s; ended = ended }))
unfolding finish_line
last_line buf chunk true ended over s h = refl
last_line buf chunk false ended true s h = rw h
last_line buf chunk false ended false s h = rw h

round_lem :
    (again : Bytes → Bool → Bytes → Option Line) (buf : Bytes) (too_long : Bool) (r : Slice)
    → ((b : Bytes) (t : Bool)
        → r.stop ≡ some buffer_full
        → again b t r.rest ≡ some (line_of b t (cut r.rest)))
    → round again buf too_long r ≡ some (line_of buf too_long (complete r))
round_lem again buf too_long r h = elim (Option-cases r.stop) [
  | inl e ↦ rw e (last_line buf r.chunk too_long false _ r.rest refl)
  | inr (buffer_full, e) ↦
      rw e (h _ _ e ∙ ap some (line_of-append buf r.chunk too_long _ (cut r.rest) refl))
  | inr (at_end, e) ↦ rw e (last_line buf r.chunk too_long true _ r.rest refl)
]

read_more_lem :
    (fuel : ℕ) (buf : Bytes) (too_long : Bool) (s : Bytes)
    → suc (length s) ≤ fuel
    → read_more fuel buf too_long s ≡ some (line_of buf too_long (cut s))
unfolding read_more
read_more_lem zero buf too_long s h = elim h [ ]
read_more_lem (suc fuel) buf too_long s h =
    let r = read_slice read_buffer_bytes s in
    let short = length-read_slice read_buffer_bytes s in
    let full = read_slice_full read_buffer_bytes s in
    round_lem (read_more fuel) buf too_long r
      (λ b t stop. read_more_lem fuel b t r.rest (omega (arith, short, full stop)))
    ∙ ap (λ (c : Cut). some (line_of buf too_long c)) (read_slice_lem read_buffer_bytes s)

-- A line that fits the buffer is within the bound.
fitting_line :
    (chunk : Bytes)
    → length chunk ≤ read_buffer_bytes
    → ltb max_log_line_bytes (0 + length chunk) ≡ false
fitting_line chunk h = ground arith

-- readLine on its first slice.
abbrev first : Slice → Option Line
first r = elim r.stop [
  | none ↦ some (finish_line false r.chunk false r.rest)
  | some e ↦ elim e [
    | buffer_full ↦ read_more (suc (length r.rest)) r.chunk false r.rest
    | at_end ↦ some (finish_line false r.chunk true r.rest)
  ]
]

first_lem :
    (r : Slice)
    → length r.chunk ≤ read_buffer_bytes
    → first r ≡ some (line_of [] false (complete r))
first_lem r h = elim (Option-cases r.stop) [
  | inl e ↦ rw e (last_line [] r.chunk false false false r.rest (fitting_line r.chunk h))
  | inr (buffer_full, e) ↦ rw e (
      read_more_lem (suc (length r.rest)) r.chunk false r.rest (omega arith)
      ∙ ap some (line_of-append [] r.chunk false false (cut r.rest) (fitting_line r.chunk h)))
  | inr (at_end, e) ↦ rw e (last_line [] r.chunk false true false r.rest (fitting_line r.chunk h))
]

-- readLine returns the next line of the file, and drops it if it is over the bound.
pub read_line_lem :
    (s : Bytes)
    → read_line s
      ≡ some (
          finish_line
            (ltb max_log_line_bytes (length (cut s).line))
            (cut s).line
            (cut s).ended
            (cut s).rest)
unfolding read_line
read_line_lem s =
    first_lem (read_slice read_buffer_bytes s) ((length-read_slice read_buffer_bytes s).1)
    ∙ ap (λ (c : Cut). some (line_of [] false c)) (read_slice_lem read_buffer_bytes s)
    ∙ ap
        (λ (n : ℕ).
          some (finish_line (ltb max_log_line_bytes n) (cut s).line (cut s).ended (cut s).rest))
        (zero-add (length (cut s).line))
