-- ===== src/Streams/Lines.antt =====
-- sReadLine() of src/safe-wrappers.c: the next line of a stream, in a buffer that grows.
use nano_backup.Prelude.{
  ℕ, ◌+◌, ◌*◌, ◌^◌, ◌<◌, ◌≤◌, ◌≡◌, refl, ap, ◌∙◌, sym, subst, arith, Bool, true, false, not, ◌||◌,
  ◌==◌, Bool-cases, inl, inr, [], ◌∷◌, ◌++◌, append_assoc, append-nil, length, length-append, All,
  if◌then◌else◌, Result, ok, ◌>>=◌,
}
use nano_backup.SafeMath.{size_mul}
use nano_backup.SafeMath.Bounds.{size_mul-eq-ok}
use nano_backup.Str.{Bytes}
use nano_backup.Streams.{Stream}

-- '\n', '\r' and '\0'
abbrev pub is_line_end : ℕ → Bool
is_line_end character = character == 10 || (character == 13 || character == 0)

-- The loop, from the capacity of the buffer and the part of it that is used: whether there is a line,
-- the line, the capacity of its buffer, and the rest of the stream.
unfoldable pub read_line_loop : ℕ → Bytes → Stream → Result (Bool × Bytes × ℕ × Stream)
read_line_loop capacity buffer [] = ok (not (length buffer == 0), buffer, capacity, [])
read_line_loop capacity buffer (character ∷ stream) =
    if is_line_end character then ok (true, buffer, capacity, stream) else (do
      capacity' ← (if length buffer + 1 == capacity then size_mul capacity 2 else ok capacity)
      read_line_loop capacity' (buffer ++ (character ∷ [])) stream)

unfoldable pub s_read_line : Stream → Result (Bool × Bytes × ℕ × Stream)
unfolding read_line_loop
s_read_line stream = read_line_loop 4 [] stream

abbrev pub IsInLine : ℕ → Type 0
IsInLine character = is_line_end character ≡ false

-- The buffer is large enough for its part and one more character, but not much larger.
abbrev Fits : ℕ → Bytes → Type 0
Fits capacity buffer = (length buffer < capacity) × (capacity ≤ 2 * length buffer + 4)

grown :
    (capacity : ℕ) (buffer : Bytes) (character : ℕ)
    → Fits capacity buffer
    → 2 * length buffer + 4 < 2 ^ 64
    → (capacity' : ℕ) × ((if length buffer + 1 == capacity
          then size_mul capacity 2
          else ok capacity)
        ≡ ok capacity')
      × Fits capacity' (buffer ++ (character ∷ []))
grown capacity buffer character (above, below) room =
    let n : length (buffer ++ (character ∷ [])) ≡ length buffer + 1 =
      length-append {0} buffer (character ∷ []) in
    elim (Bool-cases (length buffer + 1 == capacity)) [
      | inl full ↦
          let e : length buffer + 1 ≡ capacity = ground arith in
          (
            capacity * 2,
            rw (full, size_mul-eq-ok capacity 2 (omega arith)) refl,
            (omega arith, omega arith),
          )
      | inr free ↦
          let d : length buffer + 1 < capacity = ground arith in
          (capacity, rw free refl, (omega arith, omega arith))
    ]

-- The loop takes the characters up to the end of the line into the buffer.
read_line_loop-append :
    (capacity : ℕ) (buffer line stream : Bytes)
    → All IsInLine line
    → Fits capacity buffer
    → 2 * (length buffer + length line) + 4 < 2 ^ 64
    → (capacity' : ℕ) × (read_line_loop capacity buffer (line ++ stream)
        ≡ read_line_loop capacity' (buffer ++ line) stream)
      × Fits capacity' (buffer ++ line)
unfolding read_line_loop
read_line_loop-append capacity buffer [] stream inside fits room =
    (capacity, rw (append-nil buffer) refl, rw (append-nil buffer) fits)
read_line_loop-append capacity buffer (character ∷ line) stream (not_end, inside) fits room =
    let (bigger, e, fits') = grown capacity buffer character fits (omega arith) in
    let n : length (buffer ++ (character ∷ [])) ≡ length buffer + 1 =
      length-append {0} buffer (character ∷ []) in
    let (capacity', e', fits'') =
      read_line_loop-append bigger (buffer ++ (character ∷ [])) line stream inside fits'
        (omega arith) in
    let same : (buffer ++ (character ∷ [])) ++ line ≡ buffer ++ (character ∷ line) =
      append_assoc buffer (character ∷ []) line in
    (
      capacity',
      rw (not_end, e) (e' ∙ ap (λ b. read_line_loop capacity' b stream) same),
      subst (Fits capacity') same fits'',
    )

-- Of a line in which no character is '\n', '\r' or '\0', and whose doubled length and 4 are below
-- 2 ^ 64, sReadLine() gives all characters when one of these three stands behind it, with what follows
-- that one as the rest of the stream; and when the stream ends behind the line, it gives the line too,
-- and reports an end of the stream if the line is empty. The buffer is larger than the line.
pub s_read_line_lem :
    (line stream : Bytes) (character : ℕ)
    → All IsInLine line
    → is_line_end character ≡ true
    → 2 * length line + 4 < 2 ^ 64
    → ((capacity : ℕ) × (s_read_line (line ++ (character ∷ stream))
          ≡ ok (true, line, capacity, stream))
        × (length line < capacity))
      × ((capacity : ℕ) × (s_read_line line ≡ ok (not (length line == 0), line, capacity, []))
          × (length line < capacity))
unfolding s_read_line read_line_loop
s_read_line_lem line stream character inside line_end room =
    let (capacity, e, (large, small)) =
      read_line_loop-append 4 [] line (character ∷ stream) inside (omega arith, omega arith)
        (omega arith) in
    let (capacity', e', (large', small')) =
      read_line_loop-append 4 [] line [] inside (omega arith, omega arith) (omega arith) in
    let all : s_read_line (line ++ []) ≡ s_read_line line = ap s_read_line (append-nil line) in
    ((capacity, rw (e, line_end) refl, large), (capacity', sym all ∙ e', large'))
