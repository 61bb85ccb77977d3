-- ===== src/Streams/Blocks.antt =====
-- The loop over the blocks of a file against a single read.
use nano_backup.Prelude.{
  ℕ, zero, suc, ◌-◌, ◌≤◌, ◌<◌, ◌≡◌, refl, arith, List, false, [], ◌∷◌, ◌++◌, ltb, ◌==◌, length,
  take, drop, Error, ok, die, inl, inr, Bool-cases, length-drop,
}
use nano_backup.Str.{Bytes}
use nano_backup.Streams.{Stream, read_blocks, bytes_to_read}

-- `process` only appends: two blocks one after the other are one block.
pub record IsAppending {ℓ} {S : Type ℓ} (process : S → Bytes → S) : Type ℓ where
  pub nothing : (s : S) → process s [] ≡ s
  pub joined : (s : S) (a b : Bytes) → process (process s a) b ≡ process s (a ++ b)

take-[] {ℓ} : {A : Type ℓ} (n : ℕ) → take {A = A} n [] ≡ []
take-[] zero = refl
take-[] (suc n) = refl

drop-[] {ℓ} : {A : Type ℓ} (n : ℕ) → drop {A = A} n [] ≡ []
drop-[] zero = refl
drop-[] (suc n) = refl

pub take-split {ℓ} :
    {A : Type ℓ} (n m : ℕ) (xs : List A) → n ≤ m → take n xs ++ take (m - n) (drop n xs) ≡ take m xs
take-split zero m xs h = let e : m - 0 ≡ m = omega arith in rw e refl
take-split (suc n) zero xs h = absurd (omega arith)
take-split (suc n) (suc m) [] h = take-[] (suc m - suc n)
take-split (suc n) (suc m) (x ∷ xs) h =
    let e : suc m - suc n ≡ m - n = omega arith in rw (e, take-split n m xs (omega arith)) refl

pub drop-split {ℓ} :
    {A : Type ℓ} (n m : ℕ) (xs : List A) → n ≤ m → drop (m - n) (drop n xs) ≡ drop m xs
drop-split zero m xs h = let e : m - 0 ≡ m = omega arith in rw e refl
drop-split (suc n) zero xs h = absurd (omega arith)
drop-split (suc n) (suc m) [] h = drop-[] (suc m - suc n)
drop-split (suc n) (suc m) (x ∷ xs) h =
    let e : suc m - suc n ≡ m - n = omega arith in rw e (drop-split n m xs (omega arith))

-- A block is not empty and no longer than what is left.
pub bytes_to_read_lem :
    (bytes_left blocksize : ℕ)
    → 0 < blocksize
    → 0 < bytes_left
    → (0 < bytes_to_read bytes_left blocksize) × (bytes_to_read bytes_left blocksize ≤ bytes_left)
bytes_to_read_lem bytes_left blocksize h p = ground arith

pub read_blocks_lem {ℓ} :
    {S : Type ℓ} (process : S → Bytes → S) (unexpected : Error) (blocksize fuel bytes_left : ℕ)
    (stream : Stream) (state : S)
    → IsAppending process
    → 0 < blocksize
    → bytes_left ≤ fuel
    → bytes_left ≤ length stream
    → read_blocks process unexpected blocksize fuel bytes_left stream state
      ≡ ok (process state (take bytes_left stream), drop bytes_left stream)
unfolding read_blocks
read_blocks_lem process unexpected blocksize zero zero stream state a b f h =
    rw (a.nothing state) refl
read_blocks_lem process unexpected blocksize (suc fuel) zero stream state a b f h =
    rw (a.nothing state) refl
read_blocks_lem process unexpected blocksize zero (suc left) stream state a b f h =
    absurd (omega arith)
read_blocks_lem process unexpected blocksize (suc fuel) (suc left) stream state a b f h =
    let n = bytes_to_read (suc left) blocksize in
    let bounds : (0 < n) × (n ≤ suc left) =
      bytes_to_read_lem (suc left) blocksize b (omega arith) in
    let more : (suc left == 0) ≡ false = ground arith in
    let enough : ltb (length stream) n ≡ false = ground arith in
    let rest =
      read_blocks_lem process unexpected blocksize fuel (suc left - n) (drop n stream)
        (process state (take n stream)) a b (omega arith) (omega (arith, length-drop n stream)) in
    rw (more, enough)
      (rw rest (
        rw
          (
            a.joined state (take n stream) (take (suc left - n) (drop n stream)),
            take-split n (suc left) stream bounds.1,
            drop-split n (suc left) stream bounds.1,
          )
          refl))

pub read_blocks-short {ℓ} :
    {S : Type ℓ} (process : S → Bytes → S) (unexpected : Error) (blocksize fuel bytes_left : ℕ)
    (stream : Stream) (state : S)
    → 0 < blocksize
    → bytes_left ≤ fuel
    → length stream < bytes_left
    → read_blocks process unexpected blocksize fuel bytes_left stream state ≡ die unexpected
unfolding read_blocks
read_blocks-short process unexpected blocksize fuel zero stream state b f h = absurd (omega arith)
read_blocks-short process unexpected blocksize zero (suc left) stream state b f h =
    absurd (omega arith)
read_blocks-short process unexpected blocksize (suc fuel) (suc left) stream state b f h =
    let n = bytes_to_read (suc left) blocksize in
    let bounds : (0 < n) × (n ≤ suc left) =
      bytes_to_read_lem (suc left) blocksize b (omega arith) in
    let more : (suc left == 0) ≡ false = ground arith in
    elim (Bool-cases (ltb (length stream) n)) [
      | inl e ↦ rw (more, e) refl
      | inr e ↦
          rw (more, e)
            (read_blocks-short process unexpected blocksize fuel (suc left - n) (drop n stream)
              (process state (take n stream)) b (omega arith)
              (let fits : n ≤ length stream = ground arith in omega (arith, length-drop n stream)))
    ]
