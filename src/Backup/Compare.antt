-- ===== src/Backup/Compare.antt =====
-- equalsToStoredFile() of src/backup.c against a comparison of the whole contents.
use nano_backup.Prelude.{
  ℕ, zero, suc, ◌-◌, ◌*◌, ◌^◌, ◌≤◌, ◌<◌, ◌≡◌, refl, arith, Bool, true, false, Bool-cases, ◌&&◌, [],
  ◌∷◌, take, drop, length, length-drop, ltb, ◌==◌, bytes_eq, some, ◌⊎◌, not, Result, ok, inl, inr,
}
use nano_backup.SafeMath.Bounds.{size_mul-eq-ok}
use nano_backup.Str.{Bytes}
use nano_backup.Metadata.{RegularFileInfo}
use nano_backup.Streams.{Stream, bytes_to_read}
use nano_backup.Streams.Blocks.{bytes_to_read_lem}
use nano_backup.Repository.Store.{Store, file, path_with_info, repo_reader_open_file}
use nano_backup.Backup.Changes.{Stats}
use nano_backup.Backup.Finish.{Sources, compare_loop, equals_to_stored_file}

-- Two texts are equal if their first n bytes and the bytes behind these are.
bytes_eq-split :
    (n : ℕ) (xs ys : Bytes)
    → length xs ≡ length ys
    → bytes_eq xs ys ≡ (bytes_eq (take n xs) (take n ys) && bytes_eq (drop n xs) (drop n ys))
unfolding bytes_eq
bytes_eq-split zero xs ys h = refl
bytes_eq-split (suc n) [] [] h = refl
bytes_eq-split (suc n) [] (y ∷ ys) h = absurd (omega arith)
bytes_eq-split (suc n) (x ∷ xs) [] h = absurd (omega arith)
bytes_eq-split (suc n) (x ∷ xs) (y ∷ ys) h = elim (Bool-cases (x == y)) [
  | inl e ↦ rw (e, bytes_eq-split n xs ys (omega arith)) refl
  | inr e ↦ rw e refl
]

-- What the loop finds: all bytes were read when it found no difference.
abbrev Compared : Stream → Stream → Result (Bool × ℕ × Stream) → Type 0
Compared stream repo_stream result =
    ((bytes_eq stream repo_stream ≡ true) × (result ≡ ok (true, 0, [])))
    ⊎ ((bytes_eq stream repo_stream ≡ false)
        × ((bytes_left : ℕ) × (rest : Stream) × (length rest ≡ bytes_left)
            × (result ≡ ok (false, bytes_left, rest))))

compare_loop-Compared :
    (path : Bytes) (blocksize fuel bytes_left : ℕ) (stream repo_stream : Stream)
    → 0 < blocksize
    → bytes_left ≤ fuel
    → length stream ≡ bytes_left
    → length repo_stream ≡ bytes_left
    → Compared stream repo_stream (compare_loop path blocksize fuel bytes_left stream repo_stream)
unfolding compare_loop bytes_eq
compare_loop-Compared path blocksize zero zero [] [] b f h k = inl (refl, refl)
compare_loop-Compared path blocksize (suc fuel) zero [] [] b f h k = inl (refl, refl)
compare_loop-Compared path blocksize fuel zero (x ∷ xs) r b f h k = absurd (omega arith)
compare_loop-Compared path blocksize fuel zero [] (x ∷ xs) b f h k = absurd (omega arith)
compare_loop-Compared path blocksize zero (suc left) s r b f h k = absurd (omega arith)
compare_loop-Compared path blocksize (suc fuel) (suc left) s r b f h k =
    let n = bytes_to_read (suc left) blocksize in
    let bounds : (0 < n) × (n ≤ suc left) =
      bytes_to_read_lem (suc left) blocksize b (omega arith) in
    let more : (suc left == 0) ≡ false = ground arith in
    let read : ltb (length s) n ≡ false = ground arith in
    let read' : ltb (length r) n ≡ false = ground arith in
    let rest =
      compare_loop-Compared path blocksize fuel (suc left - n) (drop n s) (drop n r) b (omega arith)
        (omega (arith, length-drop n s)) (omega (arith, length-drop n r)) in
    let split = bytes_eq-split n s r (omega arith) in
    elim (Bool-cases (bytes_eq (take n s) (take n r))) [
      | inl e ↦ rw (more, read, read', split, e) rest
      | inr e ↦ inr (
        rw (split, e) refl,
        (suc left - n, drop n s, omega (arith, length-drop n s), rw (more, read, read', e) refl),
      )
    ]

nothing_left :
    (bytes_left : ℕ) (rest : Stream)
    → length rest ≡ bytes_left
    → (bytes_left == 0 && not (length rest == 0)) ≡ false
nothing_left bytes_left rest h = ground arith

-- equalsToStoredFile() says whether the whole contents of the file and of its stored counterpart are
-- equal, for every block size but 0. Both can be opened and are as long as the file info says, and
-- two blocks fit into memory.
pub equals_to_stored_file-whole :
    (f : Sources) (store : Store) (repo_path path : Bytes) (i : RegularFileInfo) (stats : Stats)
    (content stored : Bytes)
    → f.open_read path ≡ ok content
    → store (path_with_info repo_path i) ≡ some (file stored)
    → length content ≡ i.size
    → length stored ≡ i.size
    → 0 < stats.st_blksize
    → stats.st_blksize * 2 < 2 ^ 64
    → equals_to_stored_file f store repo_path path i stats ≡ ok (bytes_eq content stored)
unfolding equals_to_stored_file repo_reader_open_file
equals_to_stored_file-whole f store repo_path path i stats content stored o s h k b c =
    elim (compare_loop-Compared path stats.st_blksize i.size i.size content stored b (omega arith) h
      k) [
        | inl (same, e) ↦ rw (o, size_mul-eq-ok stats.st_blksize 2 c, s, e, same) refl
        | inr (differ, (bytes_left, rest, l, e)) ↦
            rw
              (o, size_mul-eq-ok stats.st_blksize 2 c, s, e, differ, nothing_left bytes_left rest l)
              refl
      ]
