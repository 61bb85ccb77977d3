-- ===== src/Streams.antt =====
-- The streams of src/safe-wrappers.c, as far as files are read block by block, and the loops over
-- `bytes_left` of src/file-hash.c, src/backup.c and src/restore.c. A stream is the list of the bytes
-- that its file had behind the position when it was opened; the disk itself does not fail.
pub mod Blocks
pub mod Lines
use nano_backup.Prelude.{
  ℕ, zero, suc, ◌-◌, Bool, not, ltb, ◌==◌, if◌then◌else◌, length, take, drop, Result, Error, ok,
  die, stuck, ◌>>=◌,
}
use nano_backup.Str.{Bytes}

abbrev pub Stream : Type 0
Stream = Bytes

-- sFread() and repoReaderRead(): `unexpected` is the message when the file ends too early.
abbrev pub s_fread : Error → ℕ → Stream → Result (Bytes × Stream)
s_fread unexpected size stream =
    if ltb (length stream) size then die unexpected else ok (take size stream, drop size stream)

abbrev pub s_fbytes_left : Stream → Bool
s_fbytes_left stream = not (length stream == 0)

abbrev pub bytes_to_read : ℕ → ℕ → ℕ
bytes_to_read bytes_left blocksize = if ltb blocksize bytes_left then blocksize else bytes_left

-- while(bytes_left > 0) with one call of `process` for each block; a block size of 0 never ends.
unfoldable pub read_blocks {ℓ} :
    {S : Type ℓ} → (S → Bytes → S) → Error → ℕ → ℕ → ℕ → Stream → S → Result (S × Stream)
read_blocks process unexpected blocksize zero bytes_left stream state =
    if bytes_left == 0 then ok (state, stream) else stuck
read_blocks process unexpected blocksize (suc fuel) bytes_left stream state =
    if bytes_left == 0 then ok (state, stream) else (do
      (block, rest) ← s_fread unexpected (bytes_to_read bytes_left blocksize) stream
      read_blocks process unexpected blocksize fuel
          (bytes_left - bytes_to_read bytes_left blocksize) rest (process state block))
