-- ===== src/FileHash.antt =====
-- src/file-hash.c: the hash of a file, read block by block. BLAKE2 is the parameter `Blake2`, and
-- `source` is sFopenRead(): it gives the bytes of a file. The progress callback is left out.
use nano_backup.Prelude.{
  ◌<◌, ◌≡◌, refl, arith, false, if◌then◌else◌, ◌==◌, length, drop, take-length, drop-length,
  length-drop, Result, ok, die, ◌>>=◌, file_changed, unexpected_end,
}
use nano_backup.Str.{Bytes}
use nano_backup.Streams.{Stream, read_blocks, s_fbytes_left}
use nano_backup.Streams.Blocks.{IsAppending, read_blocks_lem, read_blocks-short}
use nano_backup.Backup.Changes.{Stats}

-- blake2b_init(), blake2b_update() and blake2b_final(), for hashes of FILE_HASH_SIZE bytes
pub record Blake2 : Type 1 where
  pub State : Type 0
  pub init : State
  pub update : State → Bytes → State
  pub final : State → Bytes

unfoldable pub file_hash : Blake2 → (Bytes → Result Stream) → Bytes → Stats → Result Bytes
unfolding read_blocks
file_hash blake source path stats = do
  stream ← source path
  (state, rest) ←
      read_blocks blake.update (unexpected_end path) stats.st_blksize stats.st_size stats.st_size
        stream blake.init
  (if s_fbytes_left rest then die (file_changed path) else ok (blake.final state))

-- The three outcomes for a file whose content is `content`
abbrev pub WholeHash : Blake2 → Bytes → Stats → Bytes → Result Bytes → Type 0
WholeHash blake path stats content result =
    (stats.st_size ≡ length content → result ≡ ok (blake.final (blake.update blake.init content)))
    × (stats.st_size < length content → result ≡ die (file_changed path))
    × (length content < stats.st_size → result ≡ die (unexpected_end path))

-- fileHash() ends for every block size but 0, and then its result does not depend on it: for a file
-- that is as long as its stats say it is the hash of the whole content at once, for a longer one the
-- program ends with the message that the file changed, and for a shorter one with the message that
-- its end was unexpected. BLAKE2 gets a text in two parts as it gets the whole.
pub file_hash-WholeHash :
    (blake : Blake2) (source : Bytes → Result Stream) (path content : Bytes) (stats : Stats)
    → IsAppending blake.update
    → source path ≡ ok content
    → 0 < stats.st_blksize
    → WholeHash blake path stats content (file_hash blake source path stats)
unfolding file_hash
file_hash-WholeHash blake source path content stats a s b = (
  λ e.
      let read =
        read_blocks_lem blake.update (unexpected_end path) stats.st_blksize stats.st_size
          stats.st_size content blake.init a b (omega arith) (omega arith) in
      rw (s, read, e, take-length content, drop-length content) refl,
  λ longer.
      let read =
        read_blocks_lem blake.update (unexpected_end path) stats.st_blksize stats.st_size
          stats.st_size content blake.init a b (omega arith) (omega arith) in
      let left : (length (drop stats.st_size content) == 0) ≡ false =
        ground (arith, length-drop stats.st_size content) in
      rw (s, read, left) refl,
  λ shorter.
      let read =
        read_blocks-short blake.update (unexpected_end path) stats.st_blksize stats.st_size
          stats.st_size content blake.init b (omega arith) shorter in
      rw (s, read) refl,
)
