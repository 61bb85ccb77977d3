-- ===== src/Backup/Finish.antt =====
-- The completion of a backup in src/backup.c: copyFileIntoRepo(), equalsToStoredFile(),
-- searchFileDuplicates(), addFileToRepo() and finishBackup(). The files that are backed up are the
-- parameter `Sources`; the repository is a `Store` that each function gets and gives back. A pointer
-- to the file info of a node's first history point is the info as a value, passed on and returned.
use nano_backup.Prelude.{
  ℕ, zero, suc, ◌+◌, ◌-◌, Bool, true, false, ◌&&◌, ◌||◌, not, [], ◌∷◌, ◌++◌, drop, ltb, ◌==◌,
  bytes_eq, if◌then◌else◌, Result, ok, die, stuck, ◌>>=◌, file_changed, unexpected_end,
  slot_overflow,
}
use Prim.Native.Nat.{bit_and}
use nano_backup.SafeMath.{size_mul}
use nano_backup.Str.{Bytes}
use nano_backup.Hint.{
  BackupHint, hint_no_pol, bh_added, bh_symlink_to_regular, bh_directory_to_regular,
  bh_content_changed, bh_fresh_hash,
}
use nano_backup.Metadata.{
  PathState, regular_file, RegularFileInfo, PathHistory, PathList, null, node, Metadata,
  file_hash_size,
}
use nano_backup.Streams.{Stream, s_fread, s_fbytes_left, bytes_to_read, read_blocks}
use nano_backup.FileHash.{Blake2, file_hash}
use nano_backup.Repository.Store.{
  Store, repo_regular_file_exists, repo_reader_open_file, info, repo_writer_open, repo_writer_write,
  repo_writer_close,
}
use nano_backup.Backup.Changes.{Stats}

-- sStat(), sFopenRead() and BLAKE2
pub record Sources : Type 1 where
  pub stat : Bytes → Result Stats
  pub open_read : Bytes → Result Stream
  pub blake : Blake2

abbrev pub with_hash : RegularFileInfo → Bytes → RegularFileInfo
with_hash i hash = record i { hash = hash }

abbrev pub with_slot : RegularFileInfo → ℕ → RegularFileInfo
with_slot i slot = record i { slot = slot }

unfoldable pub copy_file_into_repo :
    Sources → Store → Bytes → Bytes → Bytes → RegularFileInfo → Stats → Result Store
copy_file_into_repo f store repo_path tmp path i stats = do
  reader ← f.open_read path
  (store', writer) ← repo_writer_open store repo_path tmp (info i)
  (writer', rest) ←
      read_blocks repo_writer_write (unexpected_end path) stats.st_blksize i.size i.size reader
        writer
  (if s_fbytes_left rest then die (file_changed path) else repo_writer_close store' writer')

-- The loop of equalsToStoredFile(): `files_equal`, `bytes_left` and the rest of the stream
unfoldable pub compare_loop : Bytes → ℕ → ℕ → ℕ → Stream → Stream → Result (Bool × ℕ × Stream)
compare_loop path blocksize zero bytes_left stream repo_stream =
    if bytes_left == 0 then ok (true, bytes_left, stream) else stuck
compare_loop path blocksize (suc fuel) bytes_left stream repo_stream =
    if bytes_left == 0 then ok (true, bytes_left, stream) else (do
      let n = bytes_to_read bytes_left blocksize
      (block, rest) ← s_fread (unexpected_end path) n stream
      (stored, repo_rest) ← s_fread (unexpected_end path) n repo_stream
      (if bytes_eq block stored
          then compare_loop path blocksize fuel (bytes_left - n) rest repo_rest
          else ok (false, bytes_left - n, rest)))

unfoldable pub equals_to_stored_file :
    Sources → Store → Bytes → Bytes → RegularFileInfo → Stats → Result Bool
unfolding compare_loop repo_reader_open_file
equals_to_stored_file f store repo_path path i stats = do
  stream ← f.open_read path
  capacity ← size_mul stats.st_blksize 2
  repo_stream ← repo_reader_open_file store repo_path path i
  (files_equal, bytes_left, rest) ←
      compare_loop path stats.st_blksize i.size i.size stream repo_stream
  (if bytes_left == 0 && s_fbytes_left rest then die (file_changed path) else ok files_equal)

-- The loop of searchFileDuplicates()
unfoldable pub search_loop :
    Sources → Store → Bytes → Bytes → ℕ → RegularFileInfo → Stats → Result (Bool × RegularFileInfo)
unfolding repo_regular_file_exists
search_loop f store repo_path path zero i stats = stuck
search_loop f store repo_path path (suc fuel) i stats =
    if not (repo_regular_file_exists store repo_path i) then ok (false, i) else (do
      equal ← equals_to_stored_file f store repo_path path i stats
      (if equal
          then ok (true, i)
          else if i.slot == 255
          then die slot_overflow
          else search_loop f store repo_path path fuel (with_slot i (i.slot + 1)) stats))

-- The slot number is a byte: 256 rounds are enough.
unfoldable pub search_file_duplicates :
    Sources → Store → Bytes → Bytes → RegularFileInfo → Stats → Result (Bool × RegularFileInfo)
unfolding search_loop
search_file_duplicates f store repo_path path i stats =
    search_loop f store repo_path path 256 (with_slot i 0) stats

-- `if(!(node->hint & BH_fresh_hash)) fileHash(...)`
unfoldable pub hashed_info :
    Sources → BackupHint → Bytes → RegularFileInfo → Stats → Result RegularFileInfo
hashed_info f hint path i stats =
    if bit_and hint bh_fresh_hash == 0
    then (do hash ← file_hash f.blake f.open_read path stats; ok (with_hash i hash))
    else ok i

-- "Store small files directly in its hash buffer."
unfoldable pub small_file_info : Sources → Bytes → RegularFileInfo → Result RegularFileInfo
small_file_info f path i = do
  stream ← f.open_read path
  (content, rest) ← s_fread (unexpected_end path) i.size stream
  (if s_fbytes_left rest
      then die (file_changed path)
      else ok (with_hash i (content ++ drop i.size i.hash)))

unfoldable pub add_file_to_repo :
    Sources
    → Store
    → Bytes
    → Bytes
    → BackupHint
    → Bytes
    → RegularFileInfo
    → Result (RegularFileInfo × Store)
add_file_to_repo f store repo_path tmp hint path i = do
  stats ← f.stat path
  (if not (i.modification_time == stats.st_mtime)
      then die (file_changed path)
      else if ltb file_hash_size i.size
      then (do
        i₁ ← hashed_info f hint path i stats
        (exists, i₂) ← search_file_duplicates f store repo_path path i₁ stats
        (if exists then ok (i₂, store) else (do
          store' ← copy_file_into_repo f store repo_path tmp path i₂ stats
          ok (i₂, store'))))
      else if bit_and hint bh_fresh_hash == 0
      then (do i₁ ← small_file_info f path i; ok (i₁, store))
      else ok (i, store))

-- "Handle only new regular files.", but for the type of the state
unfoldable pub is_new : BackupHint → RegularFileInfo → Bool
is_new hint i =
    ltb 0 i.size
    && (hint_no_pol hint == bh_added
        || hint_no_pol hint == bh_symlink_to_regular
        || hint_no_pol hint == bh_directory_to_regular
        || not (bit_and hint bh_content_changed == 0))

unfoldable pub finish_state :
    Sources → Store → Bytes → Bytes → BackupHint → Bytes → PathState → Result (PathState × Store)
finish_state f store repo_path tmp hint path (regular_file uid gid i) =
    if is_new hint i
    then (do
      (i', store') ← add_file_to_repo f store repo_path tmp hint path i
      ok (regular_file uid gid i', store'))
    else ok (regular_file uid gid i, store)
finish_state f store repo_path tmp hint path state = ok (state, store)

unfoldable pub finish_history :
    Sources
    → Store
    → Bytes
    → Bytes
    → BackupHint
    → Bytes
    → PathHistory
    → Result (PathHistory × Store)
finish_history f store repo_path tmp hint path [] = ok ([], store)
finish_history f store repo_path tmp hint path (point ∷ older) = do
  (state, store') ← finish_state f store repo_path tmp hint path point.state
  ok ((record point { state = state }) ∷ older, store')

unfoldable pub finish_backup_recursively :
    Sources → Bytes → Bytes → PathList → Store → Result (PathList × Store)
finish_backup_recursively f repo_path tmp null store = ok (null, store)
finish_backup_recursively f repo_path tmp (node n subnodes next) store = do
  (history, store₁) ← finish_history f store repo_path tmp n.hint n.path n.history
  (subnodes', store₂) ← finish_backup_recursively f repo_path tmp subnodes store₁
  (next', store₃) ← finish_backup_recursively f repo_path tmp next store₂
  ok (node (record n { history = history }) subnodes' next', store₃)

-- finishBackup(); `now` is sTime().
unfoldable pub finish_backup :
    Sources → Bytes → Bytes → Result ℕ → Metadata → Store → Result (Metadata × Store)
finish_backup f repo_path tmp now m store = do
  (paths, store') ← finish_backup_recursively f repo_path tmp m.paths store
  time ← now
  ok (
    record m { paths = paths; current_backup = record m.current_backup { completion_time = time } },
    store',
  )
