-- ===== src/Integrity.antt =====
-- src/integrity.c: which nodes have a stored file that is broken. The pointers 0x1 and 0x2 of the
-- cache are `true` and `false`, the context is the total size and the cache, and the list of broken
-- nodes is passed on. The progress callback is left out: it gets numbers only. The stored files are
-- those of a `Store`; `blksize` is the st_blksize of the file system and `blake` is BLAKE2.
pub mod Files
pub mod Points
pub mod Cache
pub mod Outcome
use nano_backup.Prelude.{
  ℕ, Bool, true, false, not, List, [], ◌∷◌, ltb, ◌==◌, length, bytes_eq, if◌then◌else◌, Option,
  none, some, Result, ok, die, ◌>>=◌, cannot_open, cannot_access,
}
use nano_backup.SafeMath.{uint64_add}
use nano_backup.Str.{Bytes, str, append_path}
use nano_backup.Metadata.{
  PathState, non_existing, regular_file, symlink, directory, RegularFileInfo, Point, PathHistory,
  Node, PathList, null, node, Metadata, file_hash_size,
}
use nano_backup.Streams.{Stream}
use nano_backup.FileHash.{Blake2, file_hash}
use nano_backup.Repository.{build_file_path}
use nano_backup.Repository.Store.{Store, Item, file, folder}
use nano_backup.StringTable.{StringTable, str_table_new, str_table_map, str_table_get}
use nano_backup.Backup.Changes.{Stats}
use nano_backup.Restore.{s_isreg}

-- sLStat() and sFopenRead() on an item of the repository: 0100644 and 040755 with the owner root
abbrev pub item_stats : ℕ → Item → Stats
item_stats blksize (file content) = record {
  st_uid = 0;
  st_gid = 0;
  st_mode = 33188;
  st_mtime = 0;
  st_size = length content;
  st_blksize = blksize;
}
item_stats blksize folder = record {
  st_uid = 0;
  st_gid = 0;
  st_mode = 16877;
  st_mtime = 0;
  st_size = 0;
  st_blksize = blksize;
}

abbrev opened_item : Bytes → Option Item → Result Stream
opened_item path (some (file content)) = ok content
opened_item path _ = die (cannot_open path)

abbrev pub s_fopen_read : Store → Bytes → Result Stream
s_fopen_read store path = opened_item path (store path)

abbrev pub check_item : Blake2 → ℕ → Store → Bytes → RegularFileInfo → Option Item → Result Bool
check_item blake blksize store path i none = ok false
check_item blake blksize store path i (some item) =
    let stats = item_stats blksize item in
    if not (s_isreg stats.st_mode)
    then ok false
    else if not (stats.st_size == i.size)
    then ok false
    else (do hash ← file_hash blake (s_fopen_read store) path stats; ok (bytes_eq i.hash hash))

unfoldable pub stored_file_is_healthy :
    Blake2 → ℕ → Store → Bytes → RegularFileInfo → Bytes → Result Bool
stored_file_is_healthy blake blksize store repo_path i unique_subpath = do
  path_to_stored_file ← append_path (str repo_path) (str unique_subpath)
  check_item blake blksize store path_to_stored_file.content i (store path_to_stored_file.content)

-- A CheckFileCallback gets and gives back the total size.
abbrev pub CheckFileCallback : Type 0
CheckFileCallback = ℕ → RegularFileInfo → Bytes → Result (Bool × ℕ)

unfoldable pub add_to_total_file_size : CheckFileCallback
add_to_total_file_size total i ignored = do total' ← uint64_add total i.size; ok (true, total')

unfoldable pub check_stored_file : Blake2 → ℕ → Store → Bytes → CheckFileCallback
check_stored_file blake blksize store repo_path total i unique_subpath = do
  healthy ← stored_file_is_healthy blake blksize store repo_path i unique_subpath
  ok (healthy, total)

pub record Context : Type 0 where
  pub cache : StringTable Bool
  pub files_to_check_total_size : ℕ

abbrev pub BrokenNodes : Type 0
BrokenNodes = List Node

module _ (siphash : Bytes → Bytes → ℕ) where
  -- The rest of historyPointIsHealthy() behind the call of strTableGet()
  unfoldable pub check_uncached :
      CheckFileCallback → Context → RegularFileInfo → Option Bool → Result (Bool × Context)
  check_uncached check_file ctx i (some cached_result) = ok (cached_result, ctx)
  check_uncached check_file ctx i none = do
    (is_healthy, total) ← check_file ctx.files_to_check_total_size i (build_file_path i)
    cache ← str_table_map siphash ctx.cache (build_file_path i) is_healthy
    ok (is_healthy, record { cache = cache; files_to_check_total_size = total })

  unfoldable pub history_point_is_healthy :
      CheckFileCallback → Context → PathState → Result (Bool × Context)
  unfolding check_uncached
  history_point_is_healthy check_file ctx (regular_file uid gid i) =
      if not (ltb file_hash_size i.size)
      then ok (true, ctx)
      else check_uncached check_file ctx i (str_table_get siphash ctx.cache (build_file_path i))
  history_point_is_healthy check_file ctx state = ok (true, ctx)

  -- The loop over the points: it ends at the first that is broken.
  unfoldable pub history_is_healthy :
      CheckFileCallback → Context → PathHistory → Result (Bool × Context)
  history_is_healthy check_file ctx [] = ok (true, ctx)
  history_is_healthy check_file ctx (point ∷ rest) = do
    (is_healthy, ctx') ← history_point_is_healthy check_file ctx point.state
    (if is_healthy then history_is_healthy check_file ctx' rest else ok (false, ctx'))

  unfoldable pub check_integrity_recursively :
      CheckFileCallback → PathList → Context → BrokenNodes → Result (BrokenNodes × Context)
  check_integrity_recursively check_file null ctx broken_nodes = ok (broken_nodes, ctx)
  check_integrity_recursively check_file (node n subnodes next) ctx broken_nodes = do
    (is_healthy, ctx₁) ← history_is_healthy check_file ctx n.history
    (broken₂, ctx₂) ←
        check_integrity_recursively check_file subnodes ctx₁
          (if is_healthy then broken_nodes else n ∷ broken_nodes)
    check_integrity_recursively check_file next ctx₂ broken₂

  -- checkIntegrity(): the dry run for the total size and the real check, each with a new cache whose
  -- secret key is random
  unfoldable pub check_integrity :
      Blake2 → ℕ → Store → Bytes → Bytes → Bytes → Metadata → Result BrokenNodes
  check_integrity blake blksize store repo_path secret_key secret_key' m = do
    (none_broken, ctx) ←
        check_integrity_recursively add_to_total_file_size m.paths
          (record { cache = str_table_new secret_key; files_to_check_total_size = 0 }) []
    (broken_nodes, ctx') ←
        check_integrity_recursively (check_stored_file blake blksize store repo_path) m.paths
          (record {
            cache = str_table_new secret_key';
            files_to_check_total_size = ctx.files_to_check_total_size;
          })
          none_broken
    ok broken_nodes
