-- ===== src/GarbageCollector.antt =====
-- src/garbage-collector.c: which items of a repository are removed. The table of paths that are kept
-- has the value `tt` for the pointer 0x1. The progress callback is left out: it gets numbers only.
pub mod Referenced
pub mod Removed
pub mod Collect
pub mod Remaining
pub mod Collected
use nano_backup.Prelude.{
  ℕ, ◌+◌, ◌-◌, Bool, true, false, not, ◌&&◌, List, [], ◌∷◌, ltb, if◌then◌else◌, Result, ok, ◌>>=◌,
  length, drop,
}
use nano_backup.SafeMath.{size_add}
use nano_backup.Str.{Bytes, str_unterminated}
use nano_backup.Metadata.{
  PathState, non_existing, regular_file, symlink, directory, Point, PathHistory, PathList, null,
  node, file_hash_size,
}
use nano_backup.Metadata.Codec.{is_kept}
use nano_backup.Repository.{build_file_path}
use nano_backup.StringTable.{StringTable, str_table_new, str_table_map, str_table_get}
use nano_backup.StringTable.Keys.{is_some}

abbrev pub PathTable : Type 0
PathTable = StringTable (Unit {0})

-- GCStatistics of src/garbage-collector.h
pub record GcStatistics : Type 0 where
  pub deleted_items_count : ℕ
  pub deleted_items_total_size : ℕ

-- "config", "metadata" and "lockfile"
abbrev pub config_name : Bytes
config_name = b'c' ∷ b'o' ∷ b'n' ∷ b'f' ∷ b'i' ∷ b'g' ∷ []

abbrev pub metadata_name : Bytes
metadata_name = b'm' ∷ b'e' ∷ b't' ∷ b'a' ∷ b'd' ∷ b'a' ∷ b't' ∷ b'a' ∷ []

abbrev pub lockfile_name : Bytes
lockfile_name = b'l' ∷ b'o' ∷ b'c' ∷ b'k' ∷ b'f' ∷ b'i' ∷ b'l' ∷ b'e' ∷ []

module _ (siphash : Bytes → Bytes → ℕ) where
  -- The last lines of the loop over the points
  unfoldable pub add_path : PathTable → Bytes → Result PathTable
  unfolding str_table_map str_table_get
  add_path table path =
      if is_some (str_table_get siphash table path)
      then ok table
      else str_table_map siphash table path tt

  unfoldable pub add_state : PathTable → PathState → Result PathTable
  unfolding add_path build_file_path
  add_state table (regular_file uid gid info) =
      if ltb file_hash_size info.size then add_path table (build_file_path info) else ok table
  add_state table _ = ok table

  unfoldable pub add_history : PathTable → PathHistory → Result PathTable
  unfolding add_state
  add_history table [] = ok table
  add_history table (point ∷ rest) = do
    table' ← add_state table point.state
    add_history table' rest

  unfoldable pub populate_table_recursively : PathTable → PathList → Result PathTable
  unfolding add_history is_kept
  populate_table_recursively table null = ok table
  populate_table_recursively table (node n subnodes next) =
      if not (is_kept n) then populate_table_recursively table next else (do
        table₁ ← add_history table n.history
        table₂ ← populate_table_recursively table₁ subnodes
        populate_table_recursively table₂ next)

  -- The first part of collectGarbageProgress(): the table paths_to_preserve
  unfoldable pub paths_to_preserve : Bytes → PathList → Result PathTable
  unfolding populate_table_recursively
  paths_to_preserve secret_key paths = do
    table₁ ← str_table_map siphash (str_table_new secret_key) config_name tt
    table₂ ← str_table_map siphash table₁ metadata_name tt
    table₃ ← str_table_map siphash table₂ lockfile_name tt
    populate_table_recursively table₃ paths

  -- shouldBeRemoved(): the answer and the new statistics
  unfoldable pub should_be_removed :
      PathTable → Bytes → GcStatistics → Bytes → Bool → ℕ → Result (Bool × GcStatistics)
  unfolding str_table_get
  should_be_removed table repo_path statistics path is_regular st_size =
      let path_relative_to_repo =
        str_unterminated (drop (length repo_path + 1) path) (length path - length repo_path - 1) in
      if is_some (str_table_get siphash table path_relative_to_repo.content)
      then ok (false, statistics)
      else (do
        count ← size_add statistics.deleted_items_count 1
        total ←
            (if is_regular
              then size_add statistics.deleted_items_total_size st_size
              else ok statistics.deleted_items_total_size)
        ok (true, record { deleted_items_count = count; deleted_items_total_size = total }))
