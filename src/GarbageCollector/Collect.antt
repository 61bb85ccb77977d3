-- ===== src/GarbageCollector/Collect.antt =====
-- sRemoveRecursivelyIf() of src/safe-wrappers.c on a tree of files, and collectGarbageProgress() of
-- src/garbage-collector.c. An item stands for what its directory and lstat() say of it.
use nano_backup.Prelude.{ℕ, Bool, true, false, ◌&&◌, if◌then◌else◌, Result, ok, ◌>>=◌}
use nano_backup.Str.{Bytes, str, append_path}
use nano_backup.Metadata.{PathList}
use nano_backup.GarbageCollector.{GcStatistics, should_be_removed, paths_to_preserve}

-- `other_item name is_regular size next` is a file or a symlink, `directory_item name size items next`
-- a directory with its items.
pub data Items : Type 0 where
  no_item : Items
  other_item : Bytes → Bool → ℕ → Items → Items
  directory_item : Bytes → ℕ → Items → Items → Items

-- should_remove(), with the statistics in its user data
abbrev pub ShouldRemove : Type 0
ShouldRemove = GcStatistics → Bytes → Bool → ℕ → Result (Bool × GcStatistics)

-- removeRecursivelyIf() on each item of a directory: whether all are removed, and what is left
unfoldable pub remove_items :
    ShouldRemove → Bytes → Items → GcStatistics → Result (Bool × Items × GcStatistics)
remove_items should_remove dir no_item s = ok (true, no_item, s)
remove_items should_remove dir (other_item name is_regular size next) s = do
  path ← append_path (str dir) (str name)
  (removed, s₁) ← should_remove s path.content is_regular size
  (all_removed, next', s₂) ← remove_items should_remove dir next s₁
  ok (removed && all_removed, if removed then next' else other_item name is_regular size next', s₂)
remove_items should_remove dir (directory_item name size items next) s = do
  path ← append_path (str dir) (str name)
  (is_empty, items', s₁) ← remove_items should_remove path.content items s
  (removed, s₂) ← (if is_empty then should_remove s₁ path.content false size else ok (false, s₁))
  (all_removed, next', s₃) ← remove_items should_remove dir next s₂
  ok (removed && all_removed, if removed then next' else directory_item name size items' next', s₃)

-- collectGarbageProgress(): the items that are left, and the statistics
unfoldable pub collect_garbage :
    (Bytes → Bytes → ℕ) → Bytes → Bytes → PathList → Items → Result (Items × GcStatistics)
collect_garbage siphash secret_key repo_path nodes items = do
  table ← paths_to_preserve siphash secret_key nodes
  (all_removed, items', statistics) ←
      remove_items (should_be_removed siphash table repo_path) repo_path items
        (record { deleted_items_count = 0; deleted_items_total_size = 0 })
  ok (items', statistics)
