-- ===== src/GarbageCollector/Collected.antt =====
-- collectGarbageProgress() of src/garbage-collector.c: what is left of a repository.
use nano_backup.Prelude.{ℕ, ◌+◌, ◌*◌, ◌^◌, ◌<◌, ◌≡◌, refl, arith, Bool, not, inl, ok}
use nano_backup.Prelude.{length, drop, subst, ◌++◌, ◌∷◌}
use nano_backup.Str.{Bytes, slash}
use nano_backup.Str.Split.{drop_behind}
use nano_backup.Metadata.{PathList}
use nano_backup.GarbageCollector.{GcStatistics, should_be_removed}
use nano_backup.GarbageCollector.Referenced.{count_all_points, has}
use nano_backup.GarbageCollector.Removed.{
  is_needed, asked, paths_to_preserve_lem, should_be_removed_path,
}
use nano_backup.GarbageCollector.Collect.{Items, collect_garbage}
use nano_backup.GarbageCollector.Remaining.{
  count_items, size_items, file_paths, filter, Short, Decides, IsTidy, remove_items-Remains,
}

-- The nodes need the item, from its path with that of the repository
abbrev pub is_needed_below : PathList → Bytes → Bytes → Bool
is_needed_below nodes repo_path path = is_needed nodes (drop (length repo_path + 1) path)

-- Of a directory with the files and directories `items`, collectGarbage() has a result when the
-- points of all nodes, the paths, the number of the items and the sizes of the files are in range.
-- The files that are left are, in their order, "config", "metadata", "lockfile" and the stored files
-- to which a node refers; a directory that is left has something left in it, or such a path itself;
-- and the statistics are the number and the size of what is missing.
pub collect_garbage_lem :
    (siphash : Bytes → Bytes → ℕ) (secret_key repo_path : Bytes) (nodes : PathList) (items : Items)
    → (count_all_points nodes + 3) * 32 + 512 < 2 ^ 64
    → Short repo_path items
    → count_items items < 2 ^ 64
    → size_items items < 2 ^ 64
    → (items' : Items) × (statistics : GcStatistics) × (collect_garbage siphash secret_key repo_path
          nodes items
        ≡ ok (items', statistics))
      × (file_paths repo_path items'
          ≡ filter (is_needed_below nodes repo_path) (file_paths repo_path items))
      × IsTidy repo_path (is_needed_below nodes repo_path) repo_path items'
      × (statistics.deleted_items_count + count_items items' ≡ count_items items)
      × (statistics.deleted_items_total_size + size_items items' ≡ size_items items)
unfolding collect_garbage
collect_garbage_lem siphash secret_key repo_path nodes items b short c d =
    let (table, built, found) = paths_to_preserve_lem siphash secret_key nodes b in
    let needed = is_needed_below nodes repo_path in
    let decides : Decides repo_path needed (should_be_removed siphash table repo_path) =
      λ s path is_regular size below c d.
        let (p, e) = below in
        let same : has siphash table p ≡ needed path =
          rw (e, drop_behind repo_path slash p) (found p) in
        rw (e) (
          subst
            (λ b.
              should_be_removed siphash table repo_path s (repo_path ++ (slash ∷ p)) is_regular size
              ≡ ok (not b, asked b s is_regular size))
            (subst (λ q. has siphash table p ≡ needed q) e same)
            (should_be_removed_path siphash table repo_path p s is_regular size c d)) in
    let (items', s, e, (files, tidy, count, total)) =
      remove_items-Remains repo_path needed (should_be_removed siphash table repo_path) decides
        items repo_path (record { deleted_items_count = 0; deleted_items_total_size = 0 })
        (inl refl) short (omega arith) (omega arith) in
    (items', s, rw (built, e) refl, files, tidy, omega arith, omega arith)
