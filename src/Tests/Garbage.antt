-- ===== src/Tests/Garbage.antt =====
-- Instances of the theorems on garbage collection: one stored file in the repository "/r".
use nano_backup.Prelude.{
  ℕ, ◌+◌, ◌*◌, ◌^◌, ◌<◌, ◌≡◌, refl, arith, true, not, [], ◌∷◌, ◌++◌, length, ok,
}
use nano_backup.Str.{Bytes, slash}
use nano_backup.Hint.{bh_none, bpol_track}
use nano_backup.Metadata.{Point, PathList, null, node, current, regular_file}
use nano_backup.Repository.{build_file_path}
use nano_backup.GarbageCollector.{
  config_name, PathTable, GcStatistics, paths_to_preserve, should_be_removed,
}
use nano_backup.GarbageCollector.Referenced.{refers, count_all_points}
use nano_backup.GarbageCollector.Removed.{is_needed, should_be_removed_lem}
use nano_backup.GarbageCollector.Collect.{
  Items, no_item, other_item, directory_item, collect_garbage,
}
use nano_backup.GarbageCollector.Remaining.{
  count_items, size_items, file_paths, filter, Short, IsTidy,
}
use nano_backup.GarbageCollector.Collected.{is_needed_below, collect_garbage_lem}

abbrev zero_bytes : Bytes
zero_bytes = 0 ∷ 0 ∷ 0 ∷ 0 ∷ 0 ∷ 0 ∷ 0 ∷ 0 ∷ 0 ∷ 0 ∷ 0 ∷ 0 ∷ 0 ∷ 0 ∷ 0 ∷ 0 ∷ 0 ∷ 0 ∷ []

abbrev stored_file : Point
stored_file = record {
  backup = current;
  state = regular_file 1 2 (record {
    permission_bits = 420;
    modification_time = 9;
    size = 30;
    hash = 171 ∷ 205 ∷ zero_bytes;
    slot = 0;
  });
}

abbrev stored_nodes : PathList
stored_nodes =
    node
      (record {
        path = slash ∷ b'f' ∷ [];
        hint = bh_none;
        policy = bpol_track;
        history = stored_file ∷ [];
      })
      null null

abbrev no_statistics : GcStatistics
no_statistics = record { deleted_items_count = 0; deleted_items_total_size = 0 }

-- The length of a key as its hash
abbrev key_length : Bytes → Bytes → ℕ
key_length key secret_key = length key

stored_room : (count_all_points stored_nodes + 3) * 32 + 512 < 2 ^ 64
unfolding count_all_points
stored_room = omega arith

should_be_removed_lem_example :
    (table : PathTable) × (statistics' : GcStatistics) × (paths_to_preserve key_length []
        stored_nodes
      ≡ ok table)
    × (should_be_removed key_length table
          (slash ∷ b'r' ∷ [])
          no_statistics
          ((slash ∷ b'r' ∷ []) ++ (slash ∷ (b'o' ∷ [])))
          true
          5
        ≡ ok (not (is_needed stored_nodes (b'o' ∷ [])), statistics'))
should_be_removed_lem_example =
    should_be_removed_lem key_length [] (slash ∷ b'r' ∷ []) (b'o' ∷ []) stored_nodes no_statistics
      true 5 stored_room (omega arith) (omega arith)

stored_path :
    build_file_path (record {
      permission_bits = 420;
      modification_time = 9;
      size = 30;
      hash = 171 ∷ 205 ∷ 7 ∷ [];
      slot = 0;
    })
    ≡ b'a' ∷ slash ∷ b'b' ∷ b'c' ∷ slash ∷ b'd' ∷ b'0' ∷ b'7' ∷ b'x' ∷ b'1' ∷ b'e' ∷ b'x' ∷ b'0'
      ∷ []
unfolding build_file_path
stored_path = refl

abbrev repository_path : Bytes
repository_path = slash ∷ b'r' ∷ []

-- "config" with 5 bytes, and a directory "d" with the file "o" of 7 bytes
abbrev repository_items : Items
repository_items =
    other_item config_name true 5
      (directory_item (b'd' ∷ []) 4096 (other_item (b'o' ∷ []) true 7 no_item) no_item)

repository_items-Short : Short repository_path repository_items
repository_items-Short = (omega arith, (omega arith, (omega arith, tt), tt))

collect_garbage_lem_example :
    (items' : Items) × (statistics : GcStatistics) × (collect_garbage key_length [] repository_path
        stored_nodes repository_items
      ≡ ok (items', statistics))
    × (file_paths repository_path items'
        ≡ filter
            (is_needed_below stored_nodes repository_path)
            (file_paths repository_path repository_items))
    × IsTidy repository_path (is_needed_below stored_nodes repository_path) repository_path items'
    × (statistics.deleted_items_count + count_items items' ≡ count_items repository_items)
    × (statistics.deleted_items_total_size + size_items items' ≡ size_items repository_items)
collect_garbage_lem_example =
    collect_garbage_lem key_length [] repository_path stored_nodes repository_items stored_room
      repository_items-Short (omega arith) (omega arith)

collected :
    filter
      (is_needed_below stored_nodes repository_path)
      (file_paths repository_path repository_items)
    ≡ (repository_path ++ (slash ∷ config_name)) ∷ []
unfolding refers nano_backup.Prelude.bytes_eq nano_backup.Metadata.Codec.is_kept
    nano_backup.Hint.hint_no_pol build_file_path
collected = refl
