-- ===== src/Metadata/Codec.antt =====
-- The writing half of src/metadata.c. A RepoWriter is what was written through it: each function
-- gives the bytes that it appends. A count of list elements is below 2 ^ 64, as the list is in
-- memory, so the overflow test of its sSizeAdd() cannot fire and is left out.
-- Integers are written in little-endian order, which convertEndian32() and convertEndian64() give
-- on every host; the conversion itself is not modelled.
use nano_backup.Prelude.{ℕ, zero, suc, ◌/◌, ◌%◌, Bool, List, [], ◌∷◌, ◌++◌}
use nano_backup.Prelude.{ltb, ◌==◌, not, if◌then◌else◌, length}
use nano_backup.Str.{Bytes, split_path, str}
use nano_backup.Hint.{hint_no_pol, bh_not_part_of_repository}
use nano_backup.Metadata.{
  file_hash_size, RegularFileInfo, PathState, non_existing, regular_file, symlink, directory,
  type_of, Backup, Point, PathHistory, Node, PathList, null, node, Metadata, backup_at,
}

-- The low `k` bytes of a number, the lowest first.
unfoldable pub le_bytes : ℕ → ℕ → Bytes
le_bytes zero v = []
le_bytes (suc k) v = (v % 256) ∷ le_bytes k (v / 256)

unfoldable pub write8 : ℕ → Bytes
write8 value = (value % 256) ∷ []

unfoldable pub write32 : ℕ → Bytes
write32 value = le_bytes 4 value

unfoldable pub write64 : ℕ → Bytes
write64 value = le_bytes 8 value

-- The hash buffer and slot of a file, by its size.
unfoldable pub write_hash : RegularFileInfo → Bytes
write_hash info =
    if ltb file_hash_size info.size
    then info.hash ++ write8 info.slot
    else if ltb 0 info.size
    then info.hash
    else []

unfoldable pub write_state : PathState → Bytes
unfolding write_hash
write_state non_existing = []
write_state (regular_file uid gid info) =
    write32 uid
    ++ (write32 gid
        ++ (write32 info.permission_bits
            ++ (write64 info.modification_time ++ (write64 info.size ++ write_hash info))))
write_state (symlink uid gid target) =
    write32 uid ++ (write32 gid ++ (write64 (length target) ++ target))
write_state (directory uid gid info) =
    write32 uid ++ (write32 gid ++ (write32 info.permission_bits ++ write64 info.modification_time))

unfoldable pub write_point : Metadata → Point → Bytes
unfolding write_state
write_point m point =
    write64 (backup_at m point.backup).id
    ++ (write8 (type_of point.state) ++ write_state point.state)

unfoldable pub write_points : Metadata → PathHistory → Bytes
unfolding write_point
write_points m [] = []
write_points m (point ∷ rest) = write_point m point ++ write_points m rest

unfoldable pub write_path_history_list : Metadata → PathHistory → Bytes
unfolding write_points
write_path_history_list m points = write64 (length points) ++ write_points m points

-- backupHintNoPol(node->hint) != BH_not_part_of_repository
unfoldable pub is_kept : Node → Bool
is_kept n = not (hint_no_pol n.hint == bh_not_part_of_repository)

-- strSplitPath(node->path).tail
unfoldable pub name_of : Node → Bytes
name_of n = (split_path (str n.path)).tail.content

-- The first loop of writePathList()
unfoldable pub count_kept : PathList → ℕ
unfolding is_kept
count_kept null = 0
count_kept (node n subnodes next) =
    let rest = count_kept next in if is_kept n then suc rest else rest

-- The second loop, for a function that writes the subnodes.
unfoldable pub write_node : Metadata → Node → Bytes → Bytes
unfolding name_of write_path_history_list
write_node m n subnodes =
    (write64 (length (name_of n)) ++ name_of n)
    ++ (write8 n.policy ++ (write_path_history_list m n.history ++ subnodes))

unfoldable pub write_nodes : Metadata → PathList → Bytes
unfolding is_kept write_node count_kept
write_nodes m null = []
write_nodes m (node n subnodes next) =
    let written = write_node m n (write64 (count_kept subnodes) ++ write_nodes m subnodes) in
    let rest = write_nodes m next in if is_kept n then written ++ rest else rest

unfoldable pub write_path_list : Metadata → PathList → Bytes
unfolding count_kept write_nodes
write_path_list m list = write64 (count_kept list) ++ write_nodes m list

-- The loop of metadataWrite() that updates the ids.
unfoldable pub renumber : ℕ → List Backup → List Backup
renumber id_counter [] = []
renumber id_counter (b ∷ rest) =
    (if ltb 0 b.ref_count then record b { id = id_counter } else b)
    ∷ renumber (if ltb 0 b.ref_count then suc id_counter else id_counter) rest

-- The value of id_counter behind it
unfoldable pub count_referenced : List Backup → ℕ
count_referenced [] = 0
count_referenced (b ∷ rest) =
    let more = count_referenced rest in if ltb 0 b.ref_count then suc more else more

unfoldable pub write_times : List Backup → Bytes
write_times [] = []
write_times (b ∷ rest) =
    let more = write_times rest in
    if ltb 0 b.ref_count then write64 b.completion_time ++ more else more

-- metadataWrite(): the metadata with its new ids, and the content of the file.
unfoldable pub with_ids : Metadata → Metadata
unfolding renumber
with_ids m = record m {
  backup_history = renumber (if ltb 0 m.current_backup.ref_count then 1 else 0) m.backup_history;
}

unfoldable pub metadata_write : Metadata → Bytes
unfolding with_ids count_referenced write_times write_path_history_list write_path_list
metadata_write m =
    let backups = m.current_backup ∷ m.backup_history in
    write64 (count_referenced backups)
    ++ (write_times backups
        ++ (write_path_history_list (with_ids m) m.config_history
            ++ (write64 m.total_path_count ++ write_path_list (with_ids m) m.paths)))
