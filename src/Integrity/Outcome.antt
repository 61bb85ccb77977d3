-- ===== src/Integrity/Outcome.antt =====
-- checkIntegrity() of src/integrity.c against a check without caches.
use nano_backup.Prelude.{
  ℕ, ◌+◌, ◌*◌, ◌^◌, ◌<◌, ◌≡◌, refl, arith, Bool, true, false, [], ◌∷◌, ok, length, ltb, lt→ltb,
}
use nano_backup.SafeMath.Bounds.{uint64_add_exact}
use nano_backup.Str.{Bytes}
use nano_backup.Metadata.{
  PathState, non_existing, regular_file, symlink, directory, RegularFileInfo, PathHistory, PathList,
  null, node, Metadata,
}
use nano_backup.Streams.Blocks.{IsAppending}
use nano_backup.FileHash.{Blake2}
use nano_backup.Repository.Store.{Store, path_with_info}
use nano_backup.StringTable.{str_table_new}
use nano_backup.StringTable.Placement.{str_table_new_lem}
use nano_backup.StringTable.Values.{AllChains-empty_buckets}
use nano_backup.GarbageCollector.Referenced.{count_all_points}
use nano_backup.Integrity.{add_to_total_file_size, check_stored_file, check_integrity}
use nano_backup.Integrity.Files.{is_intact_in, stored_file_is_healthy-is_intact}
use nano_backup.Integrity.Points.{is_broken, has_broken, broken_nodes, total_size, AllInfos}
use nano_backup.Integrity.Cache.{
  IsStable, Checks, Agrees, IsContext, check_integrity_recursively-Checked,
}

add_to_total_file_size-Checks : Checks (2 ^ 64) add_to_total_file_size (λ i. true)
unfolding add_to_total_file_size
add_to_total_file_size-Checks total i h b =
    let below : ltb (total + i.size) (2 ^ 64) ≡ true = lt→ltb (total + i.size) (2 ^ 64) b in
    (
      total + i.size,
      rw (uint64_add_exact total i.size (omega arith) h.size_bound, below) refl,
      omega arith,
    )

check_stored_file-Checks :
    (blake : Blake2) (blksize limit : ℕ) (store : Store) (repo_path : Bytes)
    → IsAppending blake.update
    → 0 < blksize
    → length repo_path + 100 < 2 ^ 64
    → Checks limit
        (check_stored_file blake blksize store repo_path)
        (is_intact_in blake store repo_path)
unfolding check_stored_file
check_stored_file-Checks blake blksize limit store repo_path a b short total i h t = (
  total,
  rw (stored_file_is_healthy-is_intact blake blksize store repo_path i a b short h) refl,
  omega arith,
)

is_intact_in-IsStable :
    (blake : Blake2) (store : Store) (repo_path : Bytes)
    → IsStable (is_intact_in blake store repo_path)
unfolding path_with_info
is_intact_in-IsStable blake store repo_path i j path hash size = rw (path, hash, size) refl

new-IsContext :
    (siphash : Bytes → Bytes → ℕ) (healthy : RegularFileInfo → Bool) (secret_key : Bytes)
    (total : ℕ)
    → IsContext siphash healthy
        (record { cache = str_table_new secret_key; files_to_check_total_size = total })
new-IsContext siphash healthy secret_key total = record {
  table = (str_table_new_lem siphash secret_key []).0;
  values = AllChains-empty_buckets (Agrees healthy) 32;
}

none_broken_history : (history : PathHistory) → has_broken (λ i. true) history ≡ false
none_broken_history [] = refl
none_broken_history (point ∷ rest) =
    rw (none_broken_state point.state, none_broken_history rest) refl
  where
    none_broken_state : (state : PathState) → is_broken (λ i. true) state ≡ false
    none_broken_state non_existing = refl
    none_broken_state (symlink uid gid target) = refl
    none_broken_state (directory uid gid i) = refl
    none_broken_state (regular_file uid gid i) = ground arith

none_broken : (list : PathList) → broken_nodes (λ i. true) list [] ≡ []
none_broken null = refl
none_broken (node n subnodes next) =
    rw (none_broken_history n.history, none_broken subnodes, none_broken next) refl

-- checkIntegrity() has a result, and it is the list of the nodes that have, at any point of their
-- history, a regular file of more than 20 bytes for which the repository does not hold a regular
-- file with its size and its hash, under the path of its info; the last node of the tree comes
-- first. So the cache changes nothing. All infos fit the program's types, the sizes of all files at
-- all points do not add up to 2 ^ 64, there is room for a table with all points, the path of the
-- repository fits a string, blocks are not empty and BLAKE2 gets a text in two parts as the whole.
pub check_integrity-broken_nodes :
    (siphash : Bytes → Bytes → ℕ) (blake : Blake2) (blksize : ℕ) (store : Store)
    (repo_path secret_key secret_key' : Bytes) (m : Metadata)
    → IsAppending blake.update
    → 0 < blksize
    → length repo_path + 100 < 2 ^ 64
    → AllInfos m.paths
    → count_all_points m.paths * 32 + 512 < 2 ^ 64
    → total_size m.paths < 2 ^ 64
    → check_integrity siphash blake blksize store repo_path secret_key secret_key' m
      ≡ ok (broken_nodes (is_intact_in blake store repo_path) m.paths [])
unfolding check_integrity
check_integrity-broken_nodes siphash blake blksize store repo_path secret_key secret_key' m a b
      short h points total =
    let all = λ (i : RegularFileInfo). true in
    let intact = is_intact_in blake store repo_path in
    let dry =
      check_integrity_recursively-Checked siphash all (2 ^ 64) add_to_total_file_size
        (λ i j path hash size. refl) add_to_total_file_size-Checks m.paths
        (record { cache = str_table_new secret_key; files_to_check_total_size = 0 }) []
        (new-IsContext siphash all secret_key 0) h (omega arith) (omega arith) in
    let (ctx, e, c, n, s) = dry in
    let (ctx', e', c', n', s') =
      check_integrity_recursively-Checked siphash intact (2 ^ 65)
        (check_stored_file blake blksize store repo_path)
        (is_intact_in-IsStable blake store repo_path)
        (check_stored_file-Checks blake blksize (2 ^ 65) store repo_path a b short) m.paths
        (record {
          cache = str_table_new secret_key';
          files_to_check_total_size = ctx.files_to_check_total_size;
        })
        [] (new-IsContext siphash intact secret_key' ctx.files_to_check_total_size) h (omega arith)
        (omega arith) in
    rw (e, none_broken m.paths, e') refl
