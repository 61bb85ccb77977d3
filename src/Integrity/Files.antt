-- ===== src/Integrity/Files.antt =====
-- storedFileIsHealthy() of src/integrity.c: its result for the items of a repository.
use nano_backup.Prelude.{
  ℕ, ◌+◌, ◌^◌, ◌<◌, ◌≡◌, refl, arith, Bool, false, ◌&&◌, Bool-cases, ◌∷◌, ◌++◌, ◌==◌, length,
  bytes_eq, Option, some, Option-cases, inl, inr, ok,
}
use nano_backup.SafeMath.Bounds.{size_add-eq-ok}
use nano_backup.Str.{Bytes, slash, append_path}
use nano_backup.Metadata.{RegularFileInfo}
use nano_backup.Streams.Blocks.{IsAppending}
use nano_backup.FileHash.{Blake2, file_hash-WholeHash}
use nano_backup.Repository.{build_file_path}
use nano_backup.Repository.Store.{Store, Item, file, folder, path_with_info}
use nano_backup.Repository.Paths.{IsInfo, length-build_file_path}
use nano_backup.Integrity.{item_stats, s_fopen_read, check_item, stored_file_is_healthy}

-- A regular file with the size and the hash of the info
abbrev pub is_intact : Blake2 → RegularFileInfo → Option Item → Bool
is_intact blake i (some (file content)) =
    length content == i.size && bytes_eq i.hash (blake.final (blake.update blake.init content))
is_intact blake i _ = false

abbrev pub is_intact_in : Blake2 → Store → Bytes → RegularFileInfo → Bool
is_intact_in blake store repo_path i = is_intact blake i (store (path_with_info repo_path i))

check_file-is_intact :
    (blake : Blake2) (blksize : ℕ) (store : Store) (path content : Bytes) (i : RegularFileInfo)
    → IsAppending blake.update
    → 0 < blksize
    → store path ≡ some (file content)
    → check_item blake blksize store path i (some (file content))
      ≡ ok (is_intact blake i (some (file content)))
check_file-is_intact blake blksize store path content i a b there =
    elim (Bool-cases (length content == i.size)) [
      | inl same ↦
          let hash =
            (file_hash-WholeHash blake (s_fopen_read store) path content
                (item_stats blksize (file content)) a (rw there refl) b).0
              refl in
          rw (same, hash) refl
      | inr other ↦ rw other refl
    ]

-- storedFileIsHealthy() says whether a regular file with the size and the hash of the info stands
-- in the repository under the path of the info. BLAKE2 gets a text in two parts as it gets the
-- whole, blocks are not empty, and the path of the repository is short enough for a string.
pub stored_file_is_healthy-is_intact :
    (blake : Blake2) (blksize : ℕ) (store : Store) (repo_path : Bytes) (i : RegularFileInfo)
    → IsAppending blake.update
    → 0 < blksize
    → length repo_path + 100 < 2 ^ 64
    → IsInfo i
    → stored_file_is_healthy blake blksize store repo_path i (build_file_path i)
      ≡ ok (is_intact_in blake store repo_path i)
unfolding stored_file_is_healthy append_path path_with_info
stored_file_is_healthy-is_intact blake blksize store repo_path i a b short h =
    let sub = build_file_path i in
    let full = repo_path ++ (slash ∷ sub) in
    let l = length-build_file_path i h in
    rw
      (
        size_add-eq-ok (length repo_path) 1 (omega arith),
        size_add-eq-ok (length repo_path + 1) (length sub) (omega arith),
        size_add-eq-ok (length repo_path + 1 + length sub) 1 (omega arith),
      )
      (elim (Option-cases (store full)) [
        | inl e ↦ rw e refl
        | inr (file content, e) ↦
            rw e (check_file-is_intact blake blksize store full content i a b e)
        | inr (folder, e) ↦ rw e refl
      ])
