-- ===== src/Restore/RoundTrip.antt =====
-- addFileToRepo() of src/backup.c, then restoreFile() of src/restore.c.
use nano_backup.Prelude.{
  ◌≤◌, ◌<◌, ◌≡◌, refl, sym, ◌∙◌, subst, arith, true, false, Bool-cases, [], ◌∷◌, ◌++◌, take, drop,
  take-append, take-length, append-nil, append_assoc, length, ltb, ltb→lt, lt→ltb, ◌==◌, some, ◌⊎◌,
  inl, inr, Result, ok, die, slot_overflow, unexpected_end,
}
use Prim.Native.Nat.{bit_and}
use nano_backup.Str.{Bytes}
use nano_backup.Hint.{BackupHint, bh_fresh_hash}
use nano_backup.Metadata.{RegularFileInfo, file_hash_size}
use nano_backup.Streams.Blocks.{IsAppending, read_blocks_lem, read_blocks-short}
use nano_backup.Repository.Store.{Store, file, path_with_info, repo_reader_open_file}
use nano_backup.Repository.Parents.{Keeps}
use nano_backup.Repository.Writer.{IsTmp, tmp-differs}
use nano_backup.Backup.Changes.{Stats}
use nano_backup.Backup.Finish.{Sources, with_slot, add_file_to_repo}
use nano_backup.Backup.Duplicates.{Differ}
use nano_backup.Backup.Storing.{IsRepo, with_slot-IsInfo, first_byte}
use nano_backup.Backup.Adding.{
  IsHash, IsUnchanged, IsPrepared, hashed, hashed-IsInfo, hashed-size, add_file_to_repo-Added,
  small_hashed, add_file_to_repo-small,
}
use nano_backup.Restore.Finish.{Actions, write, restore_file}

append-IsAppending : IsAppending (λ (xs ys : Bytes). xs ++ ys)
append-IsAppending = record { nothing = append-nil; joined = append_assoc }

-- The three outcomes for a stored file
abbrev pub RestoredFile : Bytes → RegularFileInfo → Bytes → Result Actions → Type 0
RestoredFile path i stored result =
    (i.size ≤ length stored → result ≡ ok (write path (take i.size stored) ∷ []))
    × (length stored < i.size → result ≡ die (unexpected_end path))

-- restoreFile() for a file of more than 20 bytes writes the first bytes of the stored file, as many
-- as the info says, in spite of reading them block by block; it ends the program if the stored file
-- is shorter, and takes no notice of further bytes.
pub restore_file-RestoredFile :
    (store : Store) (repo_path path stored : Bytes) (i : RegularFileInfo)
    → file_hash_size < i.size
    → store (path_with_info repo_path i) ≡ some (file stored)
    → RestoredFile path i stored (restore_file store repo_path path i)
unfolding restore_file repo_reader_open_file
restore_file-RestoredFile store repo_path path stored i large there =
    let is_large = lt→ltb file_hash_size i.size large in
    (
      λ enough.
          let read =
            read_blocks_lem ◌++◌ (unexpected_end path) 4096 i.size i.size stored []
              append-IsAppending (omega arith) (omega arith) enough in
          rw (is_large, there, read) refl,
      λ short.
          let read =
            read_blocks-short ◌++◌ (unexpected_end path) 4096 i.size i.size stored [] (omega arith)
              (omega arith) short in
          rw (is_large, there, read) refl,
    )

pub restore_file-small :
    (store : Store) (repo_path path content : Bytes) (i : RegularFileInfo)
    → ltb file_hash_size i.size ≡ false
    → take i.size i.hash ≡ content
    → restore_file store repo_path path i ≡ ok (write path content ∷ [])
unfolding restore_file
restore_file-small store repo_path path content i small e = rw (small, e) refl

-- From every repository that still holds what `store` does, the file is restored.
abbrev pub Restorable : Store → Bytes → Bytes → Bytes → Bytes → RegularFileInfo → Type 0
Restorable store repo_path tmp path content i =
    (later : Store)
    → Keeps tmp store later
    → restore_file later repo_path path i ≡ ok (write path content ∷ [])

-- A file that addFileToRepo() has stored is restored by restoreFile() with its very content, small
-- or large, from the repository then and from every later one that still holds the files of it.
-- The only other outcome is the error for a large file of which all 256 slots hold other files.
-- The file did not change since it was found; a small file has no fresh hash; the repository is
-- well formed, BLAKE2 gives 20 bytes, and the temporary file stands in the repository with a name
-- that starts with no hexadecimal digit.
pub add_file_to_repo-restore_file :
    (f : Sources) (store : Store) (repo_path tmp : Bytes) (hint : BackupHint) (path content : Bytes)
    (i : RegularFileInfo) (stats : Stats)
    → IsHash f.blake
    → IsRepo store repo_path tmp
    → IsTmp repo_path tmp
    → IsPrepared hint i
    → IsUnchanged f path content i stats
    → (i.size ≤ file_hash_size → (bit_and hint bh_fresh_hash == 0) ≡ true)
    → ((j : RegularFileInfo) × (store' : Store) × (add_file_to_repo f store repo_path tmp hint path
            i
          ≡ ok (j, store'))
        × Restorable store' repo_path tmp path content j)
      ⊎ ((file_hash_size < i.size)
          × Differ store repo_path (hashed f.blake hint i content) content 256
          × (add_file_to_repo f store repo_path tmp hint path i ≡ die slot_overflow))
add_file_to_repo-restore_file f store repo_path tmp hint path content i stats b r t p u fresh =
    elim (Bool-cases (ltb file_hash_size i.size)) [
      | inl is_large ↦
          let large = ltb→lt file_hash_size i.size is_large in
          elim (add_file_to_repo-Added f store repo_path tmp hint path content i stats b r t p u
            large) [
              | inr (d, e) ↦ inr (large, d, e)
              | inl (slot, store', l, e, there, k, r') ↦
                  let i₁ = hashed f.blake hint i content in
                  let j = with_slot i₁ slot in
                  let h = with_slot-IsInfo i₁ slot (hashed-IsInfo f.blake hint i content b p) l in
                  let d = (tmp-differs repo_path tmp j t (first_byte j h)).0 in
                  let same : i₁.size ≡ i.size = hashed-size f.blake hint i content in
                  let size : length content ≡ i₁.size = u.size ∙ sym same in
                  let whole : take i₁.size content ≡ content =
                    subst (λ n. take n content ≡ content) size (take-length content) in
                  inl (
                    j,
                    store',
                    e,
                    λ later kept.
                        let at_path =
                          kept (path_with_info repo_path j) (file content) (λ s. d (sym s)) there in
                        (restore_file-RestoredFile later repo_path path content j
                            (subst (λ n. file_hash_size < n) (sym same) large) at_path).0
                          (omega (arith, size))
                        ∙ (rw whole refl),
                  )
            ]
      | inr small ↦
          let is_fresh = fresh (ground arith) in
          let e = add_file_to_repo-small f store repo_path tmp hint path content i stats u small in
          inl (
            small_hashed hint i content,
            store,
            e,
            λ later kept. rw is_fresh (
                restore_file-small later repo_path path content
                  (record i { hash = content ++ drop i.size i.hash }) small
                  (take-append i.size content (drop i.size i.hash) u.size)),
          )
    ]
