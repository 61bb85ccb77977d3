-- ===== src/Backup/Adding.antt =====
-- addFileToRepo() of src/backup.c: its outcomes for a file that did not change since it was found.
use nano_backup.Prelude.{
  ℕ, ◌*◌, ◌^◌, ◌≤◌, ◌<◌, ◌≡◌, refl, subst, sym, ◌∙◌, arith, true, false, Bool-cases, [], ◌++◌, All,
  take, drop, take-length, drop-length, length, ltb, ltb-false, ◌==◌, ==_iff, lt→ltb, some, ◌⊎◌,
  inl, inr, Result, ok, die, slot_overflow, if◌then◌else◌,
}
use Prim.Native.Nat.{bit_and}
use nano_backup.Str.{Bytes}
use nano_backup.Hint.{BackupHint, bh_fresh_hash}
use nano_backup.Metadata.{RegularFileInfo, file_hash_size}
use nano_backup.Streams.Blocks.{IsAppending}
use nano_backup.FileHash.{Blake2, file_hash-WholeHash}
use nano_backup.Repository.Store.{Store, file}
use nano_backup.Repository.Parents.{Keeps}
use nano_backup.Repository.Writer.{IsTmp}
use nano_backup.Repository.Paths.{IsByte, IsInfo}
use nano_backup.Backup.Changes.{Stats}
use nano_backup.Backup.Finish.{
  Sources, with_hash, with_slot, hashed_info, small_file_info, add_file_to_repo,
}
use nano_backup.Backup.Duplicates.{item_at, Differ, search_file_duplicates-Searched}
use nano_backup.Backup.Storing.{
  IsRepo, with_slot-IsInfo, copy_file_into_repo-Written, Written-IsRepo,
}

-- BLAKE2 reads its text part by part and gives 20 bytes.
pub record IsHash (blake : Blake2) : Type 0 where
  pub appending : IsAppending blake.update
  pub hash_length : (s : blake.State) → length (blake.final s) ≡ file_hash_size
  pub hash_bytes : (s : blake.State) → All IsByte (blake.final s)

-- The file can be read, it is as long as the info and its stats say, and its time has not changed.
-- Blocks are not empty, and two of them fit into memory.
pub record IsUnchanged (f : Sources) (path content : Bytes) (i : RegularFileInfo) (stats : Stats)
    : Type 0 where
  pub stated : f.stat path ≡ ok stats
  pub read : f.open_read path ≡ ok content
  pub same_time : i.modification_time ≡ stats.st_mtime
  pub size : length content ≡ i.size
  pub stat_size : stats.st_size ≡ i.size
  pub blocks : 0 < stats.st_blksize
  pub memory : stats.st_blksize * 2 < 2 ^ 64

-- The info fits the program's types; its hash is only defined when it is said to be fresh.
pub record IsPrepared (hint : BackupHint) (i : RegularFileInfo) : Type 0 where
  pub size_bound : i.size < 2 ^ 64
  pub slot_bound : i.slot < 256
  pub fresh : (bit_and hint bh_fresh_hash == 0) ≡ false → IsInfo i

-- The info with its hash
abbrev pub hashed : Blake2 → BackupHint → RegularFileInfo → Bytes → RegularFileInfo
hashed blake hint i content =
    if bit_and hint bh_fresh_hash == 0
    then with_hash i (blake.final (blake.update blake.init content))
    else i

pub hashed-IsInfo :
    (blake : Blake2) (hint : BackupHint) (i : RegularFileInfo) (content : Bytes)
    → IsHash blake
    → IsPrepared hint i
    → IsInfo (hashed blake hint i content)
hashed-IsInfo blake hint i content b p = elim (Bool-cases (bit_and hint bh_fresh_hash == 0)) [
  | inl e ↦ rw e (record {
    hash_length = b.hash_length (blake.update blake.init content);
    hash_bytes = b.hash_bytes (blake.update blake.init content);
    size_bound = p.size_bound;
    slot_bound = p.slot_bound;
  })
  | inr e ↦ rw e (p.fresh e)
]

pub hashed-size :
    (blake : Blake2) (hint : BackupHint) (i : RegularFileInfo) (content : Bytes)
    → (hashed blake hint i content).size ≡ i.size
hashed-size blake hint i content = elim (Bool-cases (bit_and hint bh_fresh_hash == 0)) [
  | inl e ↦ rw e refl
  | inr e ↦ rw e refl
]

hashed_info-hashed :
    (f : Sources) (hint : BackupHint) (path content : Bytes) (i : RegularFileInfo) (stats : Stats)
    → IsHash f.blake
    → IsUnchanged f path content i stats
    → hashed_info f hint path i stats ≡ ok (hashed f.blake hint i content)
unfolding hashed_info
hashed_info-hashed f hint path content i stats b u =
    elim (Bool-cases (bit_and hint bh_fresh_hash == 0)) [
      | inl e ↦
          let whole =
            (file_hash-WholeHash f.blake f.open_read path content stats b.appending u.read
                u.blocks).0
              (u.stat_size ∙ sym u.size) in
          rw (e, whole) refl
      | inr e ↦ rw e refl
    ]

-- The file is in the repository, or its program ended as all 256 slots hold other files.
abbrev pub Added :
    Store → Bytes → Bytes → RegularFileInfo → Bytes → Result (RegularFileInfo × Store) → Type 0
Added store repo_path tmp i content result =
    ((slot : ℕ) × (store' : Store) × (slot ≤ 255)
      × (result ≡ ok (with_slot i slot, store'))
      × (item_at store' repo_path i slot ≡ some (file content))
      × Keeps tmp store store'
      × IsRepo store' repo_path tmp)
    ⊎ (Differ store repo_path i content 256 × (result ≡ die slot_overflow))

-- addFileToRepo() for a file of more than 20 bytes leaves the content of the file in the
-- repository, under the path of the file info that it returns, which has the hash of the content
-- or the one that was fresh. Every file that was stored before, but the temporary one, is still
-- there unchanged, and the repository stays well formed. The only other outcome is the error that
-- all 256 slots for this hash and size hold other files. The file did not change since it was
-- found and blocks are not empty; BLAKE2 gives 20 bytes; the temporary file stands in the
-- repository with a name that starts with no hexadecimal digit.
pub add_file_to_repo-Added :
    (f : Sources) (store : Store) (repo_path tmp : Bytes) (hint : BackupHint) (path content : Bytes)
    (i : RegularFileInfo) (stats : Stats)
    → IsHash f.blake
    → IsRepo store repo_path tmp
    → IsTmp repo_path tmp
    → IsPrepared hint i
    → IsUnchanged f path content i stats
    → file_hash_size < i.size
    → Added store repo_path tmp
        (hashed f.blake hint i content)
        content
        (add_file_to_repo f store repo_path tmp hint path i)
unfolding add_file_to_repo
add_file_to_repo-Added f store repo_path tmp hint path content i stats b r t p u large =
    let i₁ = hashed f.blake hint i content in
    let h = hashed-IsInfo f.blake hint i content b p in
    let size : length content ≡ i₁.size = u.size ∙ sym (hashed-size f.blake hint i content) in
    let time : (i.modification_time == stats.st_mtime) ≡ true =
      (==_iff i.modification_time stats.st_mtime).1 u.same_time in
    let is_large : ltb file_hash_size i.size ≡ true = lt→ltb file_hash_size i.size large in
    let hash = hashed_info-hashed f hint path content i stats b u in
    elim (search_file_duplicates-Searched f store repo_path path content i₁ stats u.read
      (λ slot l. r.files (with_slot i₁ slot) (with_slot-IsInfo i₁ slot h l)) size u.blocks
      u.memory) [
        | inl (slot, l, d, there, e) ↦ inl (
          slot,
          store,
          l,
          rw (u.stated, time, is_large, hash, e) refl,
          there,
          λ path item n k. k,
          r,
        )
        | inr (inl (slot, l, d, free, e)) ↦
            let h' = with_slot-IsInfo i₁ slot h l in
            let (store', copied, w) =
              copy_file_into_repo-Written f store repo_path tmp path content (with_slot i₁ slot)
                stats r t h' u.read size u.blocks free in
            inl (
              slot,
              store',
              l,
              rw (u.stated, time, is_large, hash, e, copied) refl,
              w.stored,
              w.kept,
              Written-IsRepo store store' repo_path tmp content (with_slot i₁ slot) r t h' size w,
            )
        | inr (inr (d, e)) ↦ inr (d, rw (u.stated, time, is_large, hash, e) refl)
      ]

-- The info of a small file: the hash begins with the content.
abbrev pub small_hashed : BackupHint → RegularFileInfo → Bytes → RegularFileInfo
small_hashed hint i content =
    if bit_and hint bh_fresh_hash == 0 then with_hash i (content ++ drop i.size i.hash) else i

pub small_hashed-size :
    (hint : BackupHint) (i : RegularFileInfo) (content : Bytes)
    → (small_hashed hint i content).size ≡ i.size
small_hashed-size hint i content = elim (Bool-cases (bit_and hint bh_fresh_hash == 0)) [
  | inl e ↦ rw e refl
  | inr e ↦ rw e refl
]

pub add_file_to_repo-small :
    (f : Sources) (store : Store) (repo_path tmp : Bytes) (hint : BackupHint) (path content : Bytes)
    (i : RegularFileInfo) (stats : Stats)
    → IsUnchanged f path content i stats
    → ltb file_hash_size i.size ≡ false
    → add_file_to_repo f store repo_path tmp hint path i ≡ ok (small_hashed hint i content, store)
unfolding add_file_to_repo small_file_info
add_file_to_repo-small f store repo_path tmp hint path content i stats u small =
    let time : (i.modification_time == stats.st_mtime) ≡ true =
      (==_iff i.modification_time stats.st_mtime).1 u.same_time in
    let enough : ltb (length content) i.size ≡ false =
      ltb-false (length content) i.size (omega (arith, u.size)) in
    let whole : take i.size content ≡ content =
      subst (λ n. take n content ≡ content) u.size (take-length content) in
    let nothing : drop i.size content ≡ [] =
      subst (λ n. drop n content ≡ []) u.size (drop-length content) in
    elim (Bool-cases (bit_and hint bh_fresh_hash == 0)) [
      | inl e ↦ rw (u.stated, time, small, e, u.read, enough, whole, nothing) refl
      | inr e ↦ rw (u.stated, time, small, e) refl
    ]
