-- ===== src/Backup/Duplicates.antt =====
-- searchFileDuplicates() of src/backup.c: which slot of the repository it finds.
use nano_backup.Prelude.{
  ℕ, zero, suc, ◌+◌, ◌*◌, ◌^◌, ◌≤◌, ◌<◌, ◌≡◌, refl, ap, subst, sym, arith, true, false, Bool-cases,
  length, ◌==◌, ==_iff, ==_false, bytes_eq, eq_of_bytes_eq, Option, none, some, ◌⊎◌, inl, inr,
  Result, ok, die, slot_overflow, Bool,
}
use nano_backup.Str.{Bytes}
use nano_backup.Metadata.{RegularFileInfo}
use nano_backup.Repository.Store.{Store, Item, file, path_with_info, repo_regular_file_exists}
use nano_backup.Backup.Changes.{Stats}
use nano_backup.Backup.Finish.{Sources, with_slot, search_loop, search_file_duplicates}
use nano_backup.Backup.Compare.{equals_to_stored_file-whole}

abbrev pub item_at : Store → Bytes → RegularFileInfo → ℕ → Option Item
item_at store repo_path i slot = store (path_with_info repo_path (with_slot i slot))

-- Each slot for this hash and size is free, or it holds a file of this size.
abbrev pub IsSlots : Store → Bytes → RegularFileInfo → Type 0
IsSlots store repo_path i =
    (slot : ℕ)
    → slot ≤ 255
    → (item_at store repo_path i slot ≡ none)
      ⊎ ((stored : Bytes) × (item_at store repo_path i slot ≡ some (file stored))
          × (length stored ≡ i.size))

-- The first n slots hold files with another content.
abbrev pub Differ : Store → Bytes → RegularFileInfo → Bytes → ℕ → Type 0
Differ store repo_path i content n =
    (slot : ℕ)
    → slot < n
    → (stored : Bytes) × (item_at store repo_path i slot ≡ some (file stored))
      × (bytes_eq content stored ≡ false)

-- The first slot with the content, or the first free slot, or an error if all 256 differ
abbrev pub Searched :
    Store → Bytes → RegularFileInfo → Bytes → Result (Bool × RegularFileInfo) → Type 0
Searched store repo_path i content result =
    ((slot : ℕ) × (slot ≤ 255)
      × Differ store repo_path i content slot
      × (item_at store repo_path i slot ≡ some (file content))
      × (result ≡ ok (true, with_slot i slot)))
    ⊎ ((slot : ℕ) × (slot ≤ 255)
        × Differ store repo_path i content slot
        × (item_at store repo_path i slot ≡ none)
        × (result ≡ ok (false, with_slot i slot)))
    ⊎ (Differ store repo_path i content 256 × (result ≡ die slot_overflow))

Differ-more :
    (store : Store) (repo_path : Bytes) (i : RegularFileInfo) (content stored : Bytes) (slot : ℕ)
    → Differ store repo_path i content slot
    → item_at store repo_path i slot ≡ some (file stored)
    → bytes_eq content stored ≡ false
    → Differ store repo_path i content (suc slot)
Differ-more store repo_path i content stored slot d e h j l = elim (Bool-cases (j == slot)) [
  | inl s ↦ (
    stored,
    subst (λ k. item_at store repo_path i k ≡ some (file stored)) (sym ((==_iff j slot).0 s)) e,
    h,
  )
  | inr s ↦ d j (omega (arith, ==_false j slot s))
]

module _ (f : Sources) (store : Store) (repo_path path content : Bytes) (i : RegularFileInfo)
    (stats : Stats) (readable : f.open_read path ≡ ok content) (slots : IsSlots store repo_path i)
    (size : length content ≡ i.size) (blocks : 0 < stats.st_blksize)
    (memory : stats.st_blksize * 2 < 2 ^ 64) where
  search_loop-Searched :
      (fuel slot : ℕ)
      → slot + fuel ≡ 256
      → slot ≤ 255
      → Differ store repo_path i content slot
      → Searched store repo_path i content
          (search_loop f store repo_path path fuel (with_slot i slot) stats)
  unfolding search_loop repo_regular_file_exists
  search_loop-Searched zero slot e l d = absurd (omega arith)
  search_loop-Searched (suc fuel) slot e l d = elim (slots slot l) [
    | inl free ↦ inr (inl (slot, l, d, free, rw free refl))
    | inr (stored, there, k) ↦
        let equal =
          equals_to_stored_file-whole f store repo_path path (with_slot i slot) stats content stored
            readable there size k blocks memory in
        elim (Bool-cases (bytes_eq content stored)) [
          | inl same ↦ inl (
            slot,
            l,
            d,
            subst (λ c. item_at store repo_path i slot ≡ some (file c))
                (sym (eq_of_bytes_eq content stored same)) there,
            rw (there, equal, same) refl,
          )
          | inr differ ↦
              let d' = Differ-more store repo_path i content stored slot d there differ in
              elim (Bool-cases (slot == 255)) [
                | inl last ↦ inr (
                    inr (
                      subst (Differ store repo_path i content) (ap suc ((==_iff slot 255).0 last))
                          d',
                      rw (there, equal, differ, last) refl,
                    ))
                | inr more ↦
                    let rest =
                      search_loop-Searched fuel (slot + 1) (omega arith)
                        (omega (arith, ==_false slot 255 more))
                        (subst (Differ store repo_path i content) (omega arith) d') in
                    rw (there, equal, differ, more) rest
              ]
        ]
  ]

  -- searchFileDuplicates() always ends: it returns true with the first slot that holds the content
  -- of the file, or false with the first free slot when all slots before it differ from the file,
  -- or it ends the program when all 256 slots hold other files. The file can be read and is as long
  -- as its info says, as are the files in the slots; the block size is not 0 and two blocks fit into
  -- memory.
  pub search_file_duplicates-Searched :
      Searched store repo_path i content (search_file_duplicates f store repo_path path i stats)
  unfolding search_file_duplicates
  search_file_duplicates-Searched =
      search_loop-Searched 256 0 (omega arith) (omega arith) (λ slot l. absurd (omega arith))
