-- ===== src/Repository/Parents.antt =====
-- repoWriterClose() of src/repository.c: the directories that it makes for a stored file.
use nano_backup.Prelude.{
  ◌⊎◌, ◌+◌, ◌<◌, ◌≡◌, ◌≢◌, refl, sym, arith, true, false, Bool-cases, take, length, length-take,
  bytes_eq, bytes_eq_refl, eq_of_bytes_eq, if◌then◌else◌, Option, none, some, ok, ◌>>=◌, inl, inr,
  ap, subst, ◌∙◌,
}
use nano_backup.Str.{Bytes}
use nano_backup.Repository.Store.{
  directory_of, Item, folder, Store, with_item, s_path_exists, s_mkdir, ensure_parents,
}

pub with_item-same :
    (store : Store) (path : Bytes) (item : Option Item) → with_item store path item path ≡ item
unfolding with_item
with_item-same store path item = rw (bytes_eq_refl path) refl

pub with_item-other :
    (store : Store) (path other : Bytes) (item : Option Item)
    → other ≢ path
    → with_item store path item other ≡ store other
unfolding with_item
with_item-other store path other item h = elim (Bool-cases (bytes_eq other path)) [
  | inl e ↦ absurd (h (eq_of_bytes_eq other path e))
  | inr e ↦ rw e refl
]

-- Whatever the one store has, the other has too, but at one path.
abbrev pub Keeps : Bytes → Store → Store → Type 0
Keeps except store store' =
    (p : Bytes) (item : Item) → p ≢ except → store p ≡ some item → store' p ≡ some item

-- A new item at a free path keeps the others.
pub with_item-Keeps :
    (except path : Bytes) (store : Store) (item : Option Item)
    → store path ≡ none
    → Keeps except store (with_item store path item)
with_item-Keeps except path store item free p i d h =
    with_item-other store path p item
      (λ same. let there : store path ≡ some i = subst (λ q. store q ≡ some i) same h in cc)
    ∙ h

pub exists-none : (item : Option Item) → s_path_exists item ≡ false → item ≡ none
exists-none none h = refl
exists-none (some i) h = cc

-- Nothing, or a directory
abbrev pub IsDirectory : Option Item → Type 0
IsDirectory item = (item ≡ none) ⊎ (item ≡ some folder)

exists-IsDirectory :
    (item : Option Item) → IsDirectory item → s_path_exists item ≡ true → item ≡ some folder
exists-IsDirectory item (inl e) h = let bad : s_path_exists item ≡ false = rw e refl in cc
exists-IsDirectory item (inr e) h = e

-- The two directories are there, and no other path has changed.
abbrev pub Parents : Store → Bytes → Bytes → Store → Type 0
Parents store outer inner store' =
    (store' inner ≡ some folder)
    × IsDirectory (store' outer)
    × ((except : Bytes) → Keeps except store store')
    × ((p : Bytes) → p ≢ outer → p ≢ inner → store' p ≡ store p)

-- The directories of the item at `full` are free or there, in the directory of the repository.
pub record IsPlace (store : Store) (repo_path full : Bytes) : Type 0 where
  pub root : store repo_path ≡ some folder
  pub outer : IsDirectory (store (take (length repo_path + 2) full))
  pub inner : IsDirectory (store (take (length repo_path + 5) full))

made-Parents :
    (store : Store) (repo_path outer inner : Bytes)
    → directory_of outer ≡ repo_path
    → directory_of inner ≡ outer
    → outer ≢ inner
    → store repo_path ≡ some folder
    → IsDirectory (store outer)
    → store inner ≡ none
    → (store' : Store) × ((if s_path_exists (store outer) then ok store else s_mkdir store outer)
          >>= (λ s. s_mkdir s inner)
        ≡ ok store')
      × Parents store outer inner store'
made-Parents store repo_path outer inner in_root in_outer d root is_dir free =
    elim (Bool-cases (s_path_exists (store outer))) [
      | inl e ↦
          let there = exists-IsDirectory (store outer) is_dir e in
          (
            with_item store inner (some folder),
            rw (e, free, in_outer, there) refl,
            (
              with_item-same store inner (some folder),
              inr (with_item-other store inner outer (some folder) d ∙ there),
              λ except. with_item-Keeps except inner store (some folder) free,
              λ p a b. with_item-other store inner p (some folder) b,
            ),
          )
      | inr e ↦
          let s = with_item store outer (some folder) in
          let free' : s inner ≡ none =
            with_item-other store outer inner (some folder) (λ same. d (sym same)) ∙ free in
          let made = with_item-same store outer (some folder) in
          (
            with_item s inner (some folder),
            rw (e, in_root, root, free', in_outer, made) refl,
            (
              with_item-same s inner (some folder),
              inr (with_item-other s inner outer (some folder) d ∙ made),
              λ except p i a h. with_item-Keeps except inner s (some folder) free' p i a (
                  with_item-Keeps except outer store (some folder) (exists-none (store outer) e) p i
                    a h),
              λ p a b.
                  with_item-other s inner p (some folder) b
                  ∙ with_item-other store outer p (some folder) a,
            ),
          )
    ]

pub ensure_parents_lem :
    (store : Store) (repo_path full : Bytes)
    → length repo_path + 5 < length full
    → directory_of (take (length repo_path + 2) full) ≡ repo_path
    → directory_of (take (length repo_path + 5) full) ≡ take (length repo_path + 2) full
    → IsPlace store repo_path full
    → (store' : Store) × (ensure_parents store repo_path full ≡ ok store')
      × Parents store (take (length repo_path + 2) full) (take (length repo_path + 5) full) store'
unfolding ensure_parents
ensure_parents_lem store repo_path full long in_root in_outer place =
    let outer = take (length repo_path + 2) full in
    let inner = take (length repo_path + 5) full in
    let d : outer ≢ inner = λ same.
      let same' : length outer ≡ length inner = ap length same in
      omega (
        arith,
        length-take (length repo_path + 2) full (omega arith),
        length-take (length repo_path + 5) full (omega arith),
      ) in
    elim (Bool-cases (s_path_exists (store inner))) [
      | inl e ↦ (
        store,
        rw e refl,
        (
          exists-IsDirectory (store inner) place.inner e,
          place.outer,
          λ except p i a h. h,
          λ p a b. refl,
        ),
      )
      | inr e ↦
          let (store', made, parents) =
            made-Parents store repo_path outer inner in_root in_outer d place.root place.outer
              (exists-none (store inner) e) in
          (store', rw e made, parents)
    ]
