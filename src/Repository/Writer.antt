-- ===== src/Repository/Writer.antt =====
-- What a closed RepoWriter leaves in the repository.
use nano_backup.Prelude.{
  ℕ, zero, suc, ◌+◌, ◌<◌, ◌≤◌, ◌≡◌, ◌≢◌, refl, sym, arith, true, false, [], ◌∷◌, take, get_or,
  get_or-append_right, ◌/◌, length, length-append, length-take, Option, none, some, Option-cases,
  ok, inl, inr, ap, subst, ◌∙◌,
}
use nano_backup.Str.{Bytes, slash}
use nano_backup.Metadata.{RegularFileInfo}
use nano_backup.Repository.{build_file_path, hex_digit}
use nano_backup.Repository.Directories.{path_with_info-directories}
use nano_backup.Repository.Store.{
  directory_of, Item, file, folder, Store, with_item, s_path_exists, path_with_info, rename_written,
  info, repo_writer_close,
}
use nano_backup.Repository.Parents.{
  with_item-same, with_item-other, Keeps, IsDirectory, IsPlace, ensure_parents_lem,
}

get_or-take : (n i : ℕ) (xs : Bytes) → i < n → get_or (take n xs) i 0 ≡ get_or xs i 0
get_or-take zero i xs h = absurd (omega arith)
get_or-take (suc n) i [] h = refl
get_or-take (suc n) zero (x ∷ xs) h = refl
get_or-take (suc n) (suc i) (x ∷ xs) h = get_or-take n i xs (omega arith)

abbrev first_digit : RegularFileInfo → ℕ
first_digit i = hex_digit (get_or i.hash 0 0 / 16)

-- The temporary file stands in the repository and is none that is named after a hash: its name
-- starts with another byte.
abbrev pub IsTmp : Bytes → Bytes → Type 0
IsTmp repo_path tmp =
    ((d : ℕ) → d < 16 → get_or tmp (length repo_path + 1) 0 ≢ hex_digit d)
    × (directory_of tmp ≡ repo_path)
    × (tmp ≢ repo_path)

path_with_info-digit :
    (repo_path : Bytes) (i : RegularFileInfo)
    → get_or (path_with_info repo_path i) (length repo_path + 1) 0 ≡ first_digit i
unfolding path_with_info build_file_path
path_with_info-digit repo_path i = get_or-append_right repo_path (slash ∷ build_file_path i) 1 0

pub path_with_info-long :
    (repo_path : Bytes) (i : RegularFileInfo)
    → length repo_path + 5 < length (path_with_info repo_path i)
unfolding path_with_info build_file_path
path_with_info-long repo_path i =
    rw (length-append repo_path (slash ∷ build_file_path i)) (omega arith)

-- The name of the file and the two directories differ from the temporary file.
pub tmp-differs :
    (repo_path tmp : Bytes) (i : RegularFileInfo)
    → IsTmp repo_path tmp
    → get_or i.hash 0 0 < 256
    → (tmp ≢ path_with_info repo_path i)
      × ((n : ℕ) → 1 < n → tmp ≢ take (length repo_path + n) (path_with_info repo_path i))
tmp-differs repo_path tmp i h b = (
  λ same.
      h.0 (get_or i.hash 0 0 / 16) (omega arith)
        (ap (λ t. get_or t (length repo_path + 1) 0) same ∙ path_with_info-digit repo_path i),
  λ n l same. h.0 (get_or i.hash 0 0 / 16) (omega arith) (
      ap (λ t. get_or t (length repo_path + 1) 0) same
      ∙ get_or-take (length repo_path + n) (length repo_path + 1) (path_with_info repo_path i)
          (omega arith)
      ∙ path_with_info-digit repo_path i),
)

pub longer-differs : (n : ℕ) (p xs : Bytes) → n < length p → n ≤ length xs → p ≢ take n xs
longer-differs n p xs h k same =
    let e : length p ≡ length (take n xs) = ap length same in omega (arith, length-take n xs k)

pub exists-Keeps :
    (except p : Bytes) (store store' : Store)
    → Keeps except store store'
    → p ≢ except
    → s_path_exists (store p) ≡ true
    → s_path_exists (store' p) ≡ true
exists-Keeps except p store store' k d h = elim (Option-cases (store p)) [
  | inl e ↦ let bad : s_path_exists (store p) ≡ false = rw e refl in cc
  | inr (item, e) ↦ rw (k p item d e) refl
]

-- The file is stored, the temporary one is gone, every other item is still there, and but for the
-- two directories of the file nothing new has appeared.
pub record Written (store store' : Store) (repo_path tmp full content : Bytes) : Type 0 where
  pub stored : store' full ≡ some (file content)
  pub cleared : store' tmp ≡ none
  pub kept : Keeps tmp store store'
  pub outer : IsDirectory (store' (take (length repo_path + 2) full))
  pub inner : store' (take (length repo_path + 5) full) ≡ some folder
  pub others :
      (p : Bytes)
      → p ≢ take (length repo_path + 2) full
      → p ≢ take (length repo_path + 5) full
      → p ≢ full
      → p ≢ tmp
      → store' p ≡ store p

abbrev moved : Store → Bytes → Bytes → Bytes → Store
moved made tmp full content = with_item (with_item made tmp none) full (some (file content))

moved-Keeps :
    (made : Store) (tmp full content : Bytes)
    → made full ≡ none
    → Keeps tmp made (moved made tmp full content)
moved-Keeps made tmp full content free p item d h =
    with_item-other (with_item made tmp none) full p (some (file content))
      (λ same. let there : made full ≡ some item = subst (λ q. made q ≡ some item) same h in cc)
    ∙ with_item-other made tmp p none d
    ∙ h

pub IsPlace-with_item :
    (store : Store) (repo_path tmp : Bytes) (i : RegularFileInfo) (item : Option Item)
    → IsTmp repo_path tmp
    → get_or i.hash 0 0 < 256
    → IsPlace store repo_path (path_with_info repo_path i)
    → IsPlace (with_item store tmp item) repo_path (path_with_info repo_path i)
IsPlace-with_item store repo_path tmp i item h b place =
    let (d, ds) = tmp-differs repo_path tmp i h b in
    record {
      root = with_item-other store tmp repo_path item (λ s. h.2 (sym s)) ∙ place.root;
      outer =
          subst IsDirectory
            (sym (
              with_item-other store tmp (take (length repo_path + 2) (path_with_info repo_path i))
                item (λ s. ds 2 (omega arith) (sym s))))
            place.outer;
      inner =
          subst IsDirectory
            (sym (
              with_item-other store tmp (take (length repo_path + 5) (path_with_info repo_path i))
                item (λ s. ds 5 (omega arith) (sym s))))
            place.inner;
    }

-- repoWriterClose() on a writer that repoWriterOpenFile() has made renames the temporary file,
-- with all that was written, to the path of the file info, and makes the directories of this path
-- that are missing: the path then has the content, the temporary file is gone, every other item is
-- as it was, and nothing has appeared but the two directories. The repository's directory exists,
-- the path was free, its directories are free or directories, the first byte of the hash is a
-- byte, and the temporary file stands in the repository with a name that starts with no
-- hexadecimal digit.
pub repo_writer_close-Written :
    (store : Store) (repo_path tmp content : Bytes) (i : RegularFileInfo)
    → IsTmp repo_path tmp
    → get_or i.hash 0 0 < 256
    → store (path_with_info repo_path i) ≡ none
    → IsPlace store repo_path (path_with_info repo_path i)
    → (store' : Store) × (repo_writer_close store (record {
      repo_path = repo_path;
      repo_tmp_file_path = tmp;
      stream = content;
      rename_to = info i;
    })
        ≡ ok store')
      × Written store store' repo_path tmp (path_with_info repo_path i) content
unfolding repo_writer_close rename_written
repo_writer_close-Written store repo_path tmp content i h b free place =
    let full = path_with_info repo_path i in
    let outer = take (length repo_path + 2) full in
    let inner = take (length repo_path + 5) full in
    let long = path_with_info-long repo_path i in
    let (in_inner, in_outer, in_root) = path_with_info-directories repo_path i in
    let written = with_item store tmp (some (file content)) in
    let (d, ds) = tmp-differs repo_path tmp i h b in
    let not_outer : full ≢ outer =
      longer-differs (length repo_path + 2) full full (omega arith) (omega arith) in
    let not_inner : full ≢ inner =
      longer-differs (length repo_path + 5) full full long (omega arith) in
    let (made, e, (there, is_dir, kept, same)) =
      ensure_parents_lem written repo_path full long in_root in_outer
        (IsPlace-with_item store repo_path tmp i (some (file content)) h b place) in
    let at_tmp : made tmp ≡ some (file content) =
      same tmp (ds 2 (omega arith)) (ds 5 (omega arith))
      ∙ with_item-same store tmp (some (file content)) in
    let at_full : made full ≡ none =
      same full not_outer not_inner
      ∙ with_item-other store tmp full (some (file content)) (λ s. d (sym s))
      ∙ free in
    let after = moved made tmp full content in
    let after_other = λ (p : Bytes) (a : p ≢ full) (c : p ≢ tmp).
      with_item-other (with_item made tmp none) full p (some (file content)) a
      ∙ with_item-other made tmp p none c in
    (
      after,
      rw (e, in_inner, there, at_tmp, at_full) refl,
      record {
        stored = with_item-same (with_item made tmp none) full (some (file content));
        cleared =
            with_item-other (with_item made tmp none) full tmp (some (file content)) d
            ∙ with_item-same made tmp none;
        kept = λ p item n there.
            moved-Keeps made tmp full content at_full p item n
              (kept tmp p item n (with_item-other store tmp p (some (file content)) n ∙ there));
        outer =
            subst IsDirectory
              (sym (after_other outer (λ s. not_outer (sym s)) (λ s. ds 2 (omega arith) (sym s))))
              is_dir;
        inner =
            after_other inner (λ s. not_inner (sym s)) (λ s. ds 5 (omega arith) (sym s)) ∙ there;
        others = λ p o n a c.
            after_other p a c ∙ same p o n ∙ with_item-other store tmp p (some (file content)) c;
      },
    )
