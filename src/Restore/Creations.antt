-- ===== src/Restore/Creations.antt =====
-- What a restore into an empty place should create: the calls of finishRestore() of src/restore.c that
-- make something, and those that the states of a backup ask for.
use nano_backup.Prelude.{
  ℕ, ltb, ltb→lt, ◌<◌, ◌≤◌, length, take, Bool-cases, ◌≡◌, refl, ◌∙◌, [], ◌∷◌, ◌++◌, ◌==◌, Option,
  none, some, inl, inr, ok, if◌then◌else◌,
}
use nano_backup.Str.{Bytes}
use nano_backup.Hint.{bh_none}
use nano_backup.Metadata.{
  RegularFileInfo, file_hash_size, PathState, non_existing, regular_file, symlink, directory,
  PathList, null, node, Metadata, type_of, pst_directory,
}
use nano_backup.Repository.Store.{Store, Item, file, path_with_info}
use nano_backup.Restore.RoundTrip.{restore_file-RestoredFile, restore_file-small}
use nano_backup.Restore.{search_existing_path_state}
use nano_backup.Restore.Finish.{
  write, chown, lchown, chmod, utime, make_symlink, mkdir, remove, remove_recursively, Actions,
  restore_file,
}

-- The calls that create or remove something, without those that set an owner, a mode or a time
abbrev pub created : Actions → Actions
created [] = []
created (write path content ∷ rest) = write path content ∷ created rest
created (make_symlink target path ∷ rest) = make_symlink target path ∷ created rest
created (mkdir path ∷ rest) = mkdir path ∷ created rest
created (remove path ∷ rest) = remove path ∷ created rest
created (remove_recursively path ∷ rest) = remove_recursively path ∷ created rest
created (chown path uid gid ∷ rest) = created rest
created (lchown path uid gid ∷ rest) = created rest
created (chmod path mode ∷ rest) = created rest
created (utime path time ∷ rest) = created rest

pub created-append : (xs ys : Actions) → created (xs ++ ys) ≡ created xs ++ created ys
created-append [] ys = refl
created-append (write path content ∷ rest) ys = rw (created-append rest ys) refl
created-append (make_symlink target path ∷ rest) ys = rw (created-append rest ys) refl
created-append (mkdir path ∷ rest) ys = rw (created-append rest ys) refl
created-append (chown path uid gid ∷ rest) ys = created-append rest ys
created-append (lchown path uid gid ∷ rest) ys = created-append rest ys
created-append (chmod path mode ∷ rest) ys = created-append rest ys
created-append (utime path time ∷ rest) ys = created-append rest ys
created-append (remove path ∷ rest) ys = rw (created-append rest ys) refl
created-append (remove_recursively path ∷ rest) ys = rw (created-append rest ys) refl

-- The content of a file, from its info or from the repository
abbrev stored_bytes : Option Item → Bytes
stored_bytes (some (file content)) = content
stored_bytes _ = []

abbrev pub content_of : Store → Bytes → RegularFileInfo → Bytes
content_of store repo_path i =
    if ltb file_hash_size i.size
    then take i.size (stored_bytes (store (path_with_info repo_path i)))
    else take i.size i.hash

-- The call that creates an item with this state
abbrev pub creation : Store → Bytes → Bytes → PathState → Actions
creation store repo_path path non_existing = []
creation store repo_path path (regular_file uid gid i) =
    write path (content_of store repo_path i) ∷ []
creation store repo_path path (symlink uid gid target) = make_symlink target path ∷ []
creation store repo_path path (directory uid gid i) = mkdir path ∷ []

-- The calls that create what existed at the requested backup, each item before what is below it
abbrev pub below_state : Store → Bytes → Bytes → Option PathState → Actions → Actions
below_state store repo_path path none below = []
below_state store repo_path path (some state) below =
    creation store repo_path path state ++ (if type_of state == pst_directory then below else [])

abbrev pub creations : Metadata → ℕ → Store → Bytes → PathList → Actions
creations m id store repo_path null = []
creations m id store repo_path (node n subnodes next) =
    below_state store repo_path n.path (search_existing_path_state m id n)
      (creations m id store repo_path subnodes)
    ++ creations m id store repo_path next

-- Each large regular file that existed is in the repository.
abbrev pub ReadableState : Store → Bytes → PathState → Type 0
ReadableState store repo_path (regular_file uid gid i) =
    file_hash_size < i.size
    → (content : Bytes) × (store (path_with_info repo_path i) ≡ some (file content))
      × (i.size ≤ length content)
ReadableState store repo_path _ = Unit

pub restore_file-content_of :
    (store : Store) (repo_path path : Bytes) (uid gid : ℕ) (i : RegularFileInfo)
    → ReadableState store repo_path (regular_file uid gid i)
    → restore_file store repo_path path i ≡ ok (write path (content_of store repo_path i) ∷ [])
restore_file-content_of store repo_path path uid gid i r =
    elim (Bool-cases (ltb file_hash_size i.size)) [
      | inl is_large ↦
          let large = ltb→lt file_hash_size i.size is_large in
          let (content, there, enough) = r large in
          (restore_file-RestoredFile store repo_path path content i large there).0 enough
          ∙ rw (is_large, there) refl
      | inr small ↦
          restore_file-small store repo_path path (take i.size i.hash) i small refl ∙ rw small refl
    ]

-- No hint was set, and the files can be read.
abbrev pub AllReadable : Metadata → ℕ → Store → Bytes → PathList → Type 0
AllReadable m id store repo_path null = Unit
AllReadable m id store repo_path (node n subnodes next) =
    (n.hint ≡ bh_none)
    × ((state : PathState)
        → search_existing_path_state m id n ≡ some state
        → ReadableState store repo_path state)
    × AllReadable m id store repo_path subnodes
    × AllReadable m id store repo_path next
