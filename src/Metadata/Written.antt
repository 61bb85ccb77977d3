-- ===== src/Metadata/Written.antt =====
-- metadataWrite() of src/metadata.c, then metadataLoad(), through the file of the repository.
use nano_backup.Prelude.{
  ap, subst, ℕ, ◌^◌, ◌<◌, ◌≡◌, ◌≢◌, refl, sym, ◌∙◌, arith, [], ◌∷◌, length, drop, take-length,
  Option, none, some, ok, die, ◌>>=◌, cannot_access, not_regular_file, ltb, false, true,
  if◌then◌else◌, file_too_large, unexpected_end, file_changed,
}
use nano_backup.Str.{Bytes}
use nano_backup.SafeMath.{size_max}
use nano_backup.Streams.{s_fread, s_fbytes_left}
use nano_backup.Metadata.{Metadata}
use nano_backup.Metadata.Codec.{metadata_write}
use nano_backup.Metadata.RoundTrip.{metadata_load-metadata_write}
use nano_backup.Metadata.Numbers.{IsMetadata, stored}
use nano_backup.Repository.Store.{
  directory_of, Store, Item, file, folder, truncated, renamed, with_item, repo_writer_open,
  repo_writer_write, repo_writer_close, rename_written,
}
use nano_backup.Repository.Parents.{with_item-same, with_item-other}
use nano_backup.Metadata.Files.{s_get_files_content, write_metadata_file, load_metadata_file}

-- The branches on the size of a file
abbrev IsReadWhole : Bytes → Bytes → Type 0
IsReadWhole path content =
    (if ltb size_max (length content)
      then die (file_too_large path)
      else if ltb 0 (length content)
      then (do
        stream ← ok content
        (bytes, rest) ← s_fread (unexpected_end path) (length content) stream
        if s_fbytes_left rest then die (file_changed path) else ok bytes)
      else ok [])
    ≡ ok content

drop-all : (xs : Bytes) → length (drop (length xs) xs) ≡ 0
drop-all [] = refl
drop-all (x ∷ xs) = drop-all xs

read_whole : (path content : Bytes) → length content < 2 ^ 64 → IsReadWhole path content
read_whole path [] short = refl
read_whole path (x ∷ xs) short =
    let n : ℕ = length (x ∷ xs) in
    let fits : ltb size_max n ≡ false = ground arith in
    let some_left : ltb 0 n ≡ true = ground arith in
    let enough : ltb n n ≡ false = ground arith in
    rw (fits, some_left, enough, drop-all (x ∷ xs), take-length (x ∷ xs)) refl

-- sGetFilesContent() gives the whole content of a file of less than 2 ^ 64 bytes, also of an empty
-- one, and ends the program for a directory and for a path at which nothing is.
pub s_get_files_content_lem :
    (store : Store) (path : Bytes)
    → ((content : Bytes)
        → store path ≡ some (file content)
        → length content < 2 ^ 64
        → s_get_files_content store path ≡ ok content)
      × (store path ≡ some folder → s_get_files_content store path ≡ die (not_regular_file path))
      × (store path ≡ none → s_get_files_content store path ≡ die (cannot_access path))
unfolding s_get_files_content
s_get_files_content_lem store path =
    (λ content e short. rw (e, e) (read_whole path content short), λ e. rw e refl, λ e. rw e refl)

-- The items at which sFopenWrite() and sRename() fail
abbrev pub IsFree : Option Item → Type 0
IsFree item = item ≢ some folder

truncated-eq-ok :
    (store : Store) (path : Bytes) (item : Option Item)
    → IsFree item
    → truncated store path item ≡ ok (with_item store path (some (file [])))
truncated-eq-ok store path none free = refl
truncated-eq-ok store path (some (file content)) free = refl
truncated-eq-ok store path (some folder) free = absurd (free refl)

renamed-eq-ok :
    (store : Store) (old new : Bytes) (item : Item) (target : Option Item)
    → IsFree target
    → renamed store old new (some item) target
      ≡ ok (with_item (with_item store old none) new (some item))
renamed-eq-ok store old new item none free = refl
renamed-eq-ok store old new item (some (file content)) free = refl
renamed-eq-ok store old new item (some folder) free = absurd (free refl)

-- metadataWrite() with well-formed metadata, and a temporary path and a metadata path that stand in
-- directories and at which there is no directory, has a result: in the repository then, metadataLoad() gives `stored metadata`, the
-- temporary file is gone, and every other item is as it was.
pub load_metadata_file-write_metadata_file :
    (metadata : Metadata) (store : Store) (repo_path tmp path : Bytes)
    → IsMetadata metadata
    → tmp ≢ path
    → IsFree (store tmp)
    → IsFree (store path)
    → store (directory_of tmp) ≡ some folder
    → store (directory_of path) ≡ some folder
    → (store' : Store) × (write_metadata_file metadata store repo_path tmp path ≡ ok store')
      × (load_metadata_file store' path ≡ ok (stored metadata))
      × (store' tmp ≡ none)
      × ((other : Bytes) → other ≢ tmp → other ≢ path → store' other ≡ store other)
unfolding write_metadata_file load_metadata_file repo_writer_open repo_writer_write
    repo_writer_close rename_written
load_metadata_file-write_metadata_file metadata store repo_path tmp path v d f g in_tmp in_path =
    let content = metadata_write metadata in
    let opened = with_item store tmp (some (file [])) in
    let closed = with_item opened tmp (some (file content)) in
    let finished = with_item (with_item closed tmp none) path (some (file content)) in
    let kept = λ (other : Bytes) (h : other ≢ tmp).
      with_item-other opened tmp other (some (file content)) h
      ∙ with_item-other store tmp other (some (file [])) h in
    let at_path = kept path (λ same. d (sym same)) in
    let still_there : closed (directory_of path) ≡ some folder =
      kept (directory_of path) (λ same. f (ap store (sym same) ∙ in_path)) ∙ in_path in
    (
      finished,
      rw
          (
            in_tmp,
            truncated-eq-ok store tmp (store tmp) f,
            still_there,
            with_item-same opened tmp (some (file content)),
            renamed-eq-ok closed tmp path (file content) (closed path)
                (subst IsFree (sym at_path) g),
          )
          refl,
      rw
          ((s_get_files_content_lem finished path).0 content
            (with_item-same (with_item closed tmp none) path (some (file content))) v.file_size)
          (metadata_load-metadata_write metadata v),
      with_item-other (with_item closed tmp none) path tmp (some (file content)) d
          ∙ with_item-same closed tmp none,
      λ other h k.
          with_item-other (with_item closed tmp none) path other (some (file content)) k
          ∙ with_item-other closed tmp other none h
          ∙ kept other h,
    )
