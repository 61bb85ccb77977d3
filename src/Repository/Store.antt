-- ===== src/Repository/Store.antt =====
-- The files of a repository with RepoReader and RepoWriter of src/repository.c, and the calls of
-- src/safe-wrappers.c that they use. A call fails when the item at its path is missing or stands in
-- its way, and a call that makes an item fails when there is no directory to hold it; the kernel's
-- other reasons (rights, devices) are left out. A directory that is opened for reading can never be
-- read: here already sFopenRead() fails. The sums of path lengths, which fit into memory, are not
-- tested for an overflow.
-- Locks are left out too. What a writer got reaches its file when it is flushed.
use nano_backup.Prelude.{
  ◌+◌, ◌==◌, ◌||◌, not, Bool, true, false, ◌++◌, [], ◌∷◌, take, length, bytes_eq, if◌then◌else◌,
  Option, none, some, Result, ok, die, ◌>>=◌, cannot_open, cannot_create, cannot_rename,
}
use nano_backup.Str.{Bytes, slash}
use nano_backup.Metadata.{RegularFileInfo}
use nano_backup.Repository.{build_file_path}
use nano_backup.Streams.{Stream}

pub data Item : Type 0 where
  file : Bytes → Item
  folder : Item

abbrev pub Store : Type 0
Store = Bytes → Option Item

unfoldable pub with_item : Store → Bytes → Option Item → Store
with_item store path item other = if bytes_eq other path then item else store other

-- sPathExists()
abbrev pub s_path_exists : Option Item → Bool
s_path_exists none = false
s_path_exists (some item) = true

abbrev opened : Bytes → Option Item → Result Stream
opened source_path (some (file content)) = ok content
opened source_path _ = die (cannot_open source_path)

abbrev pub has_slash : Bytes → Bool
has_slash [] = false
has_slash (c ∷ rest) = c == slash || has_slash rest

-- What stands before the last slash: the path of the directory that holds the item. The empty path
-- is that of the root, and of the working directory.
unfoldable pub directory_of : Bytes → Bytes
directory_of [] = []
directory_of (c ∷ rest) = if has_slash rest then c ∷ directory_of rest else []

abbrev pub is_folder : Option Item → Bool
is_folder (some folder) = true
is_folder _ = false

abbrev pub has_directory : Store → Bytes → Bool
has_directory store path = is_folder (store (directory_of path))

-- sFopenWrite(): the file at the path becomes empty.
abbrev pub truncated : Store → Bytes → Option Item → Result Store
truncated store path (some folder) = die (cannot_open path)
truncated store path _ = ok (with_item store path (some (file [])))

abbrev pub s_fopen_write : Store → Bytes → Result Store
s_fopen_write store path =
    if has_directory store path then truncated store path (store path) else die (cannot_open path)

abbrev pub s_mkdir : Store → Bytes → Result Store
s_mkdir store path =
    if s_path_exists (store path) || not (has_directory store path)
    then die (cannot_create path)
    else ok (with_item store path (some folder))

abbrev pub renamed : Store → Bytes → Bytes → Option Item → Option Item → Result Store
renamed store old new none target = die (cannot_rename old)
renamed store old new (some item) (some folder) = die (cannot_rename old)
renamed store old new (some item) _ = ok (with_item (with_item store old none) new (some item))

abbrev pub s_rename : Store → Bytes → Bytes → Result Store
s_rename store old new =
    if has_directory store new
    then renamed store old new (store old) (store new)
    else die (cannot_rename old)

-- The path that fillPathBufferWithInfo() writes to path_buffer
unfoldable pub path_with_info : Bytes → RegularFileInfo → Bytes
unfolding build_file_path
path_with_info repo_path info = repo_path ++ (slash ∷ build_file_path info)

unfoldable pub repo_regular_file_exists : Store → Bytes → RegularFileInfo → Bool
unfolding path_with_info
repo_regular_file_exists store repo_path info =
    s_path_exists (store (path_with_info repo_path info))

unfoldable pub repo_reader_open_file : Store → Bytes → Bytes → RegularFileInfo → Result Stream
unfolding path_with_info
repo_reader_open_file store repo_path source_file_path info =
    opened source_file_path (store (path_with_info repo_path info))

pub data RenameTo : Type 0 where
  path : Bytes → RenameTo
  info : RegularFileInfo → RenameTo

pub record RepoWriter : Type 0 where
  pub repo_path : Bytes
  pub repo_tmp_file_path : Bytes
  pub stream : Bytes
  pub rename_to : RenameTo

-- repoWriterOpenFile() and repoWriterOpenRaw()
unfoldable pub repo_writer_open : Store → Bytes → Bytes → RenameTo → Result (Store × RepoWriter)
repo_writer_open store repo_path repo_tmp_file_path rename_to = do
  store' ← s_fopen_write store repo_tmp_file_path
  ok (
    store',
    record {
      repo_path = repo_path;
      repo_tmp_file_path = repo_tmp_file_path;
      stream = [];
      rename_to = rename_to;
    },
  )

unfoldable pub repo_writer_write : RepoWriter → Bytes → RepoWriter
repo_writer_write w block = record w { stream = w.stream ++ block }

-- "Ensure that the final paths parent directories exists."
unfoldable pub ensure_parents : Store → Bytes → Bytes → Result Store
ensure_parents store repo_path full =
    let outer = take (length repo_path + 2) full in
    let inner = take (length repo_path + 5) full in
    if s_path_exists (store inner) then ok store else (do
      store' ← (if s_path_exists (store outer) then ok store else s_mkdir store outer)
      s_mkdir store' inner)

unfoldable pub rename_written : Store → Bytes → Bytes → RenameTo → Result Store
unfolding path_with_info ensure_parents
rename_written store repo_path tmp (path final_path) = s_rename store tmp final_path
rename_written store repo_path tmp (info i) = do
  store' ← ensure_parents store repo_path (path_with_info repo_path i)
  s_rename store' tmp (path_with_info repo_path i)

unfoldable pub repo_writer_close : Store → RepoWriter → Result Store
unfolding rename_written
repo_writer_close store w =
    rename_written (with_item store w.repo_tmp_file_path (some (file w.stream))) w.repo_path
      w.repo_tmp_file_path w.rename_to
