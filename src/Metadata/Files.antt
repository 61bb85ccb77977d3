-- ===== src/Metadata/Files.antt =====
-- sGetFilesContent() of src/safe-wrappers.c, and metadataWrite() and metadataLoad() of src/metadata.c
-- with the files that they write and read.
use nano_backup.Prelude.{
  ltb, not, [], Option, none, some, if◌then◌else◌, Result, ok, die, ◌>>=◌, cannot_access,
  not_regular_file, file_too_large, unexpected_end, file_changed,
}
use nano_backup.SafeMath.{size_max}
use nano_backup.Str.{Bytes}
use nano_backup.Metadata.{Metadata}
use nano_backup.Metadata.Codec.{metadata_write}
use nano_backup.Metadata.Load.{metadata_load}
use nano_backup.Streams.{s_fread, s_fbytes_left}
use nano_backup.Repository.Store.{
  Store, Item, repo_writer_open, repo_writer_write, repo_writer_close,
}
use nano_backup.Repository.Store
use nano_backup.Integrity.{item_stats, s_fopen_read}
use nano_backup.Restore.{s_isreg}

-- sGetFilesContent() from the item that sStat() finds; a repository has no symlinks.
abbrev pub item_content : Store → Bytes → Option Item → Result Bytes
item_content store path none = die (cannot_access path)
item_content store path (some item) =
    let file_stats = item_stats 0 item in
    if not (s_isreg file_stats.st_mode)
    then die (not_regular_file path)
    else if ltb size_max file_stats.st_size
    then die (file_too_large path)
    else if ltb 0 file_stats.st_size
    then (do
      stream ← s_fopen_read store path
      (content, rest) ← s_fread (unexpected_end path) file_stats.st_size stream
      if s_fbytes_left rest then die (file_changed path) else ok content)
    else ok []

unfoldable pub s_get_files_content : Store → Bytes → Result Bytes
s_get_files_content store path = item_content store path (store path)

-- metadataWrite(): `metadata_write` has the bytes that all calls of repoWriterWrite() write.
unfoldable pub write_metadata_file : Metadata → Store → Bytes → Bytes → Bytes → Result Store
write_metadata_file metadata store repo_path repo_tmp_file_path repo_metadata_path = do
  (store', writer) ←
      repo_writer_open store repo_path repo_tmp_file_path (Store.path repo_metadata_path)
  repo_writer_close store' (repo_writer_write writer (metadata_write metadata))

-- metadataLoad()
unfoldable pub load_metadata_file : Store → Bytes → Result Metadata
load_metadata_file store path = do content ← s_get_files_content store path; metadata_load content
