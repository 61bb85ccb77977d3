-- ===== src/Tests/Files.antt =====
-- Instances of the theorems on the files of metadata: a repository "/r" without metadata.
use nano_backup.Prelude.{
  ◌^◌, ◌<◌, ◌≡◌, ◌≢◌, [], ◌∷◌, length, none, some, ok, die, cannot_access, not_regular_file,
}
use nano_backup.Str.{Bytes}
use nano_backup.Metadata.Numbers.{stored}
use nano_backup.Metadata.Files.{s_get_files_content, write_metadata_file, load_metadata_file}
use nano_backup.Metadata.Written.{s_get_files_content_lem, load_metadata_file-write_metadata_file}
use nano_backup.Repository.Store.{directory_of, Store, file, folder, path_with_info}
use nano_backup.Tests.Repositories.{
  empty_store, empty_store-other, empty_store-root, repo, tmp_file, text_info, text_store,
}
use nano_backup.Tests.Stored.{sample, sample-IsMetadata}

abbrev metadata_file : Bytes
metadata_file = b'/' ∷ b'r' ∷ b'/' ∷ b'm' ∷ []

tmp_file_other : tmp_file ≢ metadata_file
tmp_file_other same = cc

load_metadata_file-write_metadata_file_example :
    (store' : Store) × (write_metadata_file sample empty_store repo tmp_file metadata_file
      ≡ ok store')
    × (load_metadata_file store' metadata_file ≡ ok (stored sample))
    × (store' tmp_file ≡ none)
    × ((other : Bytes)
        → other ≢ tmp_file
        → other ≢ metadata_file
        → store' other ≡ empty_store other)
unfolding directory_of
load_metadata_file-write_metadata_file_example =
    load_metadata_file-write_metadata_file sample empty_store repo tmp_file metadata_file
      sample-IsMetadata tmp_file_other (λ e. let no = empty_store-other tmp_file (λ s. cc) in cc)
      (λ e. let no = empty_store-other metadata_file (λ s. cc) in cc) empty_store-root
      empty_store-root

s_get_files_content_lem_example :
    ((content : Bytes)
      → text_store (path_with_info repo text_info) ≡ some (file content)
      → length content < 2 ^ 64
      → s_get_files_content text_store (path_with_info repo text_info) ≡ ok content)
    × (text_store (path_with_info repo text_info) ≡ some folder
        → s_get_files_content text_store (path_with_info repo text_info)
          ≡ die (not_regular_file (path_with_info repo text_info)))
    × (text_store (path_with_info repo text_info) ≡ none
        → s_get_files_content text_store (path_with_info repo text_info)
          ≡ die (cannot_access (path_with_info repo text_info)))
s_get_files_content_lem_example = s_get_files_content_lem text_store (path_with_info repo text_info)
