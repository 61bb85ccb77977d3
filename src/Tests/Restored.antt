-- ===== src/Tests/Restored.antt =====
-- Instances of the theorems on restoring: a directory with a small file, at the backup with id 0.
use nano_backup.Prelude.{
  ◌≡◌, refl, arith, true, false, [], ◌∷◌, some, ok, die, subst, sym, ◌∙◌, bytes_eq, if◌then◌else◌,
  cannot_access, ◌<◌, ◌⊎◌, slot_overflow,
}
use nano_backup.Str.{Bytes}
use nano_backup.Hint.{bh_none, bh_added, bpol_track}
use nano_backup.Metadata.{
  file_hash_size, Metadata, PathState, RegularFileInfo, Node, null, node, past, regular_file,
  directory,
}
use nano_backup.Repository.Store.{Store}
use nano_backup.Backup.Changes.{Files, Stats}
use nano_backup.Backup.Duplicates.{Differ}
use nano_backup.Backup.Adding.{hashed}
use nano_backup.Backup.Finish.{add_file_to_repo}
use nano_backup.Restore.{
  System, search_point, search_path_state, search_existing_path_state, initiate_restore,
}
use nano_backup.Restore.States.{FoundPoint, search_path_state-FoundPoint}
use nano_backup.Restore.Finish.{Actions, write, restore_file, finish_restore}
use nano_backup.Restore.RoundTrip.{
  RestoredFile, restore_file-RestoredFile, Restorable, add_file_to_repo-restore_file,
}
use nano_backup.Restore.Marks.{marked, IsSame, AllSame, restore_unchanged}
use nano_backup.Restore.Creations.{ReadableState, created, creations, AllReadable}
use nano_backup.Restore.Created.{restore_everything}
use nano_backup.Tests.Repositories.{
  sources, empty_store, repo, tmp_file, text, text_path, text_info, text_stats, text_store,
  text_stored, length_blake, length_blake-IsHash, empty_store-IsRepo, tmp_file-IsTmp,
  text_info-IsPrepared, text-IsUnchanged,
}

abbrev small_state : PathState
small_state = regular_file 1 2 (record {
  permission_bits = 33188;
  modification_time = 5;
  size = 3;
  hash = 7 ∷ 8 ∷ 9 ∷ [];
  slot = 0;
})

abbrev folder_state : PathState
folder_state = directory 1 2 (record { permission_bits = 16877; modification_time = 4 })

abbrev small_node : Node
small_node = record {
  path = b'/' ∷ b'd' ∷ b'/' ∷ b'f' ∷ [];
  hint = bh_none;
  policy = bpol_track;
  history = (record { backup = past 0; state = small_state }) ∷ [];
}

abbrev folder_node : Node
folder_node = record {
  path = b'/' ∷ b'd' ∷ [];
  hint = bh_none;
  policy = bpol_track;
  history = (record { backup = past 0; state = folder_state }) ∷ [];
}

abbrev tree : Metadata
tree = record {
  current_backup = record { id = 0; completion_time = 0; ref_count = 0 };
  backup_history = (record { id = 1; completion_time = 99; ref_count = 2 }) ∷ [];
  config_history = [];
  total_path_count = 2;
  path_table = [];
  paths = node folder_node (node small_node null null) null;
}

abbrev no_files : Files
no_files = record {
  read_target = λ path. die (cannot_access path);
  file_hash = λ path stats. die (cannot_access path);
  read_start = λ path n. die (cannot_access path);
}

abbrev empty_system : System
empty_system = record {
  path_exists = λ path. false;
  stat = λ path. die (cannot_access path);
  lstat = λ path. die (cannot_access path);
}

some_injective : {A : Type 0} {a b : A} → some a ≡ some b → a ≡ b
some_injective e = cc

folder_found : search_existing_path_state tree 1 folder_node ≡ some folder_state
unfolding search_existing_path_state search_path_state search_point
folder_found = refl

small_found : search_existing_path_state tree 1 small_node ≡ some small_state
unfolding search_existing_path_state search_path_state search_point
small_found = refl

search_path_state-FoundPoint_example :
    FoundPoint tree 1 folder_node.history (search_path_state tree 1 folder_node)
search_path_state-FoundPoint_example = search_path_state-FoundPoint tree 1 folder_node refl

restore_file-RestoredFile_example :
    RestoredFile text_path text_info text (restore_file text_store repo text_path text_info)
restore_file-RestoredFile_example =
    restore_file-RestoredFile text_store repo text_path text text_info (omega arith) text_stored

add_file_to_repo-restore_file_example :
    ((j : RegularFileInfo) × (store' : Store) × (add_file_to_repo sources empty_store repo tmp_file
          bh_added text_path text_info
        ≡ ok (j, store'))
      × Restorable store' repo tmp_file text_path text j)
    ⊎ ((file_hash_size < text_info.size)
        × Differ empty_store repo (hashed length_blake bh_added text_info text) text 256
        × (add_file_to_repo sources empty_store repo tmp_file bh_added text_path text_info
            ≡ die slot_overflow))
add_file_to_repo-restore_file_example =
    add_file_to_repo-restore_file sources empty_store repo tmp_file bh_added text_path text
      text_info text_stats length_blake-IsHash empty_store-IsRepo tmp_file-IsTmp
      text_info-IsPrepared text-IsUnchanged (λ h. refl)

small_written :
    restore_file empty_store repo small_node.path (record {
      permission_bits = 33188;
      modification_time = 5;
      size = 3;
      hash = 7 ∷ 8 ∷ 9 ∷ [];
      slot = 0;
    })
    ≡ ok (write small_node.path (7 ∷ 8 ∷ 9 ∷ []) ∷ [])
unfolding restore_file
small_written = refl

tree-AllReadable : AllReadable tree 1 empty_store repo tree.paths
tree-AllReadable = (
  refl,
  λ state e. subst (ReadableState empty_store repo) (some_injective (sym folder_found ∙ e)) tt,
  (
    refl,
    λ state e.
        subst (ReadableState empty_store repo) (some_injective (sym small_found ∙ e))
          (λ large. absurd (omega arith)),
    tt,
    tt,
  ),
  tt,
)

restore_everything_example :
    (initiate_restore no_files empty_system tree 1 [] ≡ ok (marked tree 1 tree.paths))
    × ((actions : Actions) × (finish_restore
            (record tree { paths = marked tree 1 tree.paths })
            1
            empty_store
            repo
          ≡ ok actions)
        × (created actions ≡ creations tree 1 empty_store repo tree.paths))
restore_everything_example =
    restore_everything no_files empty_system tree 1 empty_store repo (λ path. refl) tree-AllReadable

-- Every path exists, with the stats of the directory or of the file.
abbrev tree_stats : Bytes → Stats
tree_stats path =
    if bytes_eq path folder_node.path
    then record {
      st_uid = 1;
      st_gid = 2;
      st_mode = 16877;
      st_mtime = 4;
      st_size = 0;
      st_blksize = 4096;
    }
    else record {
      st_uid = 1;
      st_gid = 2;
      st_mode = 33188;
      st_mtime = 5;
      st_size = 3;
      st_blksize = 4096;
    }

abbrev tree_system : System
tree_system = record {
  path_exists = λ path. true;
  stat = λ path. ok (tree_stats path);
  lstat = λ path. ok (tree_stats path);
}

tree-AllSame : AllSame no_files tree_system tree 1 tree.paths
unfolding bytes_eq
tree-AllSame = (
  refl,
  λ state e.
      subst (IsSame no_files tree_system tree 1 folder_node) (some_injective (sym folder_found ∙ e))
        (refl, (tree_stats folder_node.path, refl, refl, (refl, refl, refl, refl)), tt),
  (
    refl,
    λ state e.
        subst (IsSame no_files tree_system tree 1 small_node) (some_injective (sym small_found ∙ e))
          (refl, (tree_stats small_node.path, refl, refl, (refl, refl, refl, refl, refl)), tt),
    tt,
    tt,
  ),
  tt,
)

restore_unchanged_example :
    (initiate_restore no_files tree_system tree 1 [] ≡ ok tree.paths)
    × (finish_restore tree 1 empty_store repo ≡ ok [])
restore_unchanged_example =
    restore_unchanged no_files tree_system tree 1 empty_store repo tree-AllSame
