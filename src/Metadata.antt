-- ===== src/Metadata.antt =====
-- src/metadata.h: the metadata of a repository. A pointer to a `Backup` is the name of the object:
-- `current` for `current_backup`, `past i` for `backup_history[i]`. The list of a directory's
-- nodes is the node that its pointer shows, with the node's subnodes and the next node.
-- Numbers are their bit patterns: a `time_t` is below 2 ^ 64, also where it stands for a negative
-- time.
pub mod Codec
pub mod Load
pub mod Reads
pub mod Histories
pub mod Trees
pub mod Numbers
pub mod RoundTrip
pub mod Files
pub mod Written
use nano_backup.Prelude.{ℕ, List, [], ◌∷◌, get_or}
use nano_backup.Str.{Bytes}
use nano_backup.Hint.{BackupHint, BackupPolicy}

-- FILE_HASH_SIZE of src/file-hash.h
abbrev pub file_hash_size : ℕ
file_hash_size = 20

-- RegularFileInfo of src/repository.h. `hash` holds the bytes that are defined: none for an empty
-- file, the file itself up to FILE_HASH_SIZE bytes, FILE_HASH_SIZE bytes above. `slot` is 0 where
-- it is undefined.
pub record RegularFileInfo : Type 0 where
  pub permission_bits : ℕ
  pub modification_time : ℕ
  pub size : ℕ
  pub hash : Bytes
  pub slot : ℕ

pub record DirectoryInfo : Type 0 where
  pub permission_bits : ℕ
  pub modification_time : ℕ

-- PathState with its type and union. Uid and gid are undefined for a path that does not exist.
pub data PathState : Type 0 where
  non_existing : PathState
  regular_file : ℕ → ℕ → RegularFileInfo → PathState
  symlink : ℕ → ℕ → Bytes → PathState
  directory : ℕ → ℕ → DirectoryInfo → PathState

abbrev pub pst_non_existing : ℕ
pst_non_existing = 0

abbrev pub pst_regular_file : ℕ
pst_regular_file = 1

abbrev pub pst_symlink : ℕ
pst_symlink = 2

abbrev pub pst_directory : ℕ
pst_directory = 3

-- state.type
abbrev pub type_of : PathState → ℕ
type_of non_existing = pst_non_existing
type_of (regular_file uid gid info) = pst_regular_file
type_of (symlink uid gid target) = pst_symlink
type_of (directory uid gid info) = pst_directory

pub record Backup : Type 0 where
  pub id : ℕ
  pub completion_time : ℕ
  pub ref_count : ℕ

pub data BackupRef : Type 0 where
  current : BackupRef
  past : ℕ → BackupRef

-- One element of the list PathHistory
pub record Point : Type 0 where
  pub backup : BackupRef
  pub state : PathState

abbrev pub PathHistory : Type 0
PathHistory = List Point

-- The fields of a PathNode but for its two pointers
pub record Node : Type 0 where
  pub path : Bytes
  pub hint : BackupHint
  pub policy : BackupPolicy
  pub history : PathHistory

-- `node n subnodes next`
pub data PathList : Type 0 where
  null : PathList
  node : Node → PathList → PathList → PathList

-- `path_table` holds the paths that were mapped, the latest first; the node of a path is the node
-- of `paths` that has it.
pub record Metadata : Type 0 where
  pub current_backup : Backup
  pub backup_history : List Backup
  pub config_history : PathHistory
  pub total_path_count : ℕ
  pub path_table : List Bytes
  pub paths : PathList

abbrev pub no_backup : Backup
no_backup = record { id = 0; completion_time = 0; ref_count = 0 }

-- metadataNew()
abbrev pub metadata_new : Metadata
metadata_new = record {
  current_backup = no_backup;
  backup_history = [];
  config_history = [];
  total_path_count = 0;
  path_table = [];
  paths = null;
}

-- *point->backup
abbrev pub backup_at : Metadata → BackupRef → Backup
backup_at m current = m.current_backup
backup_at m (past i) = get_or m.backup_history i no_backup
