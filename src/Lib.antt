-- ===== src/Lib.antt =====
-- A model of nano-backup: the metadata of a backup repository, how they are read and written, and
-- how a backup changes them, with the proofs that these parts keep their promises.
--
-- nano-backup keeps a repository: a directory with the contents of files and one file of metadata.
-- The metadata are a tree of nodes, one for each path that was ever backed up, each with a history of
-- states; each state belongs to a backup, and a backup counts the states that refer to it. A backup
-- run loads the metadata, walks through the file system as the configuration says, compares what it
-- finds with the nodes, marks what is gone, and writes the metadata back. The parts are:
--
-- * SafeMath (src/safe-math.c): sums and products that end the program on overflow. The other parts
--   use them for sizes and reference counts.
-- * Str (src/str.c): string views and paths. Split is about strSplitPath(), Paths about stripping,
--   appending and parents, Dots about the elements "." and "..".
-- * Hint (src/backup-policies.h, and the hints of src/metadata.h): the bit sets that say what has
--   happened to a node, with backupHintSet() as `hint_set`.
-- * Metadata (src/metadata.h): the data. Codec is the writing half of src/metadata.c
--   (metadataWrite() is `metadata_write`), Load the reading half (metadataLoad() is
--   `metadata_load`). Reads, Histories, Trees, Numbers and RoundTrip put them together. Files and
--   Written have both with the file of the repository, by sGetFilesContent() of
--   src/safe-wrappers.c.
-- * Backup (src/backup.c): what happens to a node that is wiped, removed, found, not found or gets
--   another policy. Changes has the operations that compare a node with a file
--   (src/backup-helpers.c: applyNodeChanges() is `apply_node_changes`), Search those that handle a
--   search result (handleFoundNode() is `handle_found_node`, handleNotFoundSubnodes() is
--   `handle_not_found_subnodes`). Counting defines what the reference counts should be; Wiping,
--   Removal, Changed, Policies, RemovedPaths, Found, FoundCounts, FoundResult and NotFound are about
--   the operations, Comparison, Detection and Readable about the comparison with a file.
--   Finish is finishBackup(), with addFileToRepo() as `add_file_to_repo` and searchFileDuplicates()
--   as `search_file_duplicates`; Compare, Duplicates, Storing, Adding, Stored and Finished are about
--   it.
-- * StringTable (src/string-table.c): the hash table. Keys and Placement see it as a set of keys,
--   Values is about the values it gives back.
-- * Streams (src/safe-wrappers.c): reading of a file block by block, with the loop that hashing,
--   copying and restoring share; Blocks compares it with a single read. Lines has sReadLine() as
--   `s_read_line`.
-- * FileHash (src/file-hash.c): fileHash() as `file_hash`.
-- * Repository (src/repository.c): the unique path of a stored file, buildFilePath(), which Paths is
--   about. Store has the files of a repository, with RepoReader and RepoWriter, Writer what a closed
--   writer leaves, Directories and Parents the directories of a stored file.
-- * Integrity (src/integrity.c): checkIntegrity() as `check_integrity`. Files is about one stored
--   file, Points describes the broken nodes, Cache and Outcome compare them with the result.
-- * Restore (src/restore.c): initiateRestore() as `initiate_restore`; Finish has finishRestore() as
--   `finish_restore`, whose result is the list of its calls. States is about the state that is
--   restored, Marks about the hints, Creations and Created about a restore into an empty place,
--   RoundTrip about a file that is stored and restored.
-- * GarbageCollector (src/garbage-collector.c): which items of the repository are removed. Referenced
--   is about the table of the paths to keep, Removed about the decision, `should_be_removed`. Collect
--   has sRemoveRecursivelyIf() of src/safe-wrappers.c as `remove_items`, on a directory as a tree, and
--   the whole collection as `collect_garbage`; Remaining and Collected are about what is left.
-- * Tests has runs and instances at concrete inputs, Prelude the shared notation, lists and results.
--
-- A call of die() is the result `die`, a normal end `ok`; where handlePolicyChanges() or
-- handleFoundNode() would follow a NULL history, it is `die null_pointer`. Numbers are natural
-- numbers; where the program's integers have 64 bits, the wrap-around is written out or excluded by a hypothesis. A
-- function that changes an object gives the changed object back; a pointer to a backup is a name of
-- it, so that two points share its reference count. The files that are backed up, symlinks, hashes
-- and regular expressions are parameters; a repository is a store that functions get and give back.
-- An opened file is read as it was when it was opened. In a repository a file or directory can only
-- be made where a directory holds it.
--
-- Four recursions have fuel: the one over the elements of a path has the length of the path, as each
-- head is shorter than the path; the one over nested directories in a metadata file has the size of
-- the file, as each level reads eight bytes; the one over the blocks of a file has the size of the
-- file, as a block is not empty when the block size is not 0; and the one over the slots has 256
-- rounds, as a slot is a byte. With a block size of 0 the program's loop does not end, and the model
-- is stuck.
--
-- Not modelled: the search through the file system and the parser of the configuration, files that
-- cannot be removed in a garbage collection, the lock of a repository, failures of the disk in the
-- middle of a write, printing, the command line, memory allocation, and the byte order of big-endian
-- hosts.
pub mod Prelude
pub mod SafeMath
pub mod Str
pub mod Hint
pub mod Metadata
pub mod Backup
pub mod StringTable
pub mod Repository
pub mod GarbageCollector
mod Tests
pub mod Streams
pub mod FileHash
pub mod Integrity
pub mod Restore
