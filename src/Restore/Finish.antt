-- ===== src/Restore/Finish.antt =====
-- The part of src/restore.c that changes the file system. What it does is the list of its calls, in
-- their order; a file is written with all its bytes in one of them, as sFopenWrite(), the calls of
-- sFwrite() and sFclose() stand for one new content. Stored files are read from the repository.
use Prim.Native.Nat.{bit_and}
use nano_backup.Prelude.{
  ℕ, Bool, true, false, ◌&&◌, ◌||◌, not, List, [], ◌∷◌, ◌++◌, take, ltb, leb, ◌==◌, if◌then◌else◌,
  Option, none, some, Result, ok, ◌>>=◌, unexpected_end,
}
use nano_backup.Str.{Bytes}
use nano_backup.Hint.{
  BackupHint, hint_no_pol, bh_added, bh_regular_to_symlink, bh_directory_to_regular,
  bh_directory_to_symlink, bh_other_to_directory, bh_owner_changed, bh_permissions_changed,
  bh_content_changed, bh_timestamp_changed, bpol_none,
}
use nano_backup.Metadata.{
  PathState, non_existing, regular_file, symlink, directory, RegularFileInfo, Node, PathList, null,
  node, Metadata, file_hash_size,
}
use nano_backup.Streams.{read_blocks}
use nano_backup.Repository.Store.{Store, repo_reader_open_file}
use nano_backup.Restore.{search_existing_path_state}

pub data Action : Type 0 where
  write : Bytes → Bytes → Action
  chown : Bytes → ℕ → ℕ → Action
  lchown : Bytes → ℕ → ℕ → Action
  chmod : Bytes → ℕ → Action
  utime : Bytes → ℕ → Action
  make_symlink : Bytes → Bytes → Action
  mkdir : Bytes → Action
  remove : Bytes → Action
  remove_recursively : Bytes → Action

abbrev pub Actions : Type 0
Actions = List Action

abbrev pub has_flag : BackupHint → BackupHint → Bool
has_flag hint flag = not (bit_and hint flag == 0)

unfoldable pub restore_file : Store → Bytes → Bytes → RegularFileInfo → Result Actions
unfolding repo_reader_open_file
restore_file store repo_path path i =
    if ltb file_hash_size i.size
    then (do
      reader ← repo_reader_open_file store repo_path path i
      (content, rest) ← read_blocks ◌++◌ (unexpected_end path) 4096 i.size i.size reader []
      ok (write path content ∷ []))
    else ok (write path (take i.size i.hash) ∷ [])

unfoldable pub restore_path : Store → Bytes → Bytes → PathState → Result Actions
restore_path store repo_path path non_existing = ok []
restore_path store repo_path path (regular_file uid gid i) = do
  written ← restore_file store repo_path path i
  ok (
      written
      ++ (chown path uid gid ∷ chmod path i.permission_bits ∷ utime path i.modification_time ∷ []))
restore_path store repo_path path (symlink uid gid target) =
    ok (make_symlink target path ∷ lchown path uid gid ∷ [])
restore_path store repo_path path (directory uid gid i) = ok (
    mkdir path
    ∷ chown path uid gid
    ∷ chmod path i.permission_bits
    ∷ utime path i.modification_time
    ∷ [])

unfoldable pub restore_owner : Bytes → PathState → Actions
restore_owner path non_existing = []
restore_owner path (regular_file uid gid i) = chown path uid gid ∷ []
restore_owner path (symlink uid gid target) = lchown path uid gid ∷ []
restore_owner path (directory uid gid i) = chown path uid gid ∷ []

unfoldable pub restore_permissions : Bytes → PathState → Actions
restore_permissions path (regular_file uid gid i) = chmod path i.permission_bits ∷ []
restore_permissions path (directory uid gid i) = chmod path i.permission_bits ∷ []
restore_permissions path _ = []

unfoldable pub restore_timestamp : Bytes → PathState → Actions
restore_timestamp path (regular_file uid gid i) = utime path i.modification_time ∷ []
restore_timestamp path (directory uid gid i) = utime path i.modification_time ∷ []
restore_timestamp path _ = []

-- The answer says whether the timestamp of the parent directory is affected.
unfoldable pub restore_content : Store → Bytes → Bytes → PathState → Result (Bool × Actions)
restore_content store repo_path path (regular_file uid gid i) = do
  written ← restore_file store repo_path path i
  ok (false, written ++ (utime path i.modification_time ∷ []))
restore_content store repo_path path (symlink uid gid target) = do
  restored ← restore_path store repo_path path (symlink uid gid target)
  ok (true, remove path ∷ restored)
restore_content store repo_path path state = ok (false, [])

-- The path has the type of its state: what the flags of the hint say is restored.
unfoldable pub restore_changes : Store → Bytes → Node → PathState → Result (Bool × Actions)
unfolding restore_owner restore_permissions restore_timestamp
restore_changes store repo_path n state =
    let owner = if has_flag n.hint bh_owner_changed then restore_owner n.path state else [] in
    let permissions =
      if has_flag n.hint bh_permissions_changed then restore_permissions n.path state else [] in
    (do
      (affects, content) ←
          (if has_flag n.hint bh_content_changed
            then restore_content store repo_path n.path state
            else ok (
              false,
              if has_flag n.hint bh_timestamp_changed then restore_timestamp n.path state else [],
            ))
      ok (affects, owner ++ (permissions ++ content)))

abbrev pub removal : BackupHint → Bytes → Action
removal hint path =
    if hint == bh_directory_to_regular || hint == bh_directory_to_symlink
    then remove_recursively path
    else remove path

-- The first part of finishRestoreRecursively(), for a node that existed
unfoldable pub restore_node : Store → Bytes → Node → PathState → Result (Bool × Actions)
restore_node store repo_path n state =
    if hint_no_pol n.hint == bh_added
    then (do restored ← restore_path store repo_path n.path state; ok (true, restored))
    else if leb bh_regular_to_symlink (hint_no_pol n.hint)
        && leb (hint_no_pol n.hint) bh_other_to_directory
    then (do
      restored ← restore_path store repo_path n.path state
      ok (true, removal (hint_no_pol n.hint) n.path ∷ restored))
    else if not (n.policy == bpol_none)
    then restore_changes store repo_path n state
    else ok (false, [])

-- The last part: the subnodes, and the time of the directory if they have changed it
unfoldable pub restore_subnodes : Node → PathState → Result (Bool × Actions) → Result Actions
restore_subnodes n (directory uid gid i) subnodes = do
  (changes_timestamp, restored) ← subnodes
  ok (
      restored
      ++ (if changes_timestamp && not (n.policy == bpol_none)
          then utime n.path i.modification_time ∷ []
          else []))
restore_subnodes n state subnodes = ok []

unfoldable pub restore_found :
    Store → Bytes → Node → Option PathState → Result (Bool × Actions) → Result (Bool × Actions)
restore_found store repo_path n none subnodes = ok (false, [])
restore_found store repo_path n (some state) subnodes = do
  (affects, restored) ← restore_node store repo_path n state
  below ← restore_subnodes n state subnodes
  ok (affects, restored ++ below)

-- finishRestoreRecursively() for each node of a list, with the disjunction of the answers
unfoldable pub finish_restore_list :
    Metadata → ℕ → Store → Bytes → PathList → Result (Bool × Actions)
finish_restore_list m id store repo_path null = ok (false, [])
finish_restore_list m id store repo_path (node n subnodes next) = do
  (affects, restored) ←
      restore_found store repo_path n (search_existing_path_state m id n)
        (finish_restore_list m id store repo_path subnodes)
  (affects', restored') ← finish_restore_list m id store repo_path next
  ok (affects || affects', restored ++ restored')

unfoldable pub finish_restore : Metadata → ℕ → Store → Bytes → Result Actions
finish_restore m id store repo_path = do
  (affects, restored) ← finish_restore_list m id store repo_path m.paths
  ok restored
