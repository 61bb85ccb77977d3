-- ===== src/Restore.antt =====
-- src/restore.c, the part that compares the repository with the file system: which state of a node is
-- restored, and how its hint is set. The calls that look at the file system are the parameters
-- `System` and `Files`; the metadata are only read for the ids of the backups.
pub mod States
pub mod Marks
pub mod Finish
pub mod RoundTrip
pub mod Creations
pub mod Created
use Prim.Native.Nat.{bit_and}
use nano_backup.Prelude.{
  ℕ, ◌^◌, Bool, true, false, ◌&&◌, not, [], ◌∷◌, leb, ◌==◌, bytes_eq, if◌then◌else◌, length, Option,
  none, some, Result, ok, die, ◌>>=◌, path_did_not_exist, path_was_no_directory,
  path_not_in_repository,
}
use nano_backup.Str.{Bytes, str, is_parent_path}
use nano_backup.Hint.{
  BackupHint, hint_no_pol, bh_none, bh_added, bh_regular_to_symlink, bh_regular_to_directory,
  bh_symlink_to_regular, bh_symlink_to_directory, bh_directory_to_regular, bh_directory_to_symlink,
  bh_other_to_regular, bh_other_to_symlink, bh_other_to_directory, bpol_track,
}
use nano_backup.Metadata.{
  PathState, non_existing, regular_file, symlink, directory, Point, PathHistory, Node, PathList,
  null, node, Metadata, backup_at, type_of, pst_directory, pst_symlink,
}
use nano_backup.Backup.{latest}
use nano_backup.Backup.Changes.{Files, Stats, apply_node_changes, with_hint}

-- sPathExists(), sStat() and sLStat()
pub record System : Type 0 where
  pub path_exists : Bytes → Bool
  pub stat : Bytes → Result Stats
  pub lstat : Bytes → Result Stats

-- S_ISREG(), S_ISDIR() and S_ISLNK() for the values of Linux
abbrev pub s_isreg : ℕ → Bool
s_isreg mode = bit_and mode 61440 == 32768

abbrev pub s_isdir : ℕ → Bool
s_isdir mode = bit_and mode 61440 == 16384

abbrev pub s_islnk : ℕ → Bool
s_islnk mode = bit_and mode 61440 == 40960

-- The loop of searchPathState()
unfoldable pub search_point : Metadata → ℕ → PathHistory → Option PathState
search_point m id [] = none
search_point m id (point ∷ older) =
    if leb id (backup_at m point.backup).id then some point.state else search_point m id older

unfoldable pub search_path_state : Metadata → ℕ → Node → Option PathState
search_path_state m id n =
    if not (n.policy == bpol_track) then some (latest n.history) else search_point m id n.history

abbrev pub existing : Option PathState → Option PathState
existing (some non_existing) = none
existing state = state

unfoldable pub search_existing_path_state : Metadata → ℕ → Node → Option PathState
search_existing_path_state m id n = existing (search_path_state m id n)

abbrev found_state : Bytes → Option PathState → Result PathState
found_state path none = die (path_did_not_exist path)
found_state path (some state) = ok state

unfoldable pub find_existing_path_state : Metadata → ℕ → Node → Result PathState
find_existing_path_state m id n = found_state n.path (search_existing_path_state m id n)

-- handleFiletypeChanges()
unfoldable pub handle_mode_changes : Node → PathState → ℕ → Node
handle_mode_changes n non_existing mode = n
handle_mode_changes n (regular_file uid gid i) mode =
    if s_islnk mode
    then with_hint n bh_symlink_to_regular
    else if s_isdir mode
    then with_hint n bh_directory_to_regular
    else if not (s_isreg mode)
    then with_hint n bh_other_to_regular
    else n
handle_mode_changes n (symlink uid gid target) mode =
    if s_isreg mode
    then with_hint n bh_regular_to_symlink
    else if s_isdir mode
    then with_hint n bh_directory_to_symlink
    else if not (s_islnk mode)
    then with_hint n bh_other_to_symlink
    else n
handle_mode_changes n (directory uid gid i) mode =
    if s_isreg mode
    then with_hint n bh_regular_to_directory
    else if s_islnk mode
    then with_hint n bh_symlink_to_directory
    else if not (s_isdir mode)
    then with_hint n bh_other_to_directory
    else n

-- The hint stands for a path that is missing or has another type.
abbrev pub is_replaced : BackupHint → Bool
is_replaced hint = leb bh_added (hint_no_pol hint) && leb (hint_no_pol hint) bh_other_to_directory

module _ (f : Files) (system : System) where
  unfoldable pub compare_existing : Node → PathState → Result Node
  unfolding handle_mode_changes
  compare_existing n state = do
    stats ← (if type_of state == pst_symlink then system.lstat n.path else system.stat n.path)
    let n' = handle_mode_changes n state stats.st_mode
    (if hint_no_pol n'.hint == bh_none
        then (do (n'', dummy_state) ← apply_node_changes f n' state stats; ok n'')
        else ok n')

  unfoldable pub check_and_handle_changes : Node → PathState → Bool → Result Node
  unfolding compare_existing
  check_and_handle_changes n state could_exist =
      if could_exist && system.path_exists n.path
      then compare_existing n state
      else ok (with_hint n bh_added)

  -- checkAndHandleChangesRecursively(), with its loop over the subnodes as the last argument
  unfoldable pub check_entry :
      Node → PathState → Bool → PathList → (Bool → Result PathList) → Result (Node × PathList)
  check_entry n state could_exist subnodes check_subnodes = do
    n' ← check_and_handle_changes n state could_exist
    (if not (type_of state == pst_directory) then ok (n', subnodes) else (do
      subnodes' ← check_subnodes (could_exist && not (is_replaced n'.hint))
      ok (n', subnodes')))

  abbrev pub check_found :
      Node
      → Option PathState
      → Bool
      → PathList
      → (Bool → Result PathList)
      → Result (Node × PathList)
  check_found n none could_exist subnodes check_subnodes = ok (n, subnodes)
  check_found n (some state) could_exist subnodes check_subnodes =
      check_entry n state could_exist subnodes check_subnodes

  module _ (m : Metadata) (id : ℕ) where
    -- The loop over a list of nodes
    unfoldable pub check_list : PathList → Bool → Result PathList
    check_list null could_exist = ok null
    check_list (node n subnodes next) could_exist = do
      (n', subnodes') ←
          check_found n (search_existing_path_state m id n) could_exist subnodes
            (check_list subnodes)
      next' ← check_list next could_exist
      ok (node n' subnodes' next')

    unfoldable pub initiate_restore_recursively : Bytes → PathList → Bool → Result PathList
    initiate_restore_recursively path null could_exist = die (path_not_in_repository path)
    initiate_restore_recursively path (node n subnodes next) could_exist =
        if bytes_eq n.path path
        then (do
          state ← find_existing_path_state m id n
          (n', subnodes') ← check_entry n state could_exist subnodes (check_list subnodes)
          ok (node n' subnodes' next))
        else if is_parent_path (str n.path) (str path)
        then (do
          state ← find_existing_path_state m id n
          (if not (type_of state == pst_directory) then die (path_was_no_directory n.path) else (do
            n' ← check_and_handle_changes n state could_exist
            subnodes' ←
                initiate_restore_recursively path subnodes
                  (could_exist && not (is_replaced n'.hint))
            ok (node n' subnodes' next))))
        else (do
          next' ← initiate_restore_recursively path next could_exist
          ok (node n subnodes next'))

  -- initiateRestore(): the new nodes of the metadata
  unfoldable pub initiate_restore : Metadata → ℕ → Bytes → Result PathList
  initiate_restore m id path =
      if length path == 0
      then check_list m id m.paths true
      else initiate_restore_recursively m id path m.paths true
