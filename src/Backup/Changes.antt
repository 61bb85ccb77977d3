-- ===== src/Backup/Changes.antt =====
-- src/backup-helpers.c, and setPathHistoryState() of src/backup.c: how a path state gets the
-- properties of a file. The calls that read files are the parameter `Files`.
use nano_backup.Prelude.{ℕ, Bool, ◌&&◌, ◌||◌, not, [], ◌++◌, drop, take, length}
use nano_backup.Prelude.{
  ◌==◌, bytes_eq, if◌then◌else◌, ltb, Result, ok, die, ◌>>=◌, symlink_changed, file_changed,
}
use Prim.Native.Nat.{bit_and}
use nano_backup.Str.{Bytes}
use nano_backup.Hint.{
  BackupPolicy, BackupHint, hint_set, hint_no_pol, bh_none, bh_owner_changed,
  bh_permissions_changed, bh_timestamp_changed, bh_content_changed, bh_fresh_hash,
  bh_regular_to_symlink, bh_regular_to_directory, bh_symlink_to_regular, bh_symlink_to_directory,
  bh_directory_to_regular, bh_directory_to_symlink, bpol_none,
}
use nano_backup.Metadata.{
  PathState, non_existing, regular_file, symlink, directory, RegularFileInfo, Node, type_of,
  file_hash_size, pst_regular_file, pst_symlink, pst_directory,
}
use nano_backup.Backup.{latest}

-- The fields of struct stat that are read
pub record Stats : Type 0 where
  pub st_uid : ℕ
  pub st_gid : ℕ
  pub st_mode : ℕ
  pub st_mtime : ℕ
  pub st_size : ℕ
  pub st_blksize : ℕ

abbrev pub SearchResultType : Type 0
SearchResultType = ℕ

abbrev pub srt_regular_file : SearchResultType
srt_regular_file = 1

abbrev pub srt_symlink : SearchResultType
srt_symlink = 2

abbrev pub srt_directory : SearchResultType
srt_directory = 4

-- SearchResult of src/search.h, but for the node of the search tree
pub record SearchResult : Type 0 where
  pub type : SearchResultType
  pub path : Bytes
  pub policy : BackupPolicy
  pub stats : Stats

-- `read_target` is sSymlinkReadTarget(), `file_hash` fileHash(); `read_start path n` opens a file,
-- reads n bytes and says whether bytes are left.
pub record Files : Type 0 where
  pub read_target : Bytes → Result Bytes
  pub file_hash : Bytes → Stats → Result Bytes
  pub read_start : Bytes → ℕ → Result (Bytes × Bool)

-- The target of a symlink, when it is as long as its stats say
unfoldable pub checked_target : Files → Bytes → Stats → Result Bytes
checked_target f path stats = do
  target ← f.read_target path
  (if not (length target == stats.st_size) then die (symlink_changed path) else ok target)

abbrev pub with_hint : Node → BackupHint → Node
with_hint n hint = record n { hint = hint_set n.hint hint }

-- The regular file that a state is: hash and slot are undefined if it was none.
abbrev info_of : PathState → RegularFileInfo
info_of (regular_file uid gid info) = info
info_of _ = record { permission_bits = 0; modification_time = 0; size = 0; hash = []; slot = 0 }

unfoldable pub set_path_history_state : Files → PathState → SearchResult → Result PathState
unfolding checked_target
set_path_history_state f state r =
    if r.type == srt_regular_file
    then ok (
        regular_file r.stats.st_uid r.stats.st_gid (record (info_of state) {
          permission_bits = r.stats.st_mode;
          modification_time = r.stats.st_mtime;
          size = r.stats.st_size;
        }))
    else if r.type == srt_symlink
    then (do
      target ← checked_target f r.path r.stats
      ok (symlink r.stats.st_uid r.stats.st_gid target))
    else if r.type == srt_directory
    then ok (
        directory r.stats.st_uid r.stats.st_gid
          (record { permission_bits = r.stats.st_mode; modification_time = r.stats.st_mtime }))
    else ok state

-- The first bytes of a file that are compared with the stored ones
unfoldable pub read_content : Files → Node → RegularFileInfo → Stats → Result Bytes
read_content f n info stats = if ltb file_hash_size info.size then f.file_hash n.path stats else (do
  (content, bytes_left) ← f.read_start n.path info.size
  (if bytes_left then die (file_changed n.path) else ok content))

unfoldable pub check_file_content_changes :
    Files → Node → RegularFileInfo → Stats → Result (Node × RegularFileInfo)
unfolding read_content
check_file_content_changes f n info stats =
    let bytes_used = if ltb file_hash_size info.size then file_hash_size else info.size in
    (do
      hash ← read_content f n info stats
      (if not (bytes_eq (take bytes_used info.hash) (take bytes_used hash))
          then ok (
            with_hint (with_hint n bh_content_changed) bh_fresh_hash,
            record info { hash = take bytes_used hash ++ drop bytes_used info.hash },
          )
          else ok (n, info)))

-- The owner's part of applyNodeChanges(): the node, the uid and the gid
unfoldable pub owner_changes : Node → ℕ → ℕ → Stats → Node × ℕ × ℕ
owner_changes n uid gid stats =
    if not (uid == stats.st_uid) || not (gid == stats.st_gid)
    then (with_hint n bh_owner_changed, stats.st_uid, stats.st_gid)
    else (n, uid, gid)

-- The comparison of permission bits, for regular files and for directories
unfoldable pub permission_changes : Node → ℕ → Stats → Node × ℕ
permission_changes n permission_bits stats =
    if not (permission_bits == stats.st_mode)
    then (with_hint n bh_permissions_changed, stats.st_mode)
    else (n, permission_bits)

unfoldable pub timestamp_changes : Node → ℕ → Stats → Node × ℕ
timestamp_changes n modification_time stats =
    if not (modification_time == stats.st_mtime)
    then (with_hint n bh_timestamp_changed, stats.st_mtime)
    else (n, modification_time)

-- The comparison of sizes and contents
unfoldable pub content_changes :
    Files → Node → RegularFileInfo → Stats → Result (Node × RegularFileInfo)
unfolding check_file_content_changes
content_changes f n info stats =
    if not (info.size == stats.st_size)
    then ok (with_hint n bh_content_changed, record info { size = stats.st_size })
    else if not (bit_and n.hint bh_timestamp_changed == 0) && ltb 0 info.size
    then check_file_content_changes f n info stats
    else ok (n, info)

unfoldable pub apply_node_changes : Files → Node → PathState → Stats → Result (Node × PathState)
unfolding owner_changes permission_changes timestamp_changes content_changes checked_target
apply_node_changes f n non_existing stats = ok (n, non_existing)
apply_node_changes f n (regular_file uid gid info) stats =
    let (n₁, uid', gid') = owner_changes n uid gid stats in
    let (n₂, permission_bits) = permission_changes n₁ info.permission_bits stats in
    let (n₃, modification_time) = timestamp_changes n₂ info.modification_time stats in
    let info' : RegularFileInfo = record info {
      permission_bits = permission_bits;
      modification_time = modification_time;
    } in
    (do (n₄, info'') ← content_changes f n₃ info' stats; ok (n₄, regular_file uid' gid' info''))
apply_node_changes f n (symlink uid gid target) stats =
    let (n₁, uid', gid') = owner_changes n uid gid stats in
    (do
      found ← checked_target f n.path stats
      (if not (bytes_eq target found)
          then ok (with_hint n₁ bh_content_changed, symlink uid' gid' found)
          else ok (n₁, symlink uid' gid' target)))
apply_node_changes f n (directory uid gid info) stats =
    let (n₁, uid', gid') = owner_changes n uid gid stats in
    let (n₂, permission_bits) = permission_changes n₁ info.permission_bits stats in
    let (n₃, modification_time) = timestamp_changes n₂ info.modification_time stats in
    ok (
      n₃,
      directory uid' gid'
          (record { permission_bits = permission_bits; modification_time = modification_time }),
    )

-- handleFiletypeChanges()
unfoldable pub handle_filetype_changes : Node → SearchResultType → Node
handle_filetype_changes n type =
    if type_of (latest n.history) == pst_regular_file
    then (if type == srt_symlink
        then with_hint n bh_regular_to_symlink
        else if type == srt_directory
        then with_hint n bh_regular_to_directory
        else n)
    else if type_of (latest n.history) == pst_symlink
    then (if type == srt_regular_file
        then with_hint n bh_symlink_to_regular
        else if type == srt_directory
        then with_hint n bh_symlink_to_directory
        else n)
    else if type_of (latest n.history) == pst_directory
    then (if type == srt_regular_file
        then with_hint n bh_directory_to_regular
        else if type == srt_symlink
        then with_hint n bh_directory_to_symlink
        else n)
    else n

unfoldable pub handle_node_changes :
    Files → Node → PathState → SearchResult → Result (Node × PathState)
unfolding handle_filetype_changes apply_node_changes set_path_history_state
handle_node_changes f n state r =
    let n' = handle_filetype_changes n r.type in
    if hint_no_pol n'.hint == bh_none
    then apply_node_changes f n' state r.stats
    else if not (r.policy == bpol_none)
    then (do state' ← set_path_history_state f state r; ok (n', state'))
    else ok (n', state)
