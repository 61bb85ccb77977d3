-- ===== src/Backup.antt =====
-- src/backup.c, the part that works on the metadata: wiping, removal and policy changes of nodes.
-- A function of the program that gets the metadata and a pointer to a node gets the metadata and an
-- `Entry` here, and gives both back. The nodes are passed beside the metadata: its field `paths` is
-- not read by these functions. A node's history is never NULL (src/metadata.h), but
-- handlePolicyChanges() can make it NULL and then follows it: this is the outcome `null_pointer`.
pub mod Counting
pub mod Wiping
pub mod Removal
pub mod Changed
pub mod Policies
pub mod RemovedPaths
pub mod Changes
pub mod Search
pub mod Comparison
pub mod Detection
pub mod Found
pub mod Readable
pub mod FoundResult
pub mod FoundCounts
pub mod NotFound
pub mod Finish
pub mod Compare
pub mod Duplicates
pub mod Storing
pub mod Adding
pub mod Stored
pub mod Finished
use nano_backup.Prelude.{ℕ, zero, suc, ◌+◌, ◌-◌, Bool, true, false, ◌&&◌, ◌||◌, not, List, [], ◌∷◌}
use nano_backup.Prelude.{◌==◌, if◌then◌else◌, Result, ok, die, null_pointer, ◌>>=◌, ltb}
use nano_backup.SafeMath.{size_add, size_max}
use nano_backup.Hint.{
  BackupPolicy, bpol_none, bpol_mirror, bpol_track, hint_set, bh_unchanged, bh_removed,
  bh_not_part_of_repository, bh_policy_changed, bh_loses_history,
}
use nano_backup.Metadata.{
  PathState, non_existing, type_of, pst_non_existing, pst_directory, Backup, BackupRef, current,
  past, Point, PathHistory, Node, PathList, null, node, Metadata,
}
use nano_backup.Metadata.Codec.{is_kept}

-- A PathNode without its pointer to the next node
pub record Entry : Type 0 where
  pub node : Node
  pub subnodes : PathList

abbrev update_backup : (ℕ → ℕ) → Backup → Backup
update_backup f b = record b { ref_count = f b.ref_count }

abbrev pub update_at : (ℕ → ℕ) → ℕ → List Backup → List Backup
update_at f i [] = []
update_at f zero (b ∷ rest) = update_backup f b ∷ rest
update_at f (suc i) (b ∷ rest) = b ∷ update_at f i rest

-- A change of backup->ref_count
abbrev pub update_ref : (ℕ → ℕ) → BackupRef → Metadata → Metadata
update_ref f current m = record m { current_backup = update_backup f m.current_backup }
update_ref f (past i) m = record m { backup_history = update_at f i m.backup_history }

-- n-- of a size_t
abbrev pub decremented : ℕ → ℕ
decremented n = if n == 0 then size_max else n - 1

-- point->backup->ref_count--
unfoldable pub drop_reference : Metadata → BackupRef → Metadata
drop_reference m r = update_ref decremented r m

-- metadata->current_backup.ref_count = sSizeAdd(…, 1)
unfoldable pub refer_to_current : Metadata → Result Metadata
refer_to_current m = do
  n ← size_add m.current_backup.ref_count 1
  ok (record m { current_backup = record m.current_backup { ref_count = n } })

-- history->state, where the history is not NULL
abbrev pub latest : PathHistory → PathState
latest [] = non_existing
latest (point ∷ rest) = point.state

unfoldable pub decrement_ref_counts : Metadata → PathHistory → Metadata
unfolding drop_reference
decrement_ref_counts m [] = m
decrement_ref_counts m (point ∷ rest) = decrement_ref_counts (drop_reference m point.backup) rest

unfoldable pub prepare_node_for_wiping : Metadata → Node → Metadata × Node
unfolding decrement_ref_counts
prepare_node_for_wiping m n = if not (is_kept n) then (m, n) else (
  decrement_ref_counts (record m { total_path_count = decremented m.total_path_count }) n.history,
  record n { hint = hint_set n.hint bh_not_part_of_repository },
)

-- The loop over the subnodes in prepareNodeForWipingRecursively()
unfoldable pub wipe_list : Metadata → PathList → Metadata × PathList
unfolding prepare_node_for_wiping
wipe_list m null = (m, null)
wipe_list m (node n subnodes next) =
    let (m₁, n') = prepare_node_for_wiping m n in
    let (m₂, subnodes') = wipe_list m₁ subnodes in
    let (m₃, next') = wipe_list m₂ next in (m₃, node n' subnodes' next')

unfoldable pub prepare_node_for_wiping_recursively : Metadata → Entry → Metadata × Entry
unfolding wipe_list
prepare_node_for_wiping_recursively m e =
    let (m₁, n') = prepare_node_for_wiping m e.node in
    let (m₂, subnodes') = wipe_list m₁ e.subnodes in
    (m₂, record { node = n'; subnodes = subnodes' })

-- The steps of markAsRemovedRecursively() on the node itself: the new node, and the flag for its
-- subnodes.
unfoldable pub mark_node_as_removed : Metadata → Node → Bool → Result (Metadata × Node × Bool)
unfolding refer_to_current
mark_node_as_removed m n extend =
    if type_of (latest n.history) == pst_non_existing
    then ok (m, record n { hint = hint_set n.hint bh_unchanged }, extend)
    else let removed : Node = record n { hint = hint_set n.hint bh_removed } in
      if extend && n.policy == bpol_track
      then (do
        m' ← refer_to_current m
        ok (
          m',
          record removed {
            history = (record { backup = current; state = non_existing }) ∷ removed.history;
          },
          true,
        ))
      else ok (m, removed, false)

-- markAsRemovedRecursively() for each node of a list
unfoldable pub mark_list_as_removed : Metadata → PathList → Bool → Result (Metadata × PathList)
unfolding mark_node_as_removed
mark_list_as_removed m null extend = ok (m, null)
mark_list_as_removed m (node n subnodes next) extend =
    if not (is_kept n)
    then (do (m₁, next') ← mark_list_as_removed m next extend; ok (m₁, node n subnodes next'))
    else (do
      (m₁, n', extend') ← mark_node_as_removed m n extend
      (m₂, subnodes') ← mark_list_as_removed m₁ subnodes extend'
      (m₃, next') ← mark_list_as_removed m₂ next extend
      ok (m₃, node n' subnodes' next'))

unfoldable pub mark_as_removed_recursively : Metadata → Entry → Bool → Result (Metadata × Entry)
unfolding mark_list_as_removed
mark_as_removed_recursively m e extend = if not (is_kept e.node) then ok (m, e) else (do
  (m₁, n', extend') ← mark_node_as_removed m e.node extend
  (m₂, subnodes') ← mark_list_as_removed m₁ e.subnodes extend'
  ok (m₂, record { node = n'; subnodes = subnodes' }))

-- history->state
unfoldable pub first_state : PathHistory → Result PathState
first_state [] = die null_pointer
first_state (point ∷ rest) = ok point.state

-- The first test in the branch for tracked nodes of handlePolicyChanges(): a removed state in front
-- is dropped.
unfoldable pub drop_removed_state : Metadata → PathHistory → Result (Metadata × PathHistory)
unfolding drop_reference
drop_removed_state m [] = die null_pointer
drop_removed_state m (point ∷ rest) =
    if type_of point.state == pst_non_existing
    then ok (drop_reference m point.backup, rest)
    else ok (m, point ∷ rest)

-- The second test: all but the latest state are dropped.
unfoldable pub drop_older_states : Metadata → Node → PathHistory → Result (Metadata × Node)
unfolding decrement_ref_counts
drop_older_states m n [] = die null_pointer
drop_older_states m n (point ∷ []) = ok (m, record n { history = point ∷ [] })
drop_older_states m n (point ∷ older ∷ rest) = ok (
  decrement_ref_counts m (older ∷ rest),
  record n { history = point ∷ []; hint = hint_set n.hint bh_loses_history },
)

-- The third test and the new policy: subnodes of what is no directory any more are wiped.
unfoldable pub with_policy : Metadata → Node → PathList → BackupPolicy → Result (Metadata × Entry)
unfolding wipe_list first_state
with_policy m n subnodes policy = do
  state ← first_state n.history
  (if not (type_of state == pst_directory)
      then (let (m', subnodes') = wipe_list m subnodes in
          ok (m', record { node = record n { policy = policy }; subnodes = subnodes' }))
      else ok (m, record { node = record n { policy = policy }; subnodes = subnodes }))

unfoldable pub handle_policy_changes : Metadata → Entry → BackupPolicy → Result (Metadata × Entry)
unfolding drop_removed_state drop_older_states with_policy
handle_policy_changes m e policy =
    if e.node.policy == policy
    then ok (m, e)
    else let n : Node = record e.node { hint = hint_set e.node.hint bh_policy_changed } in
      if n.policy == bpol_track
      then (do
        (m₁, history) ← drop_removed_state m n.history
        (m₂, n') ← drop_older_states m₁ n history
        with_policy m₂ n' e.subnodes policy)
      else ok (m, record { node = record n { policy = policy }; subnodes = e.subnodes })

abbrev pub is_null : PathList → Bool
is_null null = true
is_null (node n subnodes next) = false

unfoldable pub handle_removed_path : Metadata → Entry → BackupPolicy → Result (Metadata × Entry)
unfolding handle_policy_changes prepare_node_for_wiping_recursively mark_as_removed_recursively
handle_removed_path m e policy = do
  (m', e') ← handle_policy_changes m e policy
  (if policy == bpol_mirror
      then ok (prepare_node_for_wiping_recursively m' e')
      else if policy == bpol_none
          && (is_null e'.subnodes || not (type_of (latest e'.node.history) == pst_directory))
      then (let (m'', n') = prepare_node_for_wiping m' e'.node in ok (m'', record e' { node = n' }))
      else mark_as_removed_recursively m' e' true)
