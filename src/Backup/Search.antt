-- ===== src/Backup/Search.antt =====
-- src/backup.c, the part that handles the results of a search: handleFoundNode(),
-- handleNotFoundSubnodes() and what they call. POSIX regular expressions are a parameter.
use nano_backup.Prelude.{Bool, false, ◌||◌, not, List, [], ◌∷◌, Option, none, some}
use nano_backup.Prelude.{◌==◌, bytes_eq, if◌then◌else◌, Result, ok, die, null_pointer, ◌>>=◌}
use nano_backup.Str.{Bytes, str, split_path}
use nano_backup.Hint.{BackupPolicy, hint_set, hint_no_pol, bh_none, bh_added, bpol_none, bpol_track}
use nano_backup.Metadata.{
  non_existing, type_of, pst_non_existing, current, Point, PathHistory, PathList, null, node,
  Metadata,
}
use nano_backup.Backup.{
  Entry, latest, drop_reference, refer_to_current, handle_policy_changes, handle_removed_path,
  prepare_node_for_wiping_recursively,
}
use nano_backup.Backup.Changes.{Files, SearchResult, set_path_history_state, handle_node_changes}

-- The new point, whose `next` is set where it is used
unfoldable pub build_path_history_point :
    Files → Metadata → SearchResult → Result (Metadata × Point)
unfolding refer_to_current set_path_history_state
build_path_history_point f m r = do
  m' ← refer_to_current m
  state ← set_path_history_state f non_existing r
  ok (m', record { backup = current; state = state })

unfoldable pub reassign_point_to_current : Metadata → Point → Result (Metadata × Point)
unfolding drop_reference refer_to_current
reassign_point_to_current m point = do
  m' ← refer_to_current (drop_reference m point.backup)
  ok (m', record point { backup = current })

-- The branch of handleFoundNode() for policies that keep one state. The history is given apart, as
-- `*node->history`, its first point, is changed in place.
unfoldable pub found_untracked :
    Files → Metadata → Entry → PathHistory → SearchResult → Result (Metadata × Entry)
unfolding handle_node_changes reassign_point_to_current
found_untracked f m e [] r = die null_pointer
found_untracked f m e (point ∷ rest) r = do
  (n, state) ← handle_node_changes f e.node point.state r
  let point' : Point = record point { state = state }
  (if not (hint_no_pol n.hint == bh_none) || r.policy == bpol_none
      then (do
        (m', point'') ← reassign_point_to_current m point'
        ok (m', record e { node = record n { history = point'' ∷ rest } }))
      else ok (m, record e { node = record n { history = point' ∷ rest } }))

-- The branch for a tracked path that was removed and is there again
unfoldable pub found_again : Files → Metadata → Entry → SearchResult → Result (Metadata × Entry)
unfolding build_path_history_point
found_again f m e r = do
  (m', point) ← build_path_history_point f m r
  ok (
    m',
    record e {
      node = record e.node {
        hint = hint_set e.node.hint bh_added;
        history = point ∷ e.node.history;
      };
    },
  )

-- The last branch of handleFoundNode(): a new point only where something has changed
unfoldable pub found_tracked : Files → Metadata → Entry → SearchResult → Result (Metadata × Entry)
unfolding handle_node_changes refer_to_current
found_tracked f m e r = do
  (n, state) ← handle_node_changes f e.node (latest e.node.history) r
  (if not (hint_no_pol n.hint == bh_none)
      then (do
        m' ← refer_to_current m
        ok (
          m',
          record e {
            node = record n { history = (record { backup = current; state = state }) ∷ n.history };
          },
        ))
      else ok (m, record e { node = n }))

unfoldable pub handle_found_node :
    Files → Metadata → Entry → SearchResult → Result (Metadata × Entry)
unfolding handle_policy_changes found_untracked found_tracked found_again
handle_found_node f m e r = do
  (m', e') ← handle_policy_changes m e r.policy
  (if not (r.policy == bpol_track)
      then found_untracked f m' e' e'.node.history r
      else if type_of (latest e'.node.history) == pst_non_existing
      then found_again f m' e' r
      else found_tracked f m' e' r)

-- The fields of a SearchNode of src/search-tree.h that are read here: `search_node name regex
-- policy subnodes next`
pub data SearchNodes (Regex : Type 0) : Type 0 where
  no_node : SearchNodes Regex
  search_node :
      Bytes
      → Option Regex
      → BackupPolicy
      → SearchNodes Regex
      → SearchNodes Regex
      → SearchNodes Regex

module _ {Regex : Type 0} (is_matching : Regex → Bytes → Bool) where
  unfoldable pub search_node_matches : Bytes → Option Regex → Bytes → Bool
  search_node_matches name (some regex) path_tail = is_matching regex path_tail
  search_node_matches name none path_tail = bytes_eq name path_tail

  -- The first node of a list that matches a path
  unfoldable pub first_match : SearchNodes Regex → Bytes → SearchNodes Regex
  unfolding search_node_matches
  first_match no_node path_tail = no_node
  first_match (search_node name regex policy subnodes next) path_tail =
      if search_node_matches name regex path_tail
      then search_node name regex policy subnodes next
      else first_match next path_tail

  -- `no_node` as the second argument, and as the result, stands for NULL.
  unfoldable pub matches_search_subnodes : Bytes → SearchNodes Regex → SearchNodes Regex
  unfolding first_match split_path
  matches_search_subnodes path no_node = no_node
  matches_search_subnodes path (search_node name regex policy subnodes next) =
      first_match subnodes (split_path (str path)).tail.content

  unfoldable pub matches_ignore_list : Bytes → List Regex → Bool
  matches_ignore_list path [] = false
  matches_ignore_list path (regex ∷ rest) = is_matching regex path || matches_ignore_list path rest

  -- What happens to a node that was not found, by the node of the search tree that matches it
  unfoldable pub handle_by_match :
      Metadata → SearchNodes Regex → BackupPolicy → Entry → List Regex → Result (Metadata × Entry)
  unfolding handle_removed_path matches_ignore_list prepare_node_for_wiping_recursively
  handle_by_match m (search_node name regex policy subnodes next) node_policy e ignore_list =
      handle_removed_path m e policy
  handle_by_match m no_node node_policy e ignore_list =
      if node_policy == bpol_none || matches_ignore_list e.node.path ignore_list
      then ok (prepare_node_for_wiping_recursively m e)
      else handle_removed_path m e node_policy

  -- The body of the loop of handleNotFoundSubnodes()
  unfoldable pub handle_not_found_node :
      Metadata → SearchNodes Regex → BackupPolicy → Entry → List Regex → Result (Metadata × Entry)
  unfolding matches_search_subnodes handle_by_match
  handle_not_found_node m node_match node_policy e ignore_list =
      if not (e.node.hint == bh_none)
      then ok (m, e)
      else let subnode_match = matches_search_subnodes e.node.path node_match in
        handle_by_match m subnode_match node_policy e ignore_list

  unfoldable pub handle_not_found_subnodes :
      Metadata
      → SearchNodes Regex
      → BackupPolicy
      → PathList
      → List Regex
      → Result (Metadata × PathList)
  unfolding handle_not_found_node
  handle_not_found_subnodes m node_match node_policy null ignore_list = ok (m, null)
  handle_not_found_subnodes m node_match node_policy (node n subnodes next) ignore_list = do
    (m₁, e) ←
        handle_not_found_node m node_match node_policy (record { node = n; subnodes = subnodes })
          ignore_list
    (m₂, next') ← handle_not_found_subnodes m₁ node_match node_policy next ignore_list
    ok (m₂, node e.node e.subnodes next')
