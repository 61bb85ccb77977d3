-- ===== src/Tests/Nodes.antt =====
-- Instances of the theorems on the nodes of a backup: a tracked file below a directory, in a
-- repository with one earlier backup.
use nano_backup.Prelude.{inr}
use nano_backup.Str.{split_path}
use nano_backup.Backup.Search.{matches_search_subnodes}
use nano_backup.Prelude.{
  ℕ, zero, suc, ◌+◌, ◌^◌, ◌<◌, ◌≤◌, ◌≡◌, refl, arith, true, false, List, [], ◌∷◌, ok, die,
  symlink_changed, none, bytes_eq, inl,
}
use nano_backup.Str.{Bytes}
use nano_backup.SafeMath.{size_add}
use nano_backup.Hint.{hint_no_pol, bh_none, hint_set, bpol_track, bpol_mirror}
use nano_backup.Metadata.{
  Metadata, BackupRef, PathState, PathList, null, node, Node, current, past, regular_file,
  directory, type_of,
}
use nano_backup.Metadata.Codec.{is_kept}
use nano_backup.Backup.{
  Entry, prepare_node_for_wiping_recursively, mark_as_removed_recursively, handle_policy_changes,
  handle_removed_path,
}
use nano_backup.Backup.Counting.{refs, count_history, count_list, count_entry, Covers, Balanced}
use nano_backup.Backup.Wiping.{IsWiped, prepare_node_for_wiping_recursively_lem}
use nano_backup.Backup.Removal.{
  IsEntry, size_entry, size_list, MarkedEntry, mark_as_removed_recursively_lem,
}
use nano_backup.Backup.Changed.{KeptHistory, KeptSubnodes}
use nano_backup.Backup.Policies.{PolicyChanged, handle_policy_changes_lem}
use nano_backup.Backup.RemovedPaths.{RemovedEntry, handle_removed_path_lem}
use nano_backup.Backup.Changes.{Files, Stats, SearchResult, srt_regular_file, apply_node_changes}
use nano_backup.Backup.Comparison.{Noted}
use nano_backup.Backup.Detection.{Describes, apply_node_changes_unchanged}
use nano_backup.Backup.Readable.{CanRead, apply_node_changes_lem}
use nano_backup.Backup.Search.{
  handle_found_node, SearchNodes, no_node, search_node, handle_not_found_subnodes,
}
use nano_backup.Backup.Found.{Tracked}
use nano_backup.Backup.FoundResult.{Found, handle_found_node-ok-Tracked}
use nano_backup.Backup.NotFound.{AllNotFound, AllSurvive, handle_not_found_subnodes_lem}

abbrev file_state : ℕ → List ℕ → PathState
file_state mtime hash =
    regular_file 1 2
      (record { permission_bits = 420; modification_time = mtime; size = 3; hash = hash; slot = 0 })

abbrev file : Node
file = record {
  path = b'/' ∷ b'd' ∷ b'/' ∷ b'f' ∷ [];
  hint = bh_none;
  policy = bpol_track;
  history = (record { backup = past 0; state = file_state 5 (7 ∷ 8 ∷ 9 ∷ []) }) ∷ [];
}

abbrev folder : Entry
folder = record {
  node = record {
    path = b'/' ∷ b'd' ∷ [];
    hint = bh_none;
    policy = bpol_track;
    history =
        (record {
          backup = past 0;
          state = directory 1 2 (record { permission_bits = 493; modification_time = 4 });
        })
        ∷ [];
  };
  subnodes = node file null null;
}

abbrev file_entry : Entry
file_entry = record { node = file; subnodes = null }

abbrev repository : Metadata
repository = record {
  current_backup = record { id = 0; completion_time = 0; ref_count = 0 };
  backup_history = (record { id = 0; completion_time = 99; ref_count = 2 }) ∷ [];
  config_history = [];
  total_path_count = 2;
  path_table = [];
  paths = null;
}

folder-IsEntry : IsEntry folder
folder-IsEntry = record { hint = omega arith; hints = (omega arith, tt, tt) }

file-IsEntry : IsEntry file_entry
file-IsEntry = record { hint = omega arith; hints = tt }

file_kept : is_kept file ≡ true
unfolding is_kept hint_no_pol
file_kept = refl

folder_kept : is_kept folder.node ≡ true
unfolding is_kept hint_no_pol
folder_kept = refl

folder_covered : Covers repository (λ r. count_entry r folder)
unfolding count_entry is_kept hint_no_pol count_history
folder_covered current = omega arith
folder_covered (past zero) = omega arith
folder_covered (past (suc i)) = ground arith

file_covered : Covers repository (λ r. count_entry r file_entry)
unfolding count_entry is_kept hint_no_pol count_history
file_covered current = omega arith
file_covered (past zero) = omega arith
file_covered (past (suc i)) = ground arith

files_covered : Covers repository (λ r. count_list r (node file null null))
unfolding count_list is_kept hint_no_pol count_history
files_covered current = omega arith
files_covered (past zero) = omega arith
files_covered (past (suc i)) = ground arith

prepare_node_for_wiping_recursively_lem_example :
    ((r : BackupRef)
      → refs r (prepare_node_for_wiping_recursively repository folder).0 + count_entry r folder
        ≡ refs r repository)
    × (is_kept (prepare_node_for_wiping_recursively repository folder).1.node ≡ false)
    × IsWiped (prepare_node_for_wiping_recursively repository folder).1.subnodes
prepare_node_for_wiping_recursively_lem_example =
    prepare_node_for_wiping_recursively_lem repository folder folder-IsEntry.hint
      folder-IsEntry.hints folder_covered

folder_room : refs current repository + size_entry folder < 2 ^ 64
unfolding size_entry
folder_room = omega arith

mark_as_removed_recursively_lem_example :
    (m' : Metadata) × (e' : Entry) × (mark_as_removed_recursively repository folder true
      ≡ ok (m', e'))
    × Balanced repository (λ r. count_entry r folder) m' (λ r. count_entry r e')
    × (refs current m' ≤ refs current repository + size_entry folder)
    × (is_kept folder.node ≡ false → e' ≡ folder)
    × (is_kept folder.node ≡ true → MarkedEntry folder e' true)
mark_as_removed_recursively_lem_example =
    mark_as_removed_recursively_lem repository folder true folder-IsEntry folder_room

handle_policy_changes_lem_example :
    (m' : Metadata) × (e' : Entry) × (handle_policy_changes repository folder bpol_mirror
      ≡ ok (m', e'))
    × PolicyChanged repository folder bpol_mirror m' e'
    × KeptHistory folder.node bpol_mirror e'.node.history
    × KeptSubnodes folder bpol_mirror e'
handle_policy_changes_lem_example =
    handle_policy_changes_lem repository folder bpol_mirror folder-IsEntry folder_kept
      folder_covered (inr (_, refl))

handle_removed_path_lem_example :
    (m' : Metadata) × (e' : Entry) × (handle_removed_path repository folder bpol_mirror
      ≡ ok (m', e'))
    × Balanced repository (λ r. count_entry r folder) m' (λ r. count_entry r e')
    × (refs current m' ≤ refs current repository + size_entry folder)
    × ((m₁ : Metadata) × (e₁ : Entry) × (handle_policy_changes repository folder bpol_mirror
          ≡ ok (m₁, e₁))
        × RemovedEntry e₁ bpol_mirror e')
handle_removed_path_lem_example =
    handle_removed_path_lem repository folder bpol_mirror folder-IsEntry folder_kept folder_covered
      folder_room (inr (_, refl))

-- A search tree whose root matches the directory and has a node for the file
abbrev search_tree : SearchNodes Bytes
search_tree =
    search_node (b'd' ∷ []) none bpol_track
      (search_node (b'f' ∷ []) none bpol_mirror no_node no_node) no_node

files_room : refs current repository + size_list (node file null null) < 2 ^ 64
unfolding size_list
files_room = omega arith

file-AllSurvive : AllSurvive bytes_eq search_tree bpol_track (node file null null)
unfolding matches_search_subnodes bytes_eq split_path
file-AllSurvive = ((λ h. inr (_, refl)), tt)

handle_not_found_subnodes_lem_example :
    (m' : Metadata) × (l' : PathList) × (handle_not_found_subnodes bytes_eq repository search_tree
        bpol_track
        (node file null null)
        []
      ≡ ok (m', l'))
    × Balanced repository (λ r. count_list r (node file null null)) m' (λ r. count_list r l')
    × (refs current m' ≤ refs current repository + size_list (node file null null))
    × AllNotFound bytes_eq search_tree bpol_track [] (node file null null) l'
handle_not_found_subnodes_lem_example =
    handle_not_found_subnodes_lem bytes_eq (node file null null) repository search_tree bpol_track
      [] (omega arith, tt, tt) files_covered files_room file-AllSurvive

-- The file is found with other contents and a later timestamp.
abbrev files : Files
files = record {
  read_target = λ path. die (symlink_changed path);
  file_hash = λ path stats. ok [];
  read_start = λ path n. ok (7 ∷ 8 ∷ 10 ∷ [], false);
}

abbrev stats_at : ℕ → Stats
stats_at mtime = record {
  st_uid = 1;
  st_gid = 2;
  st_mode = 420;
  st_mtime = mtime;
  st_size = 3;
  st_blksize = 2;
}

abbrev found : SearchResult
found = record {
  type = srt_regular_file;
  path = file.path;
  policy = bpol_track;
  stats = stats_at 6;
}

abbrev changed_file : Node
changed_file = record file { hint = 448 }

apply_node_changes_run :
    apply_node_changes files file (file_state 5 (7 ∷ 8 ∷ 9 ∷ [])) (stats_at 6)
    ≡ ok (changed_file, file_state 6 (7 ∷ 8 ∷ 10 ∷ []))
unfolding apply_node_changes hint_set bytes_eq
apply_node_changes_run = refl

-- The file can be read with its three bytes.
files-CanRead : CanRead files file.path srt_regular_file (stats_at 6)
files-CanRead = record {
  target = λ e. absurd (omega (arith, e));
  hash = λ e. ([], refl);
  start = λ e. (7 ∷ 8 ∷ 10 ∷ [], refl);
}

apply_node_changes_lem_example :
    (n' : Node) × (s' : PathState) × (apply_node_changes files file
        (file_state 5 (7 ∷ 8 ∷ 9 ∷ []))
        (stats_at 6)
      ≡ ok (n', s'))
    × Noted file n' (s' ≡ file_state 5 (7 ∷ 8 ∷ 9 ∷ []))
    × Describes s' (stats_at 6)
    × (type_of s' ≡ type_of (file_state 5 (7 ∷ 8 ∷ 9 ∷ [])))
apply_node_changes_lem_example =
    apply_node_changes_lem files file (file_state 5 (7 ∷ 8 ∷ 9 ∷ [])) srt_regular_file (stats_at 6)
      (omega arith) refl files-CanRead

apply_node_changes_unchanged_example :
    apply_node_changes files file (file_state 5 (7 ∷ 8 ∷ 9 ∷ [])) (stats_at 5)
    ≡ ok (file, file_state 5 (7 ∷ 8 ∷ 9 ∷ []))
apply_node_changes_unchanged_example =
    apply_node_changes_unchanged files file (file_state 5 (7 ∷ 8 ∷ 9 ∷ [])) (stats_at 5)
      (refl, refl, refl, refl, refl) refl tt

abbrev repository_found : Metadata
repository_found = record repository {
  current_backup = record { id = 0; completion_time = 0; ref_count = 1 };
}

abbrev entry_found : Entry
entry_found = record {
  node = record changed_file {
    history =
        (record { backup = current; state = file_state 6 (7 ∷ 8 ∷ 10 ∷ []) })
        ∷ (record { backup = past 0; state = file_state 5 (7 ∷ 8 ∷ 9 ∷ []) })
        ∷ [];
  };
  subnodes = null;
}

handle_found_node_run :
    handle_found_node files repository file_entry found ≡ ok (repository_found, entry_found)
unfolding handle_found_node hint_set hint_no_pol bytes_eq size_add
handle_found_node_run = refl

file-Found : Found files file found
file-Found = (refl, inl refl, files-CanRead)

handle_found_node-ok-Tracked_example :
    (m' : Metadata) × (e' : Entry) × (handle_found_node files repository file_entry found
      ≡ ok (m', e'))
    × Tracked repository file_entry m' e'
unfolding hint_no_pol
handle_found_node-ok-Tracked_example =
    handle_found_node-ok-Tracked files repository file_entry found file-IsEntry refl file_covered
      file-Found (omega arith) refl refl
