-- ===== src/Integrity/Points.antt =====
-- The points of a tree of nodes for src/integrity.c: which of them are broken, without a cache.
use nano_backup.Prelude.{ℕ, ◌+◌, Bool, false, ◌&&◌, ◌||◌, not, [], ◌∷◌, ltb, if◌then◌else◌}
use nano_backup.Metadata.{
  PathState, regular_file, RegularFileInfo, PathHistory, PathList, null, node, file_hash_size,
}
use nano_backup.Repository.Paths.{IsInfo}
use nano_backup.Integrity.{BrokenNodes}

module _ (healthy : RegularFileInfo → Bool) where
  abbrev pub is_broken : PathState → Bool
  is_broken (regular_file uid gid i) = ltb file_hash_size i.size && not (healthy i)
  is_broken _ = false

  abbrev pub has_broken : PathHistory → Bool
  has_broken [] = false
  has_broken (point ∷ rest) = is_broken point.state || has_broken rest

  -- The nodes with a broken point, the last one of the tree first, before those of `found`
  abbrev pub broken_nodes : PathList → BrokenNodes → BrokenNodes
  broken_nodes null found = found
  broken_nodes (node n subnodes next) found =
      broken_nodes next (broken_nodes subnodes (if has_broken n.history then n ∷ found else found))

abbrev pub state_size : PathState → ℕ
state_size (regular_file uid gid i) = i.size
state_size _ = 0

abbrev pub history_size : PathHistory → ℕ
history_size [] = 0
history_size (point ∷ rest) = state_size point.state + history_size rest

-- The sizes of all files at all points
abbrev pub total_size : PathList → ℕ
total_size null = 0
total_size (node n subnodes next) = history_size n.history + (total_size subnodes + total_size next)

abbrev pub IsStateInfo : PathState → Type 0
IsStateInfo (regular_file uid gid i) = IsInfo i
IsStateInfo _ = Unit

abbrev pub AllHistory : PathHistory → Type 0
AllHistory [] = Unit
AllHistory (point ∷ rest) = IsStateInfo point.state × AllHistory rest

-- All file infos fit the program's types.
abbrev pub AllInfos : PathList → Type 0
AllInfos null = Unit
AllInfos (node n subnodes next) = AllHistory n.history × AllInfos subnodes × AllInfos next
