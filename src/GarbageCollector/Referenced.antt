-- ===== src/GarbageCollector/Referenced.antt =====
-- src/garbage-collector.c: the paths that are kept are those of the stored files that the metadata
-- refer to.
use nano_backup.Prelude.{
  ℕ, ◌+◌, ◌*◌, ◌^◌, ◌<◌, ◌≤◌, ◌≡◌, refl, ap, ◌∙◌, arith, inl, inr, Bool, true, false, ◌||◌, ◌&&◌,
  Bool-cases,
}
use nano_backup.Prelude.{[], ◌∷◌, ltb, bytes_eq, eq_of_bytes_eq, Result, ok, ◌>>=◌, length}
use nano_backup.Str.{Bytes}
use nano_backup.Metadata.{
  PathState, non_existing, regular_file, symlink, directory, PathHistory, PathList, null, node,
  file_hash_size,
}
use nano_backup.Metadata.Codec.{is_kept}
use nano_backup.Repository.{build_file_path}
use nano_backup.StringTable.{str_table_map, str_table_get}
use nano_backup.StringTable.Keys.{is_some}
use nano_backup.StringTable.Placement.{IsTable, str_table_map_lem}
use nano_backup.GarbageCollector.{
  PathTable, add_path, add_state, add_history, populate_table_recursively,
}

-- The state is that of a file whose content is stored under the path.
abbrev refers_state : PathState → Bytes → Bool
refers_state (regular_file uid gid info) path =
    ltb file_hash_size info.size && bytes_eq path (build_file_path info)
refers_state _ path = false

abbrev pub refers_history : PathHistory → Bytes → Bool
refers_history [] path = false
refers_history (point ∷ rest) path = refers_state point.state path || refers_history rest path

-- A node of the repository refers to the stored file, at a place where all nodes above it are part
-- of the repository.
unfoldable pub refers : PathList → Bytes → Bool
refers null path = false
refers (node n subnodes next) path =
    (is_kept n && (refers_history n.history path || refers subnodes path)) || refers next path

-- The points of all nodes
unfoldable pub count_all_points : PathList → ℕ
count_all_points null = 0
count_all_points (node n subnodes next) =
    length n.history + (count_all_points subnodes + count_all_points next)

module _ (siphash : Bytes → Bytes → ℕ) where
  abbrev pub has : PathTable → Bytes → Bool
  has table path = is_some (str_table_get siphash table path)

  -- The result is a well formed table with the new paths, and at most `n` associations more.
  abbrev pub Adds : PathTable → ℕ → (Bytes → Bool) → Result PathTable → Type 0
  Adds table n new result =
      (table' : PathTable) × (result ≡ ok table')
      × IsTable siphash table'
      × (table'.associations ≤ table.associations + n)
      × ((k : Bytes) → has table' k ≡ (has table k || new k))

  Adds-none :
      (table : PathTable) (n : ℕ) → IsTable siphash table → Adds table n (λ k. false) (ok table)
  Adds-none table n v = (table, refl, v, omega arith, λ k. ground arith)

  pub map_Adds :
      (table : PathTable) (path : Bytes)
      → IsTable siphash table
      → table.associations * 32 + 512 < 2 ^ 64
      → Adds table 1 (λ k. bytes_eq k path) (str_table_map siphash table path tt)
  map_Adds table path v b =
      let small : table.capacity ≤ 2 * table.associations + 32 = v.small in
      let (table', eq, w, count, found) = str_table_map_lem siphash table path tt v (omega arith) in
      (table', eq, w, omega arith, λ k. ground (arith, found k))

  -- A key that is there already adds nothing.
  old_key :
      (table : PathTable) (path k : Bytes)
      → has table path ≡ true
      → has table k ≡ (has table k || bytes_eq k path)
  old_key table path k old = elim (Bool-cases (bytes_eq k path)) [
    | inr other ↦ rw other (ground arith)
    | inl same ↦
        let there : has table k ≡ true = ap (λ x. has table x) (eq_of_bytes_eq k path same) ∙ old in
        rw there refl
  ]

  add_path-Adds :
      (table : PathTable) (path : Bytes)
      → IsTable siphash table
      → table.associations * 32 + 512 < 2 ^ 64
      → Adds table 1 (λ k. bytes_eq k path) (add_path siphash table path)
  unfolding add_path
  add_path-Adds table path v b = elim (Bool-cases (has table path)) [
    | inr new ↦ rw new (map_Adds table path v b)
    | inl old ↦ rw old (table, refl, v, omega arith, λ k. old_key table path k old)
  ]

  pub Adds-trans :
      (table : PathTable) (n n' : ℕ) (new new' : Bytes → Bool) (first : Result PathTable)
      (next : PathTable → Result PathTable)
      → Adds table n new first
      → ((t : PathTable)
          → IsTable siphash t
          → t.associations ≤ table.associations + n
          → Adds t n' new' (next t))
      → Adds table (n + n') (λ k. new k || new' k) (first >>= next)
  Adds-trans table n n' new new' first next (t, eq, v, count, found) second =
      let (t', eq', v', count', found') = second t v count in
      (t', rw eq eq', v', omega arith, λ k. ground (arith, found k, found' k))

  add_state-Adds :
      (table : PathTable) (state : PathState)
      → IsTable siphash table
      → table.associations * 32 + 512 < 2 ^ 64
      → Adds table 1 (refers_state state) (add_state siphash table state)
  unfolding add_state
  add_state-Adds table non_existing v b = Adds-none table 1 v
  add_state-Adds table (symlink uid gid target) v b = Adds-none table 1 v
  add_state-Adds table (directory uid gid info) v b = Adds-none table 1 v
  add_state-Adds table (regular_file uid gid info) v b =
      elim (Bool-cases (ltb file_hash_size info.size)) [
        | inl large ↦ rw large (add_path-Adds table (build_file_path info) v b)
        | inr small ↦ rw small (Adds-none table 1 v)
      ]

  add_history-Adds :
      (table : PathTable) (history : PathHistory)
      → IsTable siphash table
      → (table.associations + length history) * 32 + 512 < 2 ^ 64
      → Adds table (length history) (refers_history history) (add_history siphash table history)
  unfolding add_history
  add_history-Adds table [] v b = Adds-none table 0 v
  add_history-Adds table (point ∷ rest) v b =
      let (t, eq, w, count, found) =
        Adds-trans table 1 (length rest) (refers_state point.state) (refers_history rest)
          (add_state siphash table point.state) (λ t. add_history siphash t rest)
          (add_state-Adds table point.state v (omega arith))
          (λ t w c. add_history-Adds t rest w (omega arith)) in
      (t, eq, w, omega arith, found)

  -- With room for the points of all nodes, populateTableRecursively() has a result, and adds the paths
  -- of the stored files to which the nodes refer, and no others.
  pub populate_table_recursively_lem :
      (table : PathTable) (nodes : PathList)
      → IsTable siphash table
      → (table.associations + count_all_points nodes) * 32 + 512 < 2 ^ 64
      → Adds table
          (count_all_points nodes)
          (refers nodes)
          (populate_table_recursively siphash table nodes)
  unfolding populate_table_recursively refers count_all_points
  populate_table_recursively_lem table null v b = Adds-none table 0 v
  populate_table_recursively_lem table (node n subnodes next) v b = elim (Bool-cases (is_kept n)) [
    | inr gone ↦
        let (t, eq, w, count, found) = populate_table_recursively_lem table next v (omega arith) in
        rw gone (t, eq, w, omega arith, found)
    | inl kept ↦
        let below =
          λ (t : PathTable) (w : IsTable siphash t)
              (c : t.associations ≤ table.associations + length n.history).
            Adds-trans t (count_all_points subnodes) (count_all_points next) (refers subnodes)
              (refers next) (populate_table_recursively siphash t subnodes)
              (λ t'. populate_table_recursively siphash t' next)
              (populate_table_recursively_lem t subnodes w (omega arith))
              (λ t' w' c'. populate_table_recursively_lem t' next w' (omega arith)) in
        let (t, eq, w, count, found) =
          Adds-trans table (length n.history) (count_all_points subnodes + count_all_points next)
            (refers_history n.history) (λ k. refers subnodes k || refers next k)
            (add_history siphash table n.history)
            (λ t. populate_table_recursively siphash t subnodes >>= λ t'.
              populate_table_recursively siphash t' next)
            (add_history-Adds table n.history v (omega arith)) below in
        rw kept (t, eq, w, omega arith, λ k. ground (arith, found k))
  ]
