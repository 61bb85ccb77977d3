-- ===== src/GarbageCollector/Removed.antt =====
-- src/garbage-collector.c: what shouldBeRemoved() answers for an item of the repository.
use nano_backup.Prelude.{
  ℕ, ◌+◌, ◌*◌, ◌^◌, ◌<◌, ◌≡◌, refl, ap, ◌∙◌, arith, inl, inr, Bool, true, false, if◌then◌else◌,
  subst, ◌||◌, not, Bool-cases,
}
use nano_backup.Prelude.{
  [], ◌∷◌, bytes_eq, ok, ◌>>=◌, length, take, drop, ◌++◌, ◌-◌, length-append, take-length,
}
use nano_backup.Str.{Bytes, slash}
use nano_backup.Str.Split.{drop_behind}
use nano_backup.SafeMath.Bounds.{size_add-eq-ok}
use nano_backup.Metadata.{PathList}
use nano_backup.StringTable.{str_table_new, str_table_map}
use nano_backup.StringTable.Placement.{str_table_new_lem}
use nano_backup.GarbageCollector.{
  PathTable, GcStatistics, should_be_removed, config_name, metadata_name, lockfile_name,
  populate_table_recursively, paths_to_preserve,
}
use nano_backup.GarbageCollector.Referenced.{
  refers, count_all_points, has, Adds-trans, map_Adds, populate_table_recursively_lem,
}

-- The three files of the program, and the stored files to which the nodes refer
abbrev pub is_needed : PathList → Bytes → Bool
is_needed nodes k =
    bytes_eq k config_name
    || (bytes_eq k metadata_name || (bytes_eq k lockfile_name || refers nodes k))

-- What the file of an item adds to the statistics
abbrev pub regular_size : Bool → ℕ → ℕ
regular_size is_regular size = if is_regular then size else 0

-- The statistics after the question about an item, from whether it is kept
abbrev pub asked : Bool → GcStatistics → Bool → ℕ → GcStatistics
asked true s is_regular size = s
asked false s is_regular size = record {
  deleted_items_count = s.deleted_items_count + 1;
  deleted_items_total_size = s.deleted_items_total_size + regular_size is_regular size;
}

module _ (siphash : Bytes → Bytes → ℕ) where
  pub paths_to_preserve_lem :
      (secret_key : Bytes) (nodes : PathList)
      → (count_all_points nodes + 3) * 32 + 512 < 2 ^ 64
      → (table : PathTable) × (paths_to_preserve siphash secret_key nodes ≡ ok table)
        × ((k : Bytes) → has siphash table k ≡ is_needed nodes k)
  unfolding paths_to_preserve
  paths_to_preserve_lem secret_key nodes b =
      let t₀ : PathTable = str_table_new secret_key in
      let new = λ (k : Bytes). str_table_new_lem {A = Unit {0}} siphash secret_key k in
      let map_name = λ (name : Bytes) (t : PathTable). str_table_map siphash t name tt in
      let all = λ (t : PathTable). populate_table_recursively siphash t nodes in
      let n = count_all_points nodes in
      let (t, e, v, c, f) =
        Adds-trans siphash t₀ 1 (1 + (1 + n)) (λ k. bytes_eq k config_name)
          (λ k. bytes_eq k metadata_name || (bytes_eq k lockfile_name || refers nodes k))
          (map_name config_name t₀)
          (λ t. map_name metadata_name t >>= λ t'. map_name lockfile_name t' >>= all)
          (map_Adds siphash t₀ config_name (new []).0 (omega arith))
          (λ t v c.
            Adds-trans siphash t 1 (1 + n) (λ k. bytes_eq k metadata_name)
              (λ k. bytes_eq k lockfile_name || refers nodes k) (map_name metadata_name t)
              (λ t'. map_name lockfile_name t' >>= all)
              (map_Adds siphash t metadata_name v (omega arith))
              (λ t' v' c'.
                Adds-trans siphash t' 1 n (λ k. bytes_eq k lockfile_name) (refers nodes)
                  (map_name lockfile_name t') all
                  (map_Adds siphash t' lockfile_name v' (omega arith))
                  (λ t'' v'' c''.
                    populate_table_recursively_lem siphash t'' nodes v'' (omega arith)))) in
      (t, e, λ k. f k ∙ ap (λ x. x || is_needed nodes k) (new k).1)

  -- shouldBeRemoved() for an item whose path below the repository is `path`
  pub should_be_removed_path :
      (table : PathTable) (repo_path path : Bytes) (statistics : GcStatistics) (is_regular : Bool)
      (st_size : ℕ)
      → statistics.deleted_items_count + 1 < 2 ^ 64
      → statistics.deleted_items_total_size + regular_size is_regular st_size < 2 ^ 64
      → should_be_removed siphash table repo_path statistics
          (repo_path ++ (slash ∷ path))
          is_regular
          st_size
        ≡ ok (
          not (has siphash table path),
          asked (has siphash table path) statistics is_regular st_size,
        )
  unfolding should_be_removed
  should_be_removed_path table repo_path path statistics is_regular st_size c d =
      let joined = repo_path ++ (slash ∷ path) in
      let n : length joined - length repo_path - 1 ≡ length path =
        omega (arith, length-append {0} repo_path (slash ∷ path)) in
      let relative : take (length joined - length repo_path - 1)
            (drop (length repo_path + 1) joined)
          ≡ path =
        rw (drop_behind repo_path slash path, n) (take-length path) in
      let answer = ap (λ k. has siphash table k) relative in
      elim (Bool-cases (has siphash table path)) [
        | inl needed ↦ rw (answer, needed) refl
        | inr garbage ↦
            let count = statistics.deleted_items_count in
            let total = statistics.deleted_items_total_size in
            elim (Bool-cases is_regular) [
              | inl r ↦
                  let fits : total + st_size < 2 ^ 64 =
                    subst (λ b. total + regular_size b st_size < 2 ^ 64) r d in
                  rw
                    (
                      answer,
                      garbage,
                      size_add-eq-ok count 1 c,
                      r,
                      size_add-eq-ok total st_size fits,
                    )
                    refl
              | inr r ↦
                  rw (answer, garbage, size_add-eq-ok count 1 c, r)
                    (ap
                      (λ n. ok (
                        true,
                        record { deleted_items_count = count + 1; deleted_items_total_size = n },
                      ))
                      (omega arith))
            ]
      ]

  -- With room for the points of all nodes, collectGarbage() has a table of the paths to keep; for an
  -- item of the repository, shouldBeRemoved() has a result while the statistics are in range, and
  -- removes the item exactly if it is none of the files "config", "metadata" and "lockfile" and no
  -- stored file to which a node of the repository refers.
  pub should_be_removed_lem :
      (secret_key repo_path path : Bytes) (nodes : PathList) (statistics : GcStatistics)
      (is_regular : Bool) (st_size : ℕ)
      → (count_all_points nodes + 3) * 32 + 512 < 2 ^ 64
      → statistics.deleted_items_count + 1 < 2 ^ 64
      → statistics.deleted_items_total_size + st_size < 2 ^ 64
      → (table : PathTable) × (statistics' : GcStatistics) × (paths_to_preserve siphash secret_key
            nodes
          ≡ ok table)
        × (should_be_removed siphash table repo_path statistics
              (repo_path ++ (slash ∷ path))
              is_regular
              st_size
            ≡ ok (not (is_needed nodes path), statistics'))
  should_be_removed_lem secret_key repo_path path nodes statistics is_regular st_size b c d =
      let (table, built, found) = paths_to_preserve_lem secret_key nodes b in
      let answer =
        should_be_removed_path table repo_path path statistics is_regular st_size c
          (elim (Bool-cases is_regular) [ inl r ↦ rw r d | inr r ↦ rw r (omega arith) ]) in
      (
        table,
        asked (has siphash table path) statistics is_regular st_size,
        built,
        answer
            ∙ ap (λ b. ok (not b, asked (has siphash table path) statistics is_regular st_size))
                (found path),
      )
