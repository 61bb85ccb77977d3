-- ===== src/Integrity/Cache.antt =====
-- src/integrity.c: the cache of checked files does not change the result.
use nano_backup.Prelude.{
  ℕ, ◌+◌, ◌*◌, ◌^◌, ◌≤◌, ◌<◌, ◌≡◌, refl, arith, Bool, true, false, not, Bool-cases, [], ◌∷◌, ltb,
  Option-cases, inl, inr, Result, ok, if◌then◌else◌, length,
}
use nano_backup.Str.{Bytes}
use nano_backup.Metadata.{
  PathState, non_existing, regular_file, symlink, directory, RegularFileInfo, PathHistory, Node,
  PathList, null, node, file_hash_size,
}
use nano_backup.Repository.{build_file_path}
use nano_backup.Repository.Paths.{IsInfo, build_file_path_injective}
use nano_backup.StringTable.{str_table_get}
use nano_backup.StringTable.Placement.{IsTable, str_table_map_lem}
use nano_backup.StringTable.Values.{AllChains, str_table_map-AllChains, str_table_get-AllChains}
use nano_backup.GarbageCollector.Referenced.{count_all_points}
use nano_backup.Integrity.{
  CheckFileCallback, Context, BrokenNodes, check_uncached, history_point_is_healthy,
  history_is_healthy, check_integrity_recursively,
}
use nano_backup.Integrity.Points.{
  is_broken, has_broken, broken_nodes, state_size, history_size, total_size, IsStateInfo,
  AllHistory, AllInfos,
}

-- Files with the same path, hash and size are healthy or not together.
abbrev pub IsStable : (RegularFileInfo → Bool) → Type 0
IsStable healthy =
    (i j : RegularFileInfo)
    → build_file_path i ≡ build_file_path j
    → i.hash ≡ j.hash
    → i.size ≡ j.size
    → healthy i ≡ healthy j

-- The callback says whether a file is healthy, and adds at most its size to the total, while this is
-- below a limit.
abbrev pub Checks : ℕ → CheckFileCallback → (RegularFileInfo → Bool) → Type 0
Checks limit check_file healthy =
    (total : ℕ) (i : RegularFileInfo)
    → IsInfo i
    → total + i.size < limit
    → (total' : ℕ) × (check_file total i (build_file_path i) ≡ ok (healthy i, total'))
      × (total' ≤ total + i.size)

-- The value of a path is the health of the files that have it.
abbrev pub Agrees : (RegularFileInfo → Bool) → Bytes → Bool → Type 0
Agrees healthy path value =
    (i : RegularFileInfo) → IsInfo i → build_file_path i ≡ path → healthy i ≡ value

module _ (siphash : Bytes → Bytes → ℕ) (healthy : RegularFileInfo → Bool) where
  pub record IsContext (ctx : Context) : Type 0 where
    pub table : IsTable siphash ctx.cache
    pub values : AllChains (Agrees healthy) ctx.cache.buckets

  -- The result is `x` with a well formed context, that has at most `points` new paths and a total
  -- that is at most `size` larger.
  abbrev pub Checked : {X : Type 0} → Context → ℕ → ℕ → X → Result (X × Context) → Type 0
  Checked ctx points size x result =
      (ctx' : Context) × (result ≡ ok (x, ctx'))
      × IsContext ctx'
      × (ctx'.cache.associations ≤ ctx.cache.associations + points)
      × (ctx'.files_to_check_total_size ≤ ctx.files_to_check_total_size + size)

  module _ (limit : ℕ) (check_file : CheckFileCallback) (stable : IsStable healthy)
      (checks : Checks limit check_file healthy) where
    new_value : (i : RegularFileInfo) → IsInfo i → Agrees healthy (build_file_path i) (healthy i)
    new_value i h j k same =
        let (hash, size, slot) = build_file_path_injective j i k h same in stable j i same hash size

    check_uncached-Checked :
        (ctx : Context) (i : RegularFileInfo)
        → IsContext ctx
        → IsInfo i
        → ctx.cache.associations * 32 + 512 < 2 ^ 64
        → ctx.files_to_check_total_size + i.size < limit
        → Checked ctx 1 i.size (healthy i) (
            check_uncached siphash check_file ctx i
              (str_table_get siphash ctx.cache (build_file_path i)))
    unfolding check_uncached
    check_uncached-Checked ctx i c h b t =
        elim (Option-cases (str_table_get siphash ctx.cache (build_file_path i))) [
          | inr (value, e) ↦
              let same : healthy i ≡ value =
                str_table_get-AllChains (Agrees healthy) siphash ctx.cache (build_file_path i) value
                  c.values e i h refl in
              (ctx, rw (e, same) refl, c, omega arith, omega arith)
          | inl e ↦
              let (total, checked, small) = checks ctx.files_to_check_total_size i h t in
              let bound : ctx.cache.capacity ≤ 2 * ctx.cache.associations + 32 = c.table.small in
              let (cache, mapped, table, count, found) =
                str_table_map_lem siphash ctx.cache (build_file_path i) (healthy i) c.table
                  (omega arith) in
              (
                record { cache = cache; files_to_check_total_size = total },
                rw (e, checked, mapped) refl,
                record {
                  table = table;
                  values =
                      str_table_map-AllChains (Agrees healthy) siphash ctx.cache cache
                        (build_file_path i) (healthy i) c.values (new_value i h) mapped;
                },
                omega arith,
                small,
              )
        ]

    history_point_is_healthy-Checked :
        (ctx : Context) (state : PathState)
        → IsContext ctx
        → IsStateInfo state
        → ctx.cache.associations * 32 + 512 < 2 ^ 64
        → ctx.files_to_check_total_size + state_size state < limit
        → Checked ctx 1
            (state_size state)
            (not (is_broken healthy state))
            (history_point_is_healthy siphash check_file ctx state)
    unfolding history_point_is_healthy
    history_point_is_healthy-Checked ctx non_existing c h b t =
        (ctx, refl, c, omega arith, omega arith)
    history_point_is_healthy-Checked ctx (symlink uid gid target) c h b t =
        (ctx, refl, c, omega arith, omega arith)
    history_point_is_healthy-Checked ctx (directory uid gid i) c h b t =
        (ctx, refl, c, omega arith, omega arith)
    history_point_is_healthy-Checked ctx (regular_file uid gid i) c h b t =
        elim (Bool-cases (ltb file_hash_size i.size)) [
          | inr small ↦ rw small (ctx, refl, c, omega arith, omega arith)
          | inl large ↦
              let (ctx', e, c', k, s) = check_uncached-Checked ctx i c h b t in
              let twice : not (not (healthy i)) ≡ healthy i = ground arith in
              rw (large, twice) (ctx', e, c', k, s)
        ]

    history_is_healthy-Checked :
        (ctx : Context) (history : PathHistory)
        → IsContext ctx
        → AllHistory history
        → (ctx.cache.associations + length history) * 32 + 512 < 2 ^ 64
        → ctx.files_to_check_total_size + history_size history < limit
        → Checked ctx
            (length history)
            (history_size history)
            (not (has_broken healthy history))
            (history_is_healthy siphash check_file ctx history)
    unfolding history_is_healthy
    history_is_healthy-Checked ctx [] c h b t = (ctx, refl, c, omega arith, omega arith)
    history_is_healthy-Checked ctx (point ∷ rest) c (h, hs) b t =
        let (ctx₁, e₁, c₁, n₁, s₁) =
          history_point_is_healthy-Checked ctx point.state c h (omega arith) (omega arith) in
        elim (Bool-cases (is_broken healthy point.state)) [
          | inl broken ↦ (ctx₁, rw (e₁, broken) refl, c₁, omega arith, omega arith)
          | inr fine ↦
              let (ctx₂, e₂, c₂, n₂, s₂) =
                history_is_healthy-Checked ctx₁ rest c₁ hs (omega arith) (omega arith) in
              (ctx₂, rw (e₁, fine) e₂, c₂, omega arith, omega arith)
        ]

    found_broken :
        (broken : Bool) (n : Node) (found : BrokenNodes)
        → (if not broken then found else n ∷ found) ≡ (if broken then n ∷ found else found)
    found_broken true n found = refl
    found_broken false n found = refl

    pub check_integrity_recursively-Checked :
        (list : PathList) (ctx : Context) (found : BrokenNodes)
        → IsContext ctx
        → AllInfos list
        → (ctx.cache.associations + count_all_points list) * 32 + 512 < 2 ^ 64
        → ctx.files_to_check_total_size + total_size list < limit
        → Checked ctx
            (count_all_points list)
            (total_size list)
            (broken_nodes healthy list found)
            (check_integrity_recursively siphash check_file list ctx found)
    unfolding check_integrity_recursively count_all_points
    check_integrity_recursively-Checked null ctx found c h b t =
        (ctx, refl, c, omega arith, omega arith)
    check_integrity_recursively-Checked (node n subnodes next) ctx found c (h, hs, hn) b t =
        let (ctx₁, e₁, c₁, n₁, s₁) =
          history_is_healthy-Checked ctx n.history c h (omega arith) (omega arith) in
        let found₁ = if has_broken healthy n.history then n ∷ found else found in
        let (ctx₂, e₂, c₂, n₂, s₂) =
          check_integrity_recursively-Checked subnodes ctx₁ found₁ c₁ hs (omega arith)
            (omega arith) in
        let found₂ = broken_nodes healthy subnodes found₁ in
        let (ctx₃, e₃, c₃, n₃, s₃) =
          check_integrity_recursively-Checked next ctx₂ found₂ c₂ hn (omega arith) (omega arith) in
        (
          ctx₃,
          rw (e₁, found_broken (has_broken healthy n.history) n found, e₂) e₃,
          c₃,
          omega arith,
          omega arith,
        )
