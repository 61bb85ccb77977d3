-- ===== src/Metadata/RoundTrip.antt =====
-- metadataWrite() and metadataLoad() of src/metadata.c: what is loaded from a written file.
use nano_backup.Prelude.{ℕ, suc, ◌+◌, ◌*◌, ◌^◌, ◌<◌, ◌≡◌, refl, arith, ap, subst}
use nano_backup.Prelude.{List, [], ◌∷◌, ◌++◌, length, All, map, ok, Bool-cases, inl, inr}
use nano_backup.Prelude.{◌==◌, if◌then◌else◌, ltb, length-append, append-nil}
use nano_backup.SafeMath.{size_mul}
use nano_backup.SafeMath.Bounds.{size_mul-eq-ok}
use nano_backup.Str.{Bytes}
use nano_backup.Metadata.{Point, null, Metadata, Backup}
use nano_backup.Metadata.Codec.{
  write64, write_path_history_list, write_path_list, count_referenced, write_times, with_ids,
  metadata_write,
}
use nano_backup.Metadata.Load.{
  Load, Loader, ◌>>=◌, pure, checked, set_backups, finish, load_all, metadata_load,
}
use nano_backup.Metadata.Reads.{Env, at, Reads, Reads-pure, Reads-read64, RefsLe}
use nano_backup.Metadata.Histories.{
  IsPoint, stored_point, count_points, length-count_points, Reads-read_full_path_history,
}
use nano_backup.Metadata.Trees.{IsTree-map, All-map, stored_onto, Reads-read_path_subnodes}
use nano_backup.Metadata.Numbers.{
  numbered, all_backups, IsWritable, IsMetadata, stored_env, stored_under, with_ids_lem, stored,
  length-numbered, Reads-read_backups, id_of_lem, RefsLe-zero,
}

Reads-set_backups :
    (bs : List Backup) (e : Env)
    → All (λ b. b.ref_count ≡ 0) bs
    → Reads (set_backups bs) [] e tt (record e { backups = bs })
unfolding set_backups
Reads-set_backups bs e z = record {
  run = λ p rest h r. (
    ap (λ k. ok (tt, at k rest (record e { backups = bs }))) (let n : p ≡ p + 0 = omega arith in n),
    RefsLe-zero (p + 0) bs z,
  );
}

-- Numbered backups have no references yet.
numbered_unreferenced : (id : ℕ) (bs : List Backup) → All (λ b. b.ref_count ≡ 0) (numbered id bs)
unfolding numbered
numbered_unreferenced id [] = tt
numbered_unreferenced id (b ∷ rest) = elim (Bool-cases (ltb 0 b.ref_count)) [
  | inl used ↦ rw used (refl, numbered_unreferenced (suc id) rest)
  | inr unused ↦ rw unused (numbered_unreferenced id rest)
]

Reads-history_size :
    (n : ℕ) (e : Env)
    → 24 * n < 2 ^ 64
    → Reads (checked (if n == 0 then ok 0 else size_mul 24 n)) [] e tt e
unfolding checked pure
Reads-history_size n e h = elim (Bool-cases (n == 0)) [
  | inl empty ↦ rw empty (Reads-pure tt e)
  | inr more ↦ rw (more, size_mul-eq-ok 24 n h) (Reads-pure tt e)
]

-- `m` takes the bytes `bs`, which are the last of the file, and gives `a`.
record Ends {A : Type 0} (m : Load A) (bs : Bytes) (e : Env) (a : A) : Type 0 where
  run :
      (p : ℕ)
      → p + length bs < 2 ^ 64
      → RefsLe p e.backups
      → (s : Loader) × (m (at p bs e) ≡ ok (a, s))

module _ {A B : Type 0} (m : Load A) (f : A → Load B) {bs cs : Bytes} {e e' : Env} {a : A}
    {b : B} where
  Ends-bind : Reads m bs e a e' → Ends (f a) cs e' b → Ends (m >>= f) (bs ++ cs) e b
  unfolding ◌>>=◌
  Ends-bind rm rf = record {
    run = λ p h r.
        let first = rm.run p cs (omega (arith, length-append {0} bs cs)) r in
        let second = rf.run (p + length bs) (omega (arith, length-append {0} bs cs)) first.1 in
        (second.0, rw first.0 second.1);
  }

module _ {A B : Type 0} (m : Load A) (f : A → Load B) {bs : Bytes} {e e' : Env} {a : A}
    {b : B} where
  Ends-step : Reads m [] e a e' → Ends (f a) bs e' b → Ends (m >>= f) bs e b
  Ends-step rm rf = Ends-bind m f rm rf

  Ends-last : Reads m bs e a e' → Ends (f a) [] e' b → Ends (m >>= f) bs e b
  Ends-last rm rf = subst (λ c. Ends (m >>= f) c e b) (append-nil bs) (Ends-bind m f rm rf)

module _ (m : Metadata) (v : IsMetadata m) where
  size_of_history : length (numbered 0 (all_backups m)) < 2 ^ 64
  size_of_history = omega (arith, v.backups_size, length-numbered 0 (all_backups m))

  stored_point_lem :
      (point : Point)
      → IsWritable m point
      → IsPoint (with_ids m) (length (numbered 0 (all_backups m))) point
  stored_point_lem point (referenced, state) =
      (rw (length-numbered 0 (all_backups m)) (id_of_lem m v.current_id point referenced).0, state)

  configured : Env
  configured = record {
    backups = count_points (with_ids m) m.config_history (numbered 0 (all_backups m));
    table = [];
  }

  length-configured : length configured.backups ≡ length (numbered 0 (all_backups m))
  unfolding configured
  length-configured = length-count_points (with_ids m) m.config_history (numbered 0 (all_backups m))

  -- The tree is a part of what is written.
  fuel_is_enough : length (write_path_list (with_ids m) m.paths) < suc (length (metadata_write m))
  unfolding metadata_write
  fuel_is_enough =
      let backups : Bytes = write64 (count_referenced (all_backups m)) in
      let times : Bytes = write_times (all_backups m) in
      let config : Bytes = write_path_history_list (with_ids m) m.config_history in
      let count : Bytes = write64 m.total_path_count in
      let tree : Bytes = write_path_list (with_ids m) m.paths in
      omega (
        arith,
        length-append {0} backups (times ++ (config ++ (count ++ tree))),
        length-append {0} times (config ++ (count ++ tree)),
        length-append {0} config (count ++ tree),
        length-append {0} count tree,
      )

  Ends-finish :
      Ends
        (finish
          (map (stored_point (with_ids m)) m.config_history)
          m.total_path_count
          (stored_onto (with_ids m) m.paths null))
        []
        (stored_env (with_ids m) m)
        (stored_under (with_ids m) m)
  unfolding finish stored_under
  Ends-finish = record { run = λ p h r. (at p [] (stored_env (with_ids m) m), refl) }

  Ends-load_all :
      Ends
        (load_all (suc (length (metadata_write m))))
        (metadata_write m)
        (record { backups = []; table = [] })
        (stored_under (with_ids m) m)
  unfolding load_all metadata_write configured
  Ends-load_all =
      let n : ℕ = count_referenced (all_backups m) in
      Ends-bind _ _ (Reads-read64 n _ (omega (arith, v.backups_size))) (
        Ends-step _ _ (Reads-history_size n _ (omega (arith, v.backups_size))) (
          Ends-bind _ _ (Reads-read_backups (all_backups m) 0 _ v.times) (
            Ends-step _ _
              (Reads-set_backups (numbered 0 (all_backups m)) _
                (numbered_unreferenced 0 (all_backups m)))
              (Ends-bind _ _
                (Reads-read_full_path_history (with_ids m) m.config_history _ size_of_history
                  v.config_size (All-map stored_point_lem m.config_history v.config))
                (Ends-bind _ _ (Reads-read64 m.total_path_count _ v.path_count) (
                  Ends-last _ _
                    (Reads-read_path_subnodes (with_ids m) m.paths []
                      (suc (length (metadata_write m))) _ fuel_is_enough
                      (rw length-configured size_of_history) v.tree_size
                      (rw length-configured (IsTree-map stored_point_lem [] m.paths v.tree)))
                    Ends-finish))))))

  -- What metadataWrite() writes of metadata that are well formed and whose referenced backups fit
  -- in 64 bits, metadataLoad() reads: the result is `stored m`, which has the
  -- referenced backups, numbered in their order with the current one as the first, the config history,
  -- the path count and the kept nodes of `m`, each point at the number of its backup.
  pub metadata_load-metadata_write : metadata_load (metadata_write m) ≡ ok (stored m)
  unfolding metadata_load
  metadata_load-metadata_write =
      let (s, e) = Ends-load_all.run 0 (omega (arith, v.file_size)) tt in
      let loaded : metadata_load (metadata_write m) ≡ ok (stored_under (with_ids m) m) =
        rw e refl in
      subst (λ ids. metadata_load (metadata_write m) ≡ ok (stored_under ids m)) (with_ids_lem m)
        loaded
