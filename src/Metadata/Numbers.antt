-- ===== src/Metadata/Numbers.antt =====
-- metadataWrite() of src/metadata.c: the metadata that it takes, the ids that it gives to the backups
-- and what is loaded again.
use nano_backup.Prelude.{ℕ, zero, suc, ◌+◌, ◌*◌, ◌^◌, ◌<◌, ◌≡◌, refl, arith}
use nano_backup.Prelude.{List, [], ◌∷◌, length, All, map, Bool-cases, inl, inr}
use nano_backup.Prelude.{ap, sym, ◌++◌, true, if◌then◌else◌, ltb, get_or}
use nano_backup.Metadata.{
  Point, null, Metadata, Backup, BackupRef, current, past, no_backup, backup_at,
}
use nano_backup.Metadata.Codec.{
  count_kept, renumber, count_referenced, write_times, with_ids, metadata_write,
}
use nano_backup.Metadata.Load.{read_backups}
use nano_backup.Metadata.Reads.{Env, Reads, Reads-bind, Reads-map, Reads-pure, Reads-read64, RefsLe}
use nano_backup.Metadata.Histories.{IsState, id_of, stored_point, count_points}
use nano_backup.Metadata.Trees.{IsTree, stored_onto, tree_env}

-- The backup history of a written file: the referenced backups, numbered from `id`, with no
-- reference counted yet.
unfoldable pub numbered : ℕ → List Backup → List Backup
numbered id [] = []
numbered id (b ∷ rest) =
    let tail = numbered (if ltb 0 b.ref_count then suc id else id) rest in
    if ltb 0 b.ref_count
    then (record { id = id; completion_time = b.completion_time; ref_count = 0 }) ∷ tail
    else tail

abbrev pub all_backups : Metadata → List Backup
all_backups m = m.current_backup ∷ m.backup_history

-- The backup of a point is referenced, and its state fits the fields of the C struct.
abbrev pub IsWritable : Metadata → Point → Type 0
IsWritable m point = (0 < (backup_at m point.backup).ref_count) × IsState point.state

-- Metadata that a backup can leave behind.
pub record IsMetadata (m : Metadata) : Type 0 where
  pub current_id : m.current_backup.id ≡ 0
  pub times : All (λ b. b.completion_time < 2 ^ 64) (all_backups m)
  pub backups_size : count_referenced (all_backups m) * 24 < 2 ^ 64
  pub config_size : length m.config_history < 2 ^ 64
  pub config : All (IsWritable m) m.config_history
  pub path_count : m.total_path_count < 2 ^ 64
  pub tree_size : count_kept m.paths < 2 ^ 64
  pub tree : IsTree (IsWritable m) [] m.paths
  pub file_size : length (metadata_write m) < 2 ^ 64

-- The metadata with the ids under which its points are written: the id of a referenced backup is the
-- number of referenced backups before it, of which the current one is the first.
unfoldable place_from : List Backup → List Backup → List Backup
place_from earlier [] = []
place_from earlier (b ∷ rest) =
    (if ltb 0 b.ref_count then record b { id = length (numbered 0 earlier) } else b)
    ∷ place_from (earlier ++ (b ∷ [])) rest

unfoldable pub placed : Metadata → Metadata
unfolding place_from
placed m = record m { backup_history = place_from (m.current_backup ∷ []) m.backup_history }

abbrev pub empty_env : Metadata → Env
empty_env m = record { backups = numbered 0 (all_backups m); table = [] }

abbrev pub stored_env : Metadata → Metadata → Env
stored_env ids m = tree_env ids m.paths (record {
  backups = count_points ids m.config_history (numbered 0 (all_backups m));
  table = [];
})

-- The metadata as it is loaded again, where the points are written under the ids of `ids`: the referenced backups under their new ids, with their
-- references counted, each point at the backup of its id, and the tree of `stored_onto`.
unfoldable pub stored_under : Metadata → Metadata → Metadata
stored_under ids m = record {
  current_backup = no_backup;
  backup_history = (stored_env ids m).backups;
  config_history = map (stored_point ids) m.config_history;
  total_path_count = m.total_path_count;
  path_table = (stored_env ids m).table;
  paths = stored_onto ids m.paths null;
}

abbrev pub stored : Metadata → Metadata
stored m = stored_under (placed m) m

pub length-numbered : (id : ℕ) (bs : List Backup) → length (numbered id bs) ≡ count_referenced bs
unfolding numbered count_referenced
length-numbered id [] = refl
length-numbered id (b ∷ rest) =
    ground (arith, length-numbered id rest, length-numbered (suc id) rest)

count_referenced-append :
    (bs : List Backup) (b : Backup)
    → count_referenced (bs ++ (b ∷ []))
      ≡ (if ltb 0 b.ref_count then suc (count_referenced bs) else count_referenced bs)
unfolding count_referenced
count_referenced-append [] b = refl
count_referenced-append (c ∷ bs) b = ground (arith, count_referenced-append bs b)

renumber-place_from :
    (earlier bs : List Backup) → renumber (count_referenced earlier) bs ≡ place_from earlier bs
unfolding renumber place_from
renumber-place_from earlier [] = refl
renumber-place_from earlier (b ∷ rest) =
    rw
      (
        length-numbered 0 earlier,
        sym (count_referenced-append earlier b),
        renumber-place_from (earlier ++ (b ∷ [])) rest,
      )
      refl

-- metadataWrite() gives the backups these ids.
pub with_ids_lem : (m : Metadata) → with_ids m ≡ placed m
unfolding with_ids placed count_referenced
with_ids_lem m =
    ap (λ bs. record m { backup_history = bs })
      (renumber-place_from (m.current_backup ∷ []) m.backup_history)

pub Reads-read_backups :
    (bs : List Backup) (id : ℕ) (e : Env)
    → All (λ b. b.completion_time < 2 ^ 64) bs
    → Reads (read_backups id (count_referenced bs)) (write_times bs) e (numbered id bs) e
unfolding read_backups count_referenced write_times numbered
Reads-read_backups [] id e v = Reads-pure [] e
Reads-read_backups (b ∷ rest) id e (t, ts) = elim (Bool-cases (ltb 0 b.ref_count)) [
  | inr unused ↦ rw unused (Reads-read_backups rest id e ts)
  | inl used ↦ rw used (
      Reads-bind _ _ (Reads-read64 b.completion_time e t) (
        Reads-map _
          (λ more. (record { id = id; completion_time = b.completion_time; ref_count = 0 }) ∷ more)
          (Reads-read_backups rest (suc id) e ts)))
]

-- The new id of a referenced backup is the place of its completion time in the written history.
pub renumber_lem :
    (bs : List Backup) (id i : ℕ)
    → 0 < (get_or bs i no_backup).ref_count
    → (k : ℕ) × ((get_or (renumber id bs) i no_backup).id ≡ id + k)
      × (k < count_referenced bs)
      × ((get_or (numbered id bs) k no_backup).completion_time
          ≡ (get_or bs i no_backup).completion_time)
unfolding renumber count_referenced numbered
renumber_lem [] id i h = absurd (omega arith)
renumber_lem (b ∷ rest) id zero h =
    let used : ltb 0 b.ref_count ≡ true = ground arith in
    rw used (0, omega arith, omega arith, refl)
renumber_lem (b ∷ rest) id (suc i) h = elim (Bool-cases (ltb 0 b.ref_count)) [
  | inr unused ↦ rw unused (renumber_lem rest id i h)
  | inl used ↦
      let (k, new, below, time) = renumber_lem rest (suc id) i h in
      rw used (suc k, omega arith, omega arith, time)
]

module _ (m : Metadata) (current_id : m.current_backup.id ≡ 0) where
  -- The id under which a point of a referenced backup is written is below the number of written
  -- backups, and the written history has the completion time of the point's backup at that id.
  pub id_of_lem :
      (point : Point)
      → 0 < (backup_at m point.backup).ref_count
      → (id_of (with_ids m) point < count_referenced (all_backups m))
        × ((get_or
              (numbered 0 (all_backups m))
              (id_of (with_ids m) point)
              no_backup).completion_time
            ≡ (backup_at m point.backup).completion_time)
  unfolding with_ids count_referenced numbered
  id_of_lem point h = go point.backup h
    where
      go :
          (r : BackupRef)
          → 0 < (backup_at m r).ref_count
          → ((backup_at (with_ids m) r).id < count_referenced (all_backups m))
            × ((get_or
                  (numbered 0 (all_backups m))
                  (backup_at (with_ids m) r).id
                  no_backup).completion_time
                ≡ (backup_at m r).completion_time)
      go current h =
          let used : ltb 0 m.current_backup.ref_count ≡ true = ground arith in
          rw (current_id, used) (omega arith, refl)
      go (past i) h = elim (Bool-cases (ltb 0 m.current_backup.ref_count)) [
        | inr unused ↦
            let (k, new, below, time) = renumber_lem m.backup_history 0 i h in
            let new' : (get_or (renumber 0 m.backup_history) i no_backup).id ≡ k = omega arith in
            rw unused (rw new' (below, time))
        | inl used ↦
            let (k, new, below, time) = renumber_lem m.backup_history 1 i h in
            let new' : (get_or (renumber 1 m.backup_history) i no_backup).id ≡ suc k =
              omega arith in
            rw used (rw new' (omega arith, time))
      ]

pub RefsLe-zero : (p : ℕ) (bs : List Backup) → All (λ b. b.ref_count ≡ 0) bs → RefsLe p bs
RefsLe-zero p [] z = tt
RefsLe-zero p (b ∷ bs) (z, zs) = (omega arith, RefsLe-zero p bs zs)
