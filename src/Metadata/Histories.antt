-- ===== src/Metadata/Histories.antt =====
-- Path states and histories of src/metadata.c: what readPathHistory() and readFullPathHistory() make
-- of the bytes that writePathHistoryList() writes.
use nano_backup.Prelude.{ℕ, ◌+◌, ◌^◌, ◌≤◌, ◌<◌, ◌≡◌, refl, arith, ◌∙◌, subst}
use nano_backup.Prelude.{
  List, [], ◌∷◌, ◌++◌, length, All, map, ltb, if◌then◌else◌, Bool-cases, inl, inr,
}
use nano_backup.SafeMath.Bounds.{size_add-eq-ok}
use nano_backup.SafeMath.{size_add}
use nano_backup.Str.{Bytes}
use nano_backup.Metadata.{
  file_hash_size, RegularFileInfo, PathState, non_existing, regular_file, symlink, directory,
  type_of, Backup, past, Point, PathHistory, Metadata, backup_at,
}
use nano_backup.Metadata.Codec.{
  write8, write_hash, write_state, write_point, write_points, write_path_history_list,
}
use nano_backup.Metadata.Load.{
  ◌>>=◌, pure, read_hash, read_info, read_state, read_point, read_points, read_full_path_history,
  c_string, checked, read_bytes,
}
use nano_backup.Metadata.Reads.{
  Env, Reads, Reads-bind, Reads-map, Reads-step, Reads-pure, Reads-read_bytes, Reads-read8,
  Reads-read32, Reads-read64, Reads-read_backup, count_up, length-count_up,
}

-- The values that fit the fields of the C struct. What is defined of `hash` and `slot` depends on
-- the size.
pub record IsFileInfo (info : RegularFileInfo) : Type 0 where
  pub permissions : info.permission_bits < 2 ^ 32
  pub time : info.modification_time < 2 ^ 64
  pub size : info.size < 2 ^ 64
  pub hash : length info.hash ≡ (if ltb file_hash_size info.size then file_hash_size else info.size)
  pub slot : info.slot < 256
  pub no_slot : info.size ≤ file_hash_size → info.slot ≡ 0

abbrev pub IsState : PathState → Type 0
IsState non_existing = Unit
IsState (regular_file uid gid info) = (uid < 2 ^ 32) × (gid < 2 ^ 32) × IsFileInfo info
IsState (symlink uid gid target) =
    (uid < 2 ^ 32) × (gid < 2 ^ 32) × (length target + 1 < 2 ^ 64) × (c_string target ≡ target)
IsState (directory uid gid info) =
    (uid < 2 ^ 32)
    × (gid < 2 ^ 32)
    × (info.permission_bits < 2 ^ 32)
    × (info.modification_time < 2 ^ 64)

nil_of_length : (bs : Bytes) → length bs ≡ 0 → bs ≡ []
nil_of_length [] h = refl
nil_of_length (b ∷ bs) h = absurd (omega arith)

Reads-read_hash :
    (info : RegularFileInfo) (e : Env)
    → IsFileInfo info
    → Reads (read_hash info.size) (write_hash info) e (info.hash, info.slot) e
unfolding read_hash write_hash
Reads-read_hash info e v = elim (Bool-cases (ltb file_hash_size info.size)) [
  | inl large ↦ rw large (
      Reads-bind _ _ (Reads-read_bytes info.hash e file_hash_size (v.hash ∙ rw large refl))
        (Reads-map _ (λ slot. (info.hash, slot)) (Reads-read8 info.slot e (v.slot))))
  | inr small ↦
      let no_slot : info.slot ≡ 0 = v.no_slot (ground arith) in
      rw (small, no_slot)
        (elim (Bool-cases (ltb 0 info.size)) [
          | inl some_bytes ↦ rw some_bytes (
              Reads-map _ (λ hash. (hash, 0))
                (Reads-read_bytes info.hash e info.size (v.hash ∙ rw small refl)))
          | inr empty ↦
              let none_left : info.hash ≡ [] =
                nil_of_length info.hash (v.hash ∙ rw small (ground arith)) in
              rw (empty, none_left) (Reads-pure ([], 0) e)
        ])
]

Reads-checked : (n : ℕ) (e : Env) → n + 1 < 2 ^ 64 → Reads (checked (size_add n 1)) [] e tt e
unfolding checked pure
Reads-checked n e h = rw (size_add-eq-ok n 1 h) (Reads-pure tt e)

Reads-read_state :
    (s : PathState) (e : Env)
    → IsState s
    → Reads read_state (write8 (type_of s) ++ write_state s) e s e
unfolding read_state read_info write_state
Reads-read_state non_existing e v =
    Reads-bind _ _ (Reads-read8 0 e (omega arith)) (Reads-pure non_existing e)
Reads-read_state (regular_file uid gid info) e (u, g, v) =
    Reads-bind _ _ (Reads-read8 1 e (omega arith)) (
      Reads-bind _ _ (Reads-read32 uid e u) (
        Reads-bind _ _ (Reads-read32 gid e g) (
          Reads-bind _ _ (Reads-read32 info.permission_bits e v.permissions) (
            Reads-bind _ _ (Reads-read64 info.modification_time e v.time) (
              Reads-bind _ _ (Reads-read64 info.size e v.size)
                (Reads-map _ _ (Reads-read_hash info e v)))))))
Reads-read_state (symlink uid gid target) e (u, g, l, t) =
    Reads-bind _ _ (Reads-read8 2 e (omega arith)) (
      Reads-bind _ _ (Reads-read32 uid e u) (
        Reads-bind _ _ (Reads-read32 gid e g) (
          Reads-bind _ _ (Reads-read64 (length target) e (omega arith)) (
            Reads-step _ _ (Reads-checked (length target) e l) (
              subst
                (λ x.
                  Reads (read_bytes (length target) >>= λ b. pure (symlink uid gid (c_string b)))
                    target e (symlink uid gid x) e)
                t
                (Reads-map _ (λ b. symlink uid gid (c_string b))
                  (Reads-read_bytes target e (length target) refl)))))))
Reads-read_state (directory uid gid info) e (u, g, p, t) =
    Reads-bind _ _ (Reads-read8 3 e (omega arith)) (
      Reads-bind _ _ (Reads-read32 uid e u) (
        Reads-bind _ _ (Reads-read32 gid e g) (
          Reads-bind _ _ (Reads-read32 info.permission_bits e p) (
            Reads-map _
              (λ time.
                directory uid gid
                  (record { permission_bits = info.permission_bits; modification_time = time }))
              (Reads-read64 info.modification_time e t)))))

-- The id under which a point is written
abbrev pub id_of : Metadata → Point → ℕ
id_of m point = (backup_at m point.backup).id

-- A point as it is read back
abbrev pub stored_point : Metadata → Point → Point
stored_point m point = record { backup = past (id_of m point); state = point.state }

abbrev pub IsPoint : Metadata → ℕ → Point → Type 0
IsPoint m n point = (id_of m point < n) × IsState point.state

-- The backups, with the references that the points add
abbrev pub count_points : Metadata → PathHistory → List Backup → List Backup
count_points m [] bs = bs
count_points m (point ∷ rest) bs = count_points m rest (count_up (id_of m point) bs)

pub length-count_points :
    (m : Metadata) (h : PathHistory) (bs : List Backup) → length (count_points m h bs) ≡ length bs
length-count_points m [] bs = refl
length-count_points m (point ∷ rest) bs =
    length-count_points m rest (count_up (id_of m point) bs) ∙ length-count_up (id_of m point) bs

module _ (m : Metadata) where
  Reads-read_point :
      (point : Point) (e : Env)
      → length e.backups < 2 ^ 64
      → IsPoint m (length e.backups) point
      → Reads read_point
          (write_point m point)
          e
          (stored_point m point)
          (record e { backups = count_up (id_of m point) e.backups })
  unfolding read_point write_point
  Reads-read_point point e n (i, v) =
      Reads-bind _ _ (Reads-read_backup (id_of m point) e (omega arith) i) (
        Reads-map _ (λ s. record { backup = past (id_of m point); state = s })
          (Reads-read_state point.state _ v))

  Reads-read_points :
      (h : PathHistory) (e : Env)
      → length e.backups < 2 ^ 64
      → All (IsPoint m (length e.backups)) h
      → Reads
          (read_points (length h))
          (write_points m h)
          e
          (map (stored_point m) h)
          (record e { backups = count_points m h e.backups })
  unfolding read_points write_points
  Reads-read_points [] e n v = Reads-pure [] e
  Reads-read_points (point ∷ rest) e n (v, vs) =
      let same : length (count_up (id_of m point) e.backups) ≡ length e.backups =
        length-count_up (id_of m point) e.backups in
      Reads-bind _ _ (Reads-read_point point e n v) (
        Reads-map _ (λ r. stored_point m point ∷ r)
          (Reads-read_points rest (record e { backups = count_up (id_of m point) e.backups })
            (rw same n) (rw same vs)))

  -- A written history is read back point by point, in order, and each point adds a reference to
  -- its backup.
  pub Reads-read_full_path_history :
      (h : PathHistory) (e : Env)
      → length e.backups < 2 ^ 64
      → length h < 2 ^ 64
      → All (IsPoint m (length e.backups)) h
      → Reads read_full_path_history
          (write_path_history_list m h)
          e
          (map (stored_point m) h)
          (record e { backups = count_points m h e.backups })
  unfolding read_full_path_history write_path_history_list
  Reads-read_full_path_history h e n l v =
      Reads-bind _ _ (Reads-read64 (length h) e l) (Reads-read_points h e n v)
