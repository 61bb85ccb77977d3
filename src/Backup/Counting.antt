-- ===== src/Backup/Counting.antt =====
-- The reference counts of src/metadata.h against the points that refer to a backup.
use nano_backup.Prelude.{ℕ, zero, suc, ◌+◌, ◌≤◌, ◌<◌, ◌≡◌, refl, arith, Bool, true, false}
use nano_backup.Prelude.{List, [], ◌∷◌, get_or, ◌==◌, if◌then◌else◌, ok}
use nano_backup.SafeMath.{size_add}
use nano_backup.Metadata.{
  Backup, BackupRef, current, past, PathHistory, Node, PathList, null, node, Metadata, no_backup,
  backup_at,
}
use nano_backup.Metadata.Codec.{is_kept}
use nano_backup.Backup.{
  Entry, decremented, update_at, drop_reference, decrement_ref_counts, refer_to_current,
}

abbrev pub refs : BackupRef → Metadata → ℕ
refs r m = (backup_at m r).ref_count

abbrev eq_ref : BackupRef → BackupRef → Bool
eq_ref current current = true
eq_ref (past i) (past j) = i == j
eq_ref _ _ = false

-- 1 where the two are the same backup
unfoldable pub same_ref : BackupRef → BackupRef → ℕ
same_ref r r' = if eq_ref r r' then 1 else 0

-- The points of a history that refer to `r`
unfoldable pub count_history : BackupRef → PathHistory → ℕ
unfolding same_ref
count_history r [] = 0
count_history r (point ∷ rest) = same_ref r point.backup + count_history r rest

-- Those of a node, if it is part of the repository
unfoldable pub count_node : BackupRef → Node → ℕ
count_node r n = if is_kept n then count_history r n.history else 0

unfoldable pub count_list : BackupRef → PathList → ℕ
unfolding count_node
count_list r null = 0
count_list r (node n subnodes next) = count_node r n + (count_list r subnodes + count_list r next)

unfoldable pub count_entry : BackupRef → Entry → ℕ
unfolding count_list
count_entry r e = count_node r e.node + count_list r e.subnodes

pub same_ref_self : (r : BackupRef) → same_ref r r ≡ 1
unfolding same_ref
same_ref_self current = refl
same_ref_self (past i) = ground arith

get_or-update_at :
    (i j : ℕ) (bs : List Backup)
    → 0 < (get_or bs j no_backup).ref_count
    → (get_or (update_at decremented j bs) i no_backup).ref_count + (if i == j then 1 else 0)
      ≡ (get_or bs i no_backup).ref_count
get_or-update_at i j [] h = absurd (omega arith)
get_or-update_at zero zero (b ∷ bs) h = ground arith
get_or-update_at zero (suc j) (b ∷ bs) h = ground arith
get_or-update_at (suc i) zero (b ∷ bs) h = ground arith
get_or-update_at (suc i) (suc j) (b ∷ bs) h = ground (arith, get_or-update_at i j bs h)

-- A dropped reference is one less for its backup.
pub refs-drop_reference :
    (r r' : BackupRef) (m : Metadata)
    → 0 < refs r' m
    → refs r (drop_reference m r') + same_ref r r' ≡ refs r m
unfolding drop_reference same_ref
refs-drop_reference current current m h = ground arith
refs-drop_reference current (past j) m h = omega arith
refs-drop_reference (past i) current m h = omega arith
refs-drop_reference (past i) (past j) m h = get_or-update_at i j m.backup_history h

-- Dropping the references of a history takes them from the counts.
pub refs-decrement_ref_counts :
    (h : PathHistory) (m : Metadata)
    → ((r : BackupRef) → count_history r h ≤ refs r m)
    → (r : BackupRef) → refs r (decrement_ref_counts m h) + count_history r h ≡ refs r m
unfolding decrement_ref_counts count_history
refs-decrement_ref_counts [] m c r = omega arith
refs-decrement_ref_counts (point ∷ rest) m c r =
    let positive : 0 < refs point.backup m =
      omega (arith, c point.backup, same_ref_self point.backup) in
    let m' : Metadata = drop_reference m point.backup in
    let ih =
      refs-decrement_ref_counts rest m'
        (λ q. omega (arith, c q, refs-drop_reference q point.backup m positive)) r in
    omega (arith, ih, refs-drop_reference r point.backup m positive)

pub refs-refer_to_current :
    (r : BackupRef) (m m' : Metadata)
    → refer_to_current m ≡ ok m'
    → refs r m' ≡ refs r m + same_ref r current
unfolding refer_to_current same_ref size_add
refs-refer_to_current current m m' h = ground arith
refs-refer_to_current (past i) m m' h = ground arith

-- The counts of a node list are within the references.
abbrev pub Covers : Metadata → (BackupRef → ℕ) → Type 0
Covers m count = (r : BackupRef) → count r ≤ refs r m

-- An operation takes the metadata and nodes with the first count to metadata and nodes with the
-- second, and changes each reference count as the count of its points changes.
abbrev pub Balanced : Metadata → (BackupRef → ℕ) → Metadata → (BackupRef → ℕ) → Type 0
Balanced m count m' count' = (r : BackupRef) → refs r m' + count r ≡ refs r m + count' r
