-- ===== src/Backup/Wiping.antt =====
-- prepareNodeForWiping() and prepareNodeForWipingRecursively() of src/backup.c: what wiping does to
-- the reference counts.
use nano_backup.Prelude.{ℕ, ◌+◌, ◌≤◌, ◌<◌, ◌≡◌, ◌≢◌, refl, arith, ◌∙◌, true, false}
use nano_backup.Prelude.{Bool-cases, inl, inr}
use nano_backup.Hint.{hint_set, hint_no_pol, bh_not_part_of_repository}
use nano_backup.Hint.Laws.{hint_limit, hint_set_exclusive}
use nano_backup.Metadata.{BackupRef, current, past, Node, PathList, null, node, Metadata}
use nano_backup.Metadata.Codec.{is_kept}
use nano_backup.Backup.{
  Entry, prepare_node_for_wiping, wipe_list, prepare_node_for_wiping_recursively, decremented,
}
use nano_backup.Backup.Counting.{
  refs, count_history, count_node, count_list, count_entry, Covers, refs-decrement_ref_counts,
}

-- The hints are combinations of hints that exist.
abbrev pub IsHinted : PathList → Type 0
IsHinted null = Unit
IsHinted (node n subnodes next) = (n.hint < hint_limit) × IsHinted subnodes × IsHinted next

-- No node is part of the repository.
abbrev pub IsWiped : PathList → Type 0
IsWiped null = Unit
IsWiped (node n subnodes next) = (is_kept n ≡ false) × IsWiped subnodes × IsWiped next

is_kept-eq_false : (n : Node) → hint_no_pol n.hint ≡ bh_not_part_of_repository → is_kept n ≡ false
unfolding is_kept
is_kept-eq_false n h = ground arith

pub is_kept-eq_true : (n : Node) → hint_no_pol n.hint ≢ bh_not_part_of_repository → is_kept n ≡ true
unfolding is_kept
is_kept-eq_true n h = ground arith

refs-total_path_count :
    (r : BackupRef) (m : Metadata) (n : ℕ) → refs r (record m { total_path_count = n }) ≡ refs r m
refs-total_path_count current m n = refl
refs-total_path_count (past i) m n = refl

-- A wiped node gives back the references of its points, is no part of the repository any more.
pub prepare_node_for_wiping_lem :
    (m : Metadata) (n : Node)
    → n.hint < hint_limit
    → Covers m (λ r. count_node r n)
    → let (m', n') = prepare_node_for_wiping m n in
      ((r : BackupRef) → refs r m' + count_node r n ≡ refs r m)
      × (is_kept n' ≡ false)
      × (n'.hint < hint_limit)
unfolding prepare_node_for_wiping count_node
prepare_node_for_wiping_lem m n h c = elim (Bool-cases (is_kept n)) [
  | inr gone ↦ rw gone (λ r. omega arith, gone, h)
  | inl kept ↦
      let counted : Metadata = record m { total_path_count = decremented m.total_path_count } in
      let same : (r : BackupRef) → refs r counted ≡ refs r m =
        λ r. refs-total_path_count r m (decremented m.total_path_count) in
      let set = hint_set_exclusive n.hint bh_not_part_of_repository h (omega arith) (omega arith) in
      let covered : (r : BackupRef) → count_history r n.history ≤ refs r counted =
        λ r. rw same (rw kept at (c r)) in
      rw kept (
        λ r. refs-decrement_ref_counts n.history counted covered r ∙ same r,
        is_kept-eq_false (record n { hint = hint_set n.hint bh_not_part_of_repository }) set.0,
        set.2,
      )
]

prepare_node_for_wiping-is_kept :
    (m : Metadata) (n : Node)
    → n.hint < hint_limit
    → is_kept (prepare_node_for_wiping m n).1 ≡ false
unfolding prepare_node_for_wiping
prepare_node_for_wiping-is_kept m n h = elim (Bool-cases (is_kept n)) [
  | inr gone ↦ rw gone gone
  | inl kept ↦
      let set = hint_set_exclusive n.hint bh_not_part_of_repository h (omega arith) (omega arith) in
      rw kept
        (is_kept-eq_false (record n { hint = hint_set n.hint bh_not_part_of_repository }) set.0)
]

-- Whatever the points are, no node of a wiped list is left.
pub wipe_list-IsWiped : (m : Metadata) (l : PathList) → IsHinted l → IsWiped (wipe_list m l).1
unfolding wipe_list
wipe_list-IsWiped m null h = tt
wipe_list-IsWiped m (node n subnodes next) (h, hs, hn) =
    let m₁ = (prepare_node_for_wiping m n).0 in
    let m₂ = (wipe_list m₁ subnodes).0 in
    (
      prepare_node_for_wiping-is_kept m n h,
      wipe_list-IsWiped m₁ subnodes hs,
      wipe_list-IsWiped m₂ next hn,
    )

-- Wiping a list of nodes gives back the references of all their points, and leaves none of them in
-- the repository.
pub wipe_list_lem :
    (m : Metadata) (l : PathList)
    → IsHinted l
    → Covers m (λ r. count_list r l)
    → let (m', l') = wipe_list m l in
      ((r : BackupRef) → refs r m' + count_list r l ≡ refs r m) × IsWiped l' × IsHinted l'
unfolding wipe_list count_list
wipe_list_lem m null h c = (λ r. omega arith, tt, tt)
wipe_list_lem m (node n subnodes next) (h, hs, hn) c =
    let one = prepare_node_for_wiping_lem m n h (λ r. omega (arith, c r)) in
    let m₁ = (prepare_node_for_wiping m n).0 in
    let two = wipe_list_lem m₁ subnodes hs (λ r. omega (arith, c r, one.0 r)) in
    let m₂ = (wipe_list m₁ subnodes).0 in
    let three = wipe_list_lem m₂ next hn (λ r. omega (arith, c r, one.0 r, two.0 r)) in
    (
      λ r. omega (arith, one.0 r, two.0 r, three.0 r),
      (one.1, two.1, three.1),
      (one.2, two.2, three.2),
    )

pub count_list_of_IsWiped : (r : BackupRef) (l : PathList) → IsWiped l → count_list r l ≡ 0
unfolding count_list count_node
count_list_of_IsWiped r null w = refl
count_list_of_IsWiped r (node n subnodes next) (w, ws, wn) =
    rw w (omega (arith, count_list_of_IsWiped r subnodes ws, count_list_of_IsWiped r next wn))

pub count_node_of_wiped : (r : BackupRef) (n : Node) → is_kept n ≡ false → count_node r n ≡ 0
unfolding count_node
count_node_of_wiped r n w = rw w

-- Wiping a node recursively, where the hints exist and the points are counted, gives back the references of all points at and below it, and nothing of
-- it stays part of the repository.
pub prepare_node_for_wiping_recursively_lem :
    (m : Metadata) (e : Entry)
    → e.node.hint < hint_limit
    → IsHinted e.subnodes
    → Covers m (λ r. count_entry r e)
    → let (m', e') = prepare_node_for_wiping_recursively m e in
      ((r : BackupRef) → refs r m' + count_entry r e ≡ refs r m)
      × (is_kept e'.node ≡ false)
      × IsWiped e'.subnodes
unfolding prepare_node_for_wiping_recursively count_entry
prepare_node_for_wiping_recursively_lem m e h hs c =
    let one = prepare_node_for_wiping_lem m e.node h (λ r. omega (arith, c r)) in
    let m₁ = (prepare_node_for_wiping m e.node).0 in
    let two = wipe_list_lem m₁ e.subnodes hs (λ r. omega (arith, c r, one.0 r)) in
    (λ r. omega (arith, one.0 r, two.0 r), one.1, two.1)
