-- ===== src/Backup/Removal.antt =====
-- markAsRemovedRecursively(), handlePolicyChanges() and handleRemovedPath() of src/backup.c: the
-- reference counts keep counting the points.
use nano_backup.Prelude.{
  ℕ, subst, false, if◌then◌else◌, suc, ◌+◌, ◌^◌, ◌≤◌, ◌<◌, ◌≡◌, refl, arith, Bool, true,
}
use nano_backup.Prelude.{◌∷◌, ◌==◌, Bool-cases, inl, inr, ok, ◌&&◌}
use nano_backup.SafeMath.Bounds.{size_add-eq-ok}
use nano_backup.Hint.{hint_no_pol, hint_set, bh_removed, bh_unchanged, bpol_track}
use nano_backup.Hint.Laws.{hint_limit, hint_set_exclusive, hint_set_unchanged}
use nano_backup.Metadata.{
  BackupRef, current, past, Node, PathList, null, node, Metadata, type_of, pst_non_existing,
  non_existing,
}
use nano_backup.Metadata.Codec.{is_kept}
use nano_backup.Backup.{
  Entry, latest, refer_to_current, mark_node_as_removed, mark_list_as_removed,
  mark_as_removed_recursively,
}
use nano_backup.Backup.Counting.{
  refs, same_ref, same_ref_self, count_history, count_node, count_list, count_entry, Balanced,
}
use nano_backup.Backup.Wiping.{IsHinted, is_kept-eq_true}

unfoldable pub size_list : PathList → ℕ
size_list null = 0
size_list (node n subnodes next) = suc (size_list subnodes + size_list next)

-- There is room for a reference more.
pub refer_to_current_lem :
    (m : Metadata)
    → refs current m + 1 < 2 ^ 64
    → (m' : Metadata) × (refer_to_current m ≡ ok m')
      × ((r : BackupRef) → refs r m' ≡ refs r m + same_ref r current)
unfolding refer_to_current same_ref
refer_to_current_lem m h = (
  record m {
    current_backup = record m.current_backup { ref_count = m.current_backup.ref_count + 1 };
  },
  rw (size_add-eq-ok m.current_backup.ref_count 1 h) refl,
  elim [ current ↦ refl | past i ↦ omega arith ],
)

-- A node after it was marked as removed: one whose path did not exist already is unchanged; another is
-- hinted as removed, and has a new last state if it is tracked and all nodes above it are.
abbrev pub MarkedNode : Node → Node → Bool → Type 0
MarkedNode n n' extend =
    if type_of (latest n.history) == pst_non_existing
    then n' ≡ (record n { hint = bh_unchanged })
    else (hint_no_pol n'.hint ≡ bh_removed)
      × (n' ≡ (record n {
        hint = n'.hint;
        history =
            if extend && n.policy == bpol_track
            then (record { backup = current; state = non_existing }) ∷ n.history
            else n.history;
      }))

-- Whether the histories below the node are extended
abbrev pub extends_below : Node → Bool → Bool
extends_below n extend =
    if type_of (latest n.history) == pst_non_existing
    then extend
    else extend && n.policy == bpol_track

-- A list of nodes after each of the repository was marked as removed, with what is below it
abbrev pub MarkedList : PathList → PathList → Bool → Type 0
MarkedList null l' extend = l' ≡ null
MarkedList (node n subnodes next) l' extend =
    (n' : Node) × (subnodes' : PathList) × (next' : PathList) × (l' ≡ node n' subnodes' next')
    × (is_kept n ≡ false → (n' ≡ n) × (subnodes' ≡ subnodes))
    × (is_kept n ≡ true
        → MarkedNode n n' extend × MarkedList subnodes subnodes' (extends_below n extend))
    × MarkedList next next' extend

abbrev pub MarkedEntry : Entry → Entry → Bool → Type 0
MarkedEntry e e' extend =
    MarkedNode e.node e'.node extend
    × MarkedList e.subnodes e'.subnodes (extends_below e.node extend)

mark_node_as_removed_lem :
    (m : Metadata) (n : Node) (extend : Bool)
    → is_kept n ≡ true
    → n.hint < hint_limit
    → refs current m + 1 < 2 ^ 64
    → (m' : Metadata) × (n' : Node) × (extend' : Bool) × (mark_node_as_removed m n extend
        ≡ ok (m', n', extend'))
      × ((r : BackupRef) → refs r m' + count_node r n ≡ refs r m + count_node r n')
      × (refs current m' ≤ refs current m + 1)
      × (is_kept n' ≡ true)
      × (n'.hint < hint_limit)
      × MarkedNode n n' extend
      × (extend' ≡ extends_below n extend)
unfolding mark_node_as_removed count_node count_history
mark_node_as_removed_lem m n extend k h b =
    elim (Bool-cases (type_of (latest n.history) == pst_non_existing)) [
      | inl absent ↦
          let n' : Node = record n { hint = hint_set n.hint bh_unchanged } in
          let set = hint_set_unchanged n.hint in
          let kept : is_kept n' ≡ true = is_kept-eq_true n' (omega (arith, set.0)) in
          (
            m,
            n',
            extend,
            rw absent refl,
            λ r. rw (k, kept) refl,
            omega arith,
            kept,
            omega (arith, set.1),
            rw (absent, set.1) refl,
            rw absent refl,
          )
      | inr there ↦
          let set = hint_set_exclusive n.hint bh_removed h (omega arith) (omega arith) in
          let removed : Node = record n { hint = hint_set n.hint bh_removed } in
          elim (Bool-cases (extend && n.policy == bpol_track)) [
            | inr plain ↦
                let kept : is_kept removed ≡ true =
                  is_kept-eq_true removed (omega (arith, set.0)) in
                (
                  m,
                  removed,
                  false,
                  rw (there, plain) refl,
                  λ r. rw (k, kept) refl,
                  omega arith,
                  kept,
                  set.2,
                  rw (there, plain) (set.0, refl),
                  rw (there, plain) refl,
                )
            | inl tracked ↦
                let (m', e, counts) = refer_to_current_lem m b in
                let n' : Node = record removed {
                  history = (record { backup = current; state = non_existing }) ∷ removed.history;
                } in
                let kept : is_kept n' ≡ true = is_kept-eq_true n' (omega (arith, set.0)) in
                (
                  m',
                  n',
                  true,
                  rw (there, tracked) (rw e refl),
                  λ r. rw (k, kept) (omega (arith, counts r)),
                  omega (arith, counts current, same_ref_self current),
                  kept,
                  set.2,
                  rw (there, tracked) (set.0, refl),
                  rw (there, tracked) refl,
                )
          ]
    ]

-- With room for one more reference for each node, a list of nodes can be marked as removed, and each
-- reference count changes as the points of the list do.
mark_list_as_removed_lem :
    (l : PathList) (m : Metadata) (extend : Bool)
    → IsHinted l
    → refs current m + size_list l < 2 ^ 64
    → (m' : Metadata) × (l' : PathList) × (mark_list_as_removed m l extend ≡ ok (m', l'))
      × Balanced m (λ r. count_list r l) m' (λ r. count_list r l')
      × (refs current m' ≤ refs current m + size_list l)
      × IsHinted l'
      × MarkedList l l' extend
unfolding mark_list_as_removed size_list count_list
mark_list_as_removed_lem null m extend h b = (m, null, refl, λ r. refl, omega arith, tt, refl)
mark_list_as_removed_lem (node n subnodes next) m extend (h, hs, hn) b =
    elim (Bool-cases (is_kept n)) [
      | inr gone ↦
          let (m₁, next', e, bal, le, hn', marked) =
            mark_list_as_removed_lem next m extend hn (omega arith) in
          (
            m₁,
            node n subnodes next',
            rw gone (rw e refl),
            λ r. omega (arith, bal r),
            omega arith,
            (h, hs, hn'),
            (n, subnodes, next', refl, (λ g. (refl, refl)), (λ k. cc), marked),
          )
      | inl kept ↦
          let (m₁, n', extend', e₁, bal₁, le₁, kept', h', marked₁, below) =
            mark_node_as_removed_lem m n extend kept h (omega arith) in
          let (m₂, subnodes', e₂, bal₂, le₂, hs', marked₂) =
            mark_list_as_removed_lem subnodes m₁ extend' hs (omega arith) in
          let (m₃, next', e₃, bal₃, le₃, hn', marked₃) =
            mark_list_as_removed_lem next m₂ extend hn (omega arith) in
          (
            m₃,
            node n' subnodes' next',
            rw kept (rw e₁ (rw e₂ (rw e₃ refl))),
            λ r. omega (arith, bal₁ r, bal₂ r, bal₃ r),
            omega arith,
            (h', hs', hn'),
            (
              n',
              subnodes',
              next',
              refl,
              (λ g. cc),
              (λ k. (marked₁, subst (MarkedList subnodes subnodes') below marked₂)),
              marked₃,
            ),
          )
    ]

-- A node and what is below it, as metadata.h wants them
pub record IsEntry (e : Entry) : Type 0 where
  pub hint : e.node.hint < hint_limit
  pub hints : IsHinted e.subnodes

unfoldable pub size_entry : Entry → ℕ
unfolding size_list
size_entry e = suc (size_list e.subnodes)

-- With room for one more reference for each node at and below it, a node can be marked as removed.
-- If it is no part of the repository, nothing has changed. Otherwise it and each node of the
-- repository below it are hinted as removed, or as unchanged where the path did not exist already; a
-- node that existed gets a new last state exactly if it and all that existed above it are tracked,
-- and `extend` holds; nothing else of the nodes changes. Each reference count changes as the points
-- do. The hints are hints that exist.
pub mark_as_removed_recursively_lem :
    (m : Metadata) (e : Entry) (extend : Bool)
    → IsEntry e
    → refs current m + size_entry e < 2 ^ 64
    → (m' : Metadata) × (e' : Entry) × (mark_as_removed_recursively m e extend ≡ ok (m', e'))
      × Balanced m (λ r. count_entry r e) m' (λ r. count_entry r e')
      × (refs current m' ≤ refs current m + size_entry e)
      × (is_kept e.node ≡ false → e' ≡ e)
      × (is_kept e.node ≡ true → MarkedEntry e e' extend)
unfolding mark_as_removed_recursively size_entry count_entry
mark_as_removed_recursively_lem m e extend v b = elim (Bool-cases (is_kept e.node)) [
  | inr gone ↦ (m, e, rw gone refl, λ r. refl, omega arith, λ g. refl, λ k. cc)
  | inl kept ↦
      let (m₁, n', extend', e₁, bal₁, le₁, kept', h', marked₁, below) =
        mark_node_as_removed_lem m e.node extend kept v.hint (omega arith) in
      let (m₂, subnodes', e₂, bal₂, le₂, hs', marked₂) =
        mark_list_as_removed_lem e.subnodes m₁ extend' v.hints (omega arith) in
      (
        m₂,
        record { node = n'; subnodes = subnodes' },
        rw kept (rw e₁ (rw e₂ refl)),
        λ r. omega (arith, bal₁ r, bal₂ r),
        omega arith,
        λ g. cc,
        λ k. (marked₁, subst (MarkedList e.subnodes subnodes') below marked₂),
      )
]
