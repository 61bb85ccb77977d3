-- ===== src/Backup/Policies.antt =====
-- handlePolicyChanges() of src/backup.c: the reference counts keep counting the points.
use nano_backup.Prelude.{◌+◌, ◌≤◌, ◌<◌, ◌≡◌, refl, arith, ◌∙◌, true}
use nano_backup.Prelude.{[], ◌∷◌, ◌==◌, ==_iff, Bool-cases, inl, inr, ok}
use nano_backup.Hint.{BackupPolicy, hint_set, hint_no_pol, bh_policy_changed, bpol_track}
use nano_backup.Hint.Laws.{hint_limit, hint_set_policy}
use nano_backup.Metadata.{
  BackupRef, PathHistory, Node, PathList, null, node, Metadata, type_of, pst_non_existing,
  pst_directory,
}
use nano_backup.Metadata.Codec.{is_kept}
use nano_backup.Backup.{handle_policy_changes, Entry, latest, wipe_list, prepare_node_for_wiping}
use nano_backup.Backup.Changed.{
  KeptSubnodes, changed_policy-KeptSubnodes, Survives, KeptHistory, handle_policy_changes-eq-ok,
  without_removed_state, without_older_states, under_policy, changed_policy,
}
use nano_backup.Backup.Counting.{
  refs, same_ref_self, count_history, count_node, count_list, count_entry, Covers, Balanced,
  refs-drop_reference, refs-decrement_ref_counts,
}
use nano_backup.Backup.Wiping.{wipe_list_lem, count_list_of_IsWiped}
use nano_backup.Backup.Removal.{IsEntry, size_list}

is_kept_same_hint :
    (n n' : Node) → hint_no_pol n'.hint ≡ hint_no_pol n.hint → is_kept n' ≡ is_kept n
unfolding is_kept
is_kept_same_hint n n' h = rw h refl

without_removed_state_lem :
    (m : Metadata) (h : PathHistory)
    → Covers m (λ r. count_history r h)
    → let (m', h') = without_removed_state m h in
      (r : BackupRef)
      → (refs r m' + count_history r h ≡ refs r m + count_history r h')
        × (count_history r h' ≤ count_history r h)
unfolding without_removed_state count_history
without_removed_state_lem m [] c r = (refl, omega arith)
without_removed_state_lem m (point ∷ rest) c r =
    elim (Bool-cases (type_of point.state == pst_non_existing)) [
      | inr there ↦ rw there (refl, omega arith)
      | inl absent ↦
          let positive : 0 < refs point.backup m =
            omega (arith, c point.backup, same_ref_self point.backup) in
          rw absent (omega (arith, refs-drop_reference r point.backup m positive), omega arith)
    ]

-- The hint without policy bits stays, and so do policy and path.
without_older_states_lem :
    (m : Metadata) (n : Node) (h : PathHistory)
    → n.hint < hint_limit
    → Covers m (λ r. count_history r h)
    → let (m', n') = without_older_states m n h in
      Balanced m (λ r. count_history r h) m' (λ r. count_history r n'.history)
      × ((r : BackupRef) → count_history r n'.history ≤ count_history r h)
      × (hint_no_pol n'.hint ≡ hint_no_pol n.hint)
      × (n'.hint < hint_limit)
unfolding without_older_states count_history
without_older_states_lem m n [] h c = (λ r. refl, λ r. omega arith, refl, h)
without_older_states_lem m n (point ∷ []) h c = (λ r. refl, λ r. omega arith, refl, h)
without_older_states_lem m n (point ∷ older ∷ rest) h c =
    let set = hint_set_policy n.hint 1 h (omega arith) in
    (
      λ r. omega (arith, refs-decrement_ref_counts (older ∷ rest) m (λ q. omega (arith, c q)) r),
      λ r. omega arith,
      set.1,
      set.2,
    )

size_list-wipe_list : (m : Metadata) (l : PathList) → size_list (wipe_list m l).1 ≡ size_list l
unfolding size_list wipe_list
size_list-wipe_list m null = refl
size_list-wipe_list m (node n subnodes next) =
    let m₁ = (prepare_node_for_wiping m n).0 in
    let m₂ = (wipe_list m₁ subnodes).0 in
    omega (arith, size_list-wipe_list m₁ subnodes, size_list-wipe_list m₂ next)

-- What handlePolicyChanges() promises: the counts follow the points, and the node stays in the
-- repository under its new policy.
abbrev pub PolicyChanged : Metadata → Entry → BackupPolicy → Metadata → Entry → Type 0
PolicyChanged m e policy m' e' =
    Balanced m (λ r. count_entry r e) m' (λ r. count_entry r e')
    × ((r : BackupRef) → count_entry r e' ≤ count_entry r e)
    × IsEntry e'
    × (e'.node.policy ≡ policy)
    × (is_kept e'.node ≡ true)
    × (size_list e'.subnodes ≡ size_list e.subnodes)
    × (hint_no_pol e'.node.hint ≡ hint_no_pol e.node.hint)

under_policy_lem :
    (m : Metadata) (n : Node) (subnodes : PathList) (policy : BackupPolicy)
    → IsEntry (record { node = n; subnodes = subnodes })
    → is_kept n ≡ true
    → Covers m (λ r. count_entry r (record { node = n; subnodes = subnodes }))
    → let (m', e') = under_policy m n subnodes policy in
      PolicyChanged m (record { node = n; subnodes = subnodes }) policy m' e'
unfolding under_policy count_entry count_node
under_policy_lem m n subnodes policy v k c =
    let n' : Node = record n { policy = policy } in
    let kept : is_kept n' ≡ true = is_kept_same_hint n n' refl ∙ k in
    elim (Bool-cases (type_of (latest n.history) == pst_directory)) [
      | inl directory ↦ rw directory (
        λ r. rw (k, kept) refl,
        λ r. rw (k, kept) (omega arith),
        record { hint = v.hint; hints = v.hints },
        refl,
        kept,
        refl,
        refl,
      )
      | inr other ↦
          let wiped = wipe_list_lem m subnodes v.hints (λ r. omega (arith, c r)) in
          rw other (
            λ r.
                rw (k, kept)
                  (omega
                    (arith, wiped.0 r, count_list_of_IsWiped r (wipe_list m subnodes).1 wiped.1)),
            λ r.
                rw (k, kept)
                  (omega (arith, count_list_of_IsWiped r (wipe_list m subnodes).1 wiped.1)),
            record { hint = v.hint; hints = wiped.2 },
            refl,
            kept,
            size_list-wipe_list m subnodes,
            refl,
          )
    ]

-- A node that is tracked: the states that its new policy does not keep are dropped.
drop_states_lem :
    (m : Metadata) (n : Node)
    → n.hint < hint_limit
    → Covers m (λ r. count_history r n.history)
    → let (m₁, history) = without_removed_state m n.history in
      let (m₂, n') = without_older_states m₁ n history in
      Balanced m (λ r. count_history r n.history) m₂ (λ r. count_history r n'.history)
      × ((r : BackupRef) → count_history r n'.history ≤ count_history r n.history)
      × (hint_no_pol n'.hint ≡ hint_no_pol n.hint)
      × (n'.hint < hint_limit)
drop_states_lem m n h c =
    let one = without_removed_state_lem m n.history c in
    let m₁ = (without_removed_state m n.history).0 in
    let history = (without_removed_state m n.history).1 in
    let two = without_older_states_lem m₁ n history h (λ r. omega (arith, (one r).0, c r)) in
    (λ r. omega (arith, (one r).0, two.0 r), λ r. omega (arith, (one r).1, two.1 r), two.2, two.3)

-- The promise without the tests for NULL
pub changed_policy_lem :
    (m : Metadata) (e : Entry) (policy : BackupPolicy)
    → IsEntry e
    → is_kept e.node ≡ true
    → Covers m (λ r. count_entry r e)
    → let (m', e') = changed_policy m e policy in PolicyChanged m e policy m' e'
unfolding changed_policy count_entry count_node
changed_policy_lem m e policy v k c = elim (Bool-cases (e.node.policy == policy)) [
  | inl same ↦
      rw same (λ r. refl, λ r. omega arith, v, (==_iff e.node.policy policy).0 same, k, refl, refl)
  | inr other ↦
      let set = hint_set_policy e.node.hint 0 v.hint (omega arith) in
      let n : Node = record e.node { hint = hint_set e.node.hint bh_policy_changed } in
      let kept : is_kept n ≡ true = is_kept_same_hint e.node n set.1 ∙ k in
      let covered : (r : BackupRef)
          → count_history r n.history + count_list r e.subnodes ≤ refs r m =
        λ r. rw k at (c r) in
      elim (Bool-cases (e.node.policy == bpol_track)) [
        | inr untracked ↦
            let n' : Node = record n { policy = policy } in
            let kept' : is_kept n' ≡ true = is_kept_same_hint n n' refl ∙ kept in
            rw (other, untracked)
              (
                λ r. rw (k, kept') refl,
                λ r. rw (k, kept') (omega arith),
                record { hint = set.2; hints = v.hints },
                refl,
                kept',
                refl,
                set.1,
              )
        | inl tracked ↦
            let one = drop_states_lem m n set.2 (λ r. omega (arith, covered r)) in
            let (m₁, history) = without_removed_state m n.history in
            let (m₂, n') = without_older_states m₁ n history in
            let kept' : is_kept n' ≡ true = is_kept_same_hint n n' one.2 ∙ kept in
            let two =
              under_policy_lem m₂ n' e.subnodes policy (record { hint = one.3; hints = v.hints })
                kept' (λ r. rw kept' (omega (arith, one.0 r, covered r))) in
            rw (other, tracked)
              (
                λ r. rw k (omega (arith, one.0 r, rw kept' at (two.0 r))),
                λ r. rw k (omega (arith, one.1 r, rw kept' at (two.1 r))),
                two.2,
                two.3,
                two.4,
                two.5,
                two.6 ∙ one.2 ∙ set.1,
              )
      ]
]

-- handlePolicyChanges() has a result for a node in the repository that keeps its policy, or of whose
-- first two states one is that of an existing path, the second one if the first is not. It gives the
-- node its new policy and keeps it in the repository; a node that was tracked under the old policy
-- keeps this state only, and its subnodes are wiped unless it is a directory in it; any other keeps
-- its history and subnodes. Each reference count changes as the points of the
-- node and its subnodes do, and none grows. The hints exist and the points are counted before.
pub handle_policy_changes_lem :
    (m : Metadata) (e : Entry) (policy : BackupPolicy)
    → IsEntry e
    → is_kept e.node ≡ true
    → Covers m (λ r. count_entry r e)
    → Survives e.node policy
    → (m' : Metadata) × (e' : Entry) × (handle_policy_changes m e policy ≡ ok (m', e'))
      × PolicyChanged m e policy m' e'
      × KeptHistory e.node policy e'.node.history
      × KeptSubnodes e policy e'
handle_policy_changes_lem m e policy v k c s =
    let (eq, kept) = handle_policy_changes-eq-ok m e policy s in
    let (m', e') = changed_policy m e policy in
    (
      m',
      e',
      eq,
      changed_policy_lem m e policy v k c,
      kept,
      changed_policy-KeptSubnodes m e policy v.hints,
    )
