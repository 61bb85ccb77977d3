-- ===== src/Backup/RemovedPaths.antt =====
-- handleRemovedPath() of src/backup.c: the reference counts keep counting the points.
use nano_backup.Prelude.{◌+◌, ◌^◌, ◌≤◌, ◌<◌, ◌≡◌, arith, true, false}
use nano_backup.Prelude.{◌==◌, if◌then◌else◌, refl, Bool-cases, inl, inr, not, ok, ◌&&◌, ◌||◌}
use nano_backup.Hint.{BackupPolicy, bpol_mirror, bpol_none}
use nano_backup.Metadata.{current, Metadata, type_of, pst_directory}
use nano_backup.Metadata.Codec.{is_kept}
use nano_backup.Backup.{
  handle_policy_changes, Entry, latest, handle_removed_path, prepare_node_for_wiping,
  prepare_node_for_wiping_recursively, is_null,
}
use nano_backup.Backup.Changed.{Survives, handle_policy_changes-eq-ok, changed_policy}
use nano_backup.Backup.Counting.{refs, count_entry, Covers, Balanced}
use nano_backup.Backup.Wiping.{
  IsWiped, count_list_of_IsWiped, count_node_of_wiped, prepare_node_for_wiping_lem,
  prepare_node_for_wiping_recursively_lem,
}
use nano_backup.Backup.Removal.{IsEntry, MarkedEntry, size_entry, mark_as_removed_recursively_lem}
use nano_backup.Backup.Policies.{changed_policy_lem}

-- How handleRemovedPath() leaves a node that has the policy already
abbrev pub RemovedEntry : Entry → BackupPolicy → Entry → Type 0
RemovedEntry e policy e' =
    if policy == bpol_mirror
    then (is_kept e'.node ≡ false) × IsWiped e'.subnodes
    else if policy == bpol_none
        && (is_null e.subnodes || not (type_of (latest e.node.history) == pst_directory))
    then (is_kept e'.node ≡ false) × (e'.subnodes ≡ e.subnodes)
    else MarkedEntry e e' true

-- handleRemovedPath() has a result when there is room for a reference more for each node at and
-- below a node of the repository whose hints exist and whose points are counted, and whose history
-- survives its new policy. The new policy is set by handlePolicyChanges(); then a mirrored node is
-- wiped with all that is below it, one without a policy that is not a directory with nodes below it
-- is wiped alone, and any other is marked as removed with all that is below it. Each reference count
-- has changed as the points did, and there are no more new references than nodes.
pub handle_removed_path_lem :
    (m : Metadata) (e : Entry) (policy : BackupPolicy)
    → IsEntry e
    → is_kept e.node ≡ true
    → Covers m (λ r. count_entry r e)
    → refs current m + size_entry e < 2 ^ 64
    → Survives e.node policy
    → (m' : Metadata) × (e' : Entry) × (handle_removed_path m e policy ≡ ok (m', e'))
      × Balanced m (λ r. count_entry r e) m' (λ r. count_entry r e')
      × (refs current m' ≤ refs current m + size_entry e)
      × ((m₁ : Metadata) × (e₁ : Entry) × (handle_policy_changes m e policy ≡ ok (m₁, e₁))
          × RemovedEntry e₁ policy e')
unfolding handle_removed_path count_entry size_entry
handle_removed_path_lem m e policy v k c b s =
    let (eq, _) = handle_policy_changes-eq-ok m e policy s in
    let (m₁, e₁) = changed_policy m e policy in
    let (bal, less, v₁, p, k₁, size, _) = changed_policy_lem m e policy v k c in
    let covered : Covers m₁ (λ r. count_entry r e₁) = λ r. omega (arith, c r, bal r, less r) in
    elim (Bool-cases (policy == bpol_mirror)) [
      | inl mirror ↦
          let wiped = prepare_node_for_wiping_recursively_lem m₁ e₁ v₁.hint v₁.hints covered in
          let (m', e') = prepare_node_for_wiping_recursively m₁ e₁ in
          (
            m',
            e',
            rw (eq, mirror) refl,
            λ r. omega (
              arith,
              bal r,
              wiped.0 r,
              count_node_of_wiped r e'.node wiped.1,
              count_list_of_IsWiped r e'.subnodes wiped.2,
            ),
            omega (arith, bal current, less current, wiped.0 current),
            (m₁, e₁, eq, rw mirror (wiped.1, wiped.2)),
          )
      | inr other ↦
          elim (Bool-cases (
            policy == bpol_none
            && (is_null e₁.subnodes || not (type_of (latest e₁.node.history) == pst_directory)))) [
              | inl single ↦
                  let wiped =
                    prepare_node_for_wiping_lem m₁ e₁.node v₁.hint
                      (λ r. omega (arith, covered r)) in
                  let (m', n') = prepare_node_for_wiping m₁ e₁.node in
                  (
                    m',
                    record e₁ { node = n' },
                    rw (eq, other, single) refl,
                    λ r. omega (arith, bal r, wiped.0 r, count_node_of_wiped r n' wiped.1),
                    omega (arith, bal current, less current, wiped.0 current),
                    (m₁, e₁, eq, rw (other, single) (wiped.1, refl)),
                  )
              | inr rest ↦
                  let (m', e', q, bal', le, _, marked) =
                    mark_as_removed_recursively_lem m₁ e₁ true v₁
                      (omega (arith, bal current, less current)) in
                  (
                    m',
                    e',
                    rw (eq, other, rest) q,
                    λ r. omega (arith, bal r, bal' r),
                    omega (arith, bal current, less current),
                    (m₁, e₁, eq, rw (other, rest) (marked k₁)),
                  )
            ]
    ]
