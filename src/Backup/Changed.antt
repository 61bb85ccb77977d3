-- ===== src/Backup/Changed.antt =====
-- handlePolicyChanges() of src/backup.c where it follows no NULL pointer: what it then does, without
-- the tests for one.
use nano_backup.Prelude.{
  ap, ◌≡◌, refl, ◌∙◌, not, true, ◌⊎◌, inl, inr, Bool-cases, [], ◌∷◌, ◌==◌, ==_iff, if◌then◌else◌,
  Option, none, some, ok,
}
use nano_backup.Hint.{BackupPolicy, bpol_track, hint_set, bh_policy_changed, bh_loses_history}
use nano_backup.Metadata.{
  Point, PathHistory, Node, PathList, Metadata, type_of, pst_non_existing, pst_directory,
}
use nano_backup.Backup.Wiping.{IsHinted, IsWiped, wipe_list-IsWiped}
use nano_backup.Backup.{
  Entry, latest, drop_reference, decrement_ref_counts, wipe_list, first_state, drop_removed_state,
  drop_older_states, with_policy, handle_policy_changes,
}

-- The first test in the branch for tracked nodes of handlePolicyChanges(): a removed state in front
-- is dropped.
unfoldable pub without_removed_state : Metadata → PathHistory → Metadata × PathHistory
unfolding drop_reference
without_removed_state m [] = (m, [])
without_removed_state m (point ∷ rest) =
    if type_of point.state == pst_non_existing
    then (drop_reference m point.backup, rest)
    else (m, point ∷ rest)

-- The second test: all but the latest state are dropped.
unfoldable pub without_older_states : Metadata → Node → PathHistory → Metadata × Node
unfolding decrement_ref_counts
without_older_states m n [] = (m, record n { history = [] })
without_older_states m n (point ∷ []) = (m, record n { history = point ∷ [] })
without_older_states m n (point ∷ older ∷ rest) = (
  decrement_ref_counts m (older ∷ rest),
  record n { history = point ∷ []; hint = hint_set n.hint bh_loses_history },
)

-- The third test and the new policy: subnodes of what is no directory any more are wiped.
unfoldable pub under_policy : Metadata → Node → PathList → BackupPolicy → Metadata × Entry
unfolding wipe_list
under_policy m n subnodes policy =
    if not (type_of (latest n.history) == pst_directory)
    then (let (m', subnodes') = wipe_list m subnodes in
        (m', record { node = record n { policy = policy }; subnodes = subnodes' }))
    else (m, record { node = record n { policy = policy }; subnodes = subnodes })

unfoldable pub changed_policy : Metadata → Entry → BackupPolicy → Metadata × Entry
unfolding without_removed_state without_older_states under_policy
changed_policy m e policy =
    if e.node.policy == policy
    then (m, e)
    else let n : Node = record e.node { hint = hint_set e.node.hint bh_policy_changed } in
      if n.policy == bpol_track
      then (let (m₁, history) = without_removed_state m n.history in
          let (m₂, n') = without_older_states m₁ n history in under_policy m₂ n' e.subnodes policy)
      else (m, record { node = record n { policy = policy }; subnodes = e.subnodes })

-- The last state of a history at which its path existed, of the first two
abbrev pub newest : PathHistory → Option Point
newest [] = none
newest (point ∷ []) = if type_of point.state == pst_non_existing then none else some point
newest (point ∷ older ∷ rest) =
    if type_of point.state == pst_non_existing then some older else some point

-- The node has such a state, or nothing changes.
abbrev pub Survives : Node → BackupPolicy → Type 0
Survives n policy = (n.policy ≡ policy) ⊎ ((point : Point) × (newest n.history ≡ some point))

drop_states-eq-ok :
    (m : Metadata) (n : Node) (history : PathHistory) (point : Point)
    → newest history ≡ some point
    → let (m₁, history₁) = without_removed_state m history in
      let (m₂, n') = without_older_states m₁ n history₁ in
      (drop_removed_state m history ≡ ok (m₁, history₁))
      × (drop_older_states m₁ n history₁ ≡ ok (m₂, n'))
      × (n'.history ≡ point ∷ [])
unfolding drop_removed_state drop_older_states without_removed_state without_older_states
drop_states-eq-ok m n [] point h = cc
drop_states-eq-ok m n (p ∷ []) point h = elim (Bool-cases (type_of p.state == pst_non_existing)) [
  | inl gone ↦ let h' = rw gone at h in cc
  | inr there ↦
      let same : some p ≡ some point = rw there at h in
      let same' : p ≡ point = cc in rw there (refl, refl, ap (λ q. q ∷ []) same')
]
drop_states-eq-ok m n (p ∷ q ∷ []) point h =
    elim (Bool-cases (type_of p.state == pst_non_existing)) [
      | inl gone ↦
          let same : some q ≡ some point = rw gone at h in
          let same' : q ≡ point = cc in rw gone (refl, refl, ap (λ q. q ∷ []) same')
      | inr there ↦
          let same : some p ≡ some point = rw there at h in
          let same' : p ≡ point = cc in rw there (refl, refl, ap (λ q. q ∷ []) same')
    ]
drop_states-eq-ok m n (p ∷ q ∷ r ∷ rest) point h =
    elim (Bool-cases (type_of p.state == pst_non_existing)) [
      | inl gone ↦
          let same : some q ≡ some point = rw gone at h in
          let same' : q ≡ point = cc in rw gone (refl, refl, ap (λ q. q ∷ []) same')
      | inr there ↦
          let same : some p ≡ some point = rw there at h in
          let same' : p ≡ point = cc in rw there (refl, refl, ap (λ q. q ∷ []) same')
    ]

with_policy-eq-ok :
    (m : Metadata) (n : Node) (subnodes : PathList) (policy : BackupPolicy) (point : Point)
    → n.history ≡ point ∷ []
    → (with_policy m n subnodes policy ≡ ok (under_policy m n subnodes policy))
      × ((under_policy m n subnodes policy).1.node.history ≡ point ∷ [])
unfolding with_policy under_policy first_state
with_policy-eq-ok m n subnodes policy point h =
    elim (Bool-cases (type_of point.state == pst_directory)) [
      | inl e ↦ rw (h, e) (refl, refl)
      | inr e ↦ rw (h, e) (refl, refl)
    ]

-- The history of a node under a new policy: of a tracked one only the newest state is kept.
abbrev pub KeptHistory : Node → BackupPolicy → PathHistory → Type 0
KeptHistory n policy history =
    if n.policy == policy
    then history ≡ n.history
    else if n.policy == bpol_track
    then ((point : Point) × (newest n.history ≡ some point) × (history ≡ point ∷ []))
    else history ≡ n.history

-- A history that has such a state is not empty, and neither is what is kept of it.
pub KeptHistory-not_empty :
    (n : Node) (policy : BackupPolicy) (history : PathHistory) (point : Point)
    → newest n.history ≡ some point
    → KeptHistory n policy history
    → (first : Point) × (rest : PathHistory) × (history ≡ first ∷ rest)
KeptHistory-not_empty n policy history point h k =
    let whole : history ≡ n.history
        → (first : Point) × (rest : PathHistory) × (history ≡ first ∷ rest) =
      λ same. let (first, rest, e) = not_empty n.history point h in (first, rest, same ∙ e) in
    elim (Bool-cases (n.policy == policy)) [
      | inl same ↦ whole (rw same at k)
      | inr other ↦ elim (Bool-cases (n.policy == bpol_track)) [
        | inl tracked ↦ let (q, _, e) = rw (other, tracked) at k in (q, [], e)
        | inr untracked ↦ whole (rw (other, untracked) at k)
      ]
    ]
  where
    not_empty :
        (h : PathHistory) (point : Point)
        → newest h ≡ some point
        → (first : Point) × (rest : PathHistory) × (h ≡ first ∷ rest)
    not_empty [] point h = cc
    not_empty (first ∷ rest) point h = (first, rest, refl)

pub handle_policy_changes-eq-ok :
    (m : Metadata) (e : Entry) (policy : BackupPolicy)
    → Survives e.node policy
    → (handle_policy_changes m e policy ≡ ok (changed_policy m e policy))
      × KeptHistory e.node policy (changed_policy m e policy).1.node.history
unfolding handle_policy_changes changed_policy
handle_policy_changes-eq-ok m e policy s = elim (Bool-cases (e.node.policy == policy)) [
  | inl same ↦ rw same (refl, refl)
  | inr other ↦ elim (Bool-cases (e.node.policy == bpol_track)) [
    | inr untracked ↦ rw (other, untracked) (refl, refl)
    | inl tracked ↦ elim s [
      | inl same ↦
          let bad : (e.node.policy == policy) ≡ true = (==_iff e.node.policy policy).1 same in cc
      | inr (point, h) ↦
          let n : Node = record e.node { hint = hint_set e.node.hint bh_policy_changed } in
          let (m₁, history) = without_removed_state m e.node.history in
          let (m₂, n') = without_older_states m₁ n history in
          let (e₁, e₂, h') = drop_states-eq-ok m n e.node.history point h in
          let (e₃, h'') = with_policy-eq-ok m₂ n' e.subnodes policy point h' in
          rw (other, tracked) (rw (e₁, e₂, e₃) refl, (point, h, h''))
    ]
  ]
]

-- The nodes below a node under a new policy: if it was tracked and is no directory in the state that
-- is kept, they are wiped.
abbrev pub KeptSubnodes : Entry → BackupPolicy → Entry → Type 0
KeptSubnodes e policy e' =
    if e.node.policy == policy
    then e'.subnodes ≡ e.subnodes
    else if e.node.policy == bpol_track
    then (if type_of (latest e'.node.history) == pst_directory
        then e'.subnodes ≡ e.subnodes
        else IsWiped e'.subnodes)
    else e'.subnodes ≡ e.subnodes

under_policy-subnodes :
    (m : Metadata) (n : Node) (subnodes : PathList) (policy : BackupPolicy)
    → IsHinted subnodes
    → let e' = (under_policy m n subnodes policy).1 in
      if type_of (latest e'.node.history) == pst_directory
      then e'.subnodes ≡ subnodes
      else IsWiped e'.subnodes
unfolding under_policy
under_policy-subnodes m n subnodes policy h =
    elim (Bool-cases (type_of (latest n.history) == pst_directory)) [
      | inl e ↦ rw (e, e) refl
      | inr e ↦ rw (e, e) (wipe_list-IsWiped m subnodes h)
    ]

pub changed_policy-KeptSubnodes :
    (m : Metadata) (e : Entry) (policy : BackupPolicy)
    → IsHinted e.subnodes
    → KeptSubnodes e policy (changed_policy m e policy).1
unfolding changed_policy
changed_policy-KeptSubnodes m e policy h = elim (Bool-cases (e.node.policy == policy)) [
  | inl same ↦ rw same refl
  | inr other ↦ elim (Bool-cases (e.node.policy == bpol_track)) [
    | inr untracked ↦ rw (other, untracked) refl
    | inl tracked ↦
        let n : Node = record e.node { hint = hint_set e.node.hint bh_policy_changed } in
        let (m₁, history) = without_removed_state m e.node.history in
        let (m₂, n') = without_older_states m₁ n history in
        rw (other, tracked) (under_policy-subnodes m₂ n' e.subnodes policy h)
  ]
]
