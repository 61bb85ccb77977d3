-- ===== src/Backup/FoundResult.antt =====
-- handleFoundNode() of src/backup.c has a result when the file can be read.
use nano_backup.Prelude.{
  ◌+◌, ◌^◌, ◌<◌, ◌≡◌, refl, ap, sym, ◌∙◌, ◌⊎◌, some, true, ==_iff, arith, not, ◌||◌, Bool-cases,
  inl, inr, [], ◌∷◌, ◌==◌, ok,
}
use nano_backup.Hint.{
  BackupPolicy, hint_no_pol, hint_set, bh_policy_changed, bh_none, bpol_track, bpol_none,
}
use nano_backup.Hint.Laws.{hint_limit}
use nano_backup.Metadata.{
  type_of, pst_non_existing, pst_directory, current, Point, PathHistory, Node, PathList, Metadata,
  non_existing,
}
use nano_backup.Backup.{Entry, latest, drop_reference}
use nano_backup.Backup.Changed.{
  Survives, newest, KeptHistory-not_empty, handle_policy_changes-eq-ok, without_removed_state,
  without_older_states, under_policy, changed_policy,
}
use nano_backup.Backup.Counting.{
  refs, same_ref_self, count_history, count_entry, Covers, Balanced, refs-drop_reference,
}
use nano_backup.Backup.Removal.{IsEntry, refer_to_current_lem}
use nano_backup.Backup.Policies.{changed_policy_lem}
use nano_backup.Backup.Changes.{Files, SearchResult}
use nano_backup.Backup.Readable.{
  IsFileType, CanRead, HasValue, set_path_history_state-HasValue, handle_node_changes-HasValue,
}
use nano_backup.Backup.Search.{
  found_untracked, found_again, found_tracked, handle_found_node, reassign_point_to_current,
  build_path_history_point,
}
use nano_backup.Backup.Found.{Tracked, handle_found_node-Tracked}
use nano_backup.Backup.FoundCounts.{kept_of_none, Covers-history, handle_found_node-Balanced}

under_policy-path :
    (m : Metadata) (n : Node) (subnodes : PathList) (policy : BackupPolicy)
    → (under_policy m n subnodes policy).1.node.path ≡ n.path
unfolding under_policy
under_policy-path m n subnodes policy =
    elim (Bool-cases (type_of (latest n.history) == pst_directory)) [
      | inl e ↦ rw e refl
      | inr e ↦ rw e refl
    ]

without_older_states-path :
    (m : Metadata) (n : Node) (history : PathHistory)
    → (without_older_states m n history).1.path ≡ n.path
unfolding without_older_states
without_older_states-path m n [] = refl
without_older_states-path m n (point ∷ []) = refl
without_older_states-path m n (point ∷ older ∷ rest) = refl

changed_policy-path :
    (m : Metadata) (e : Entry) (policy : BackupPolicy)
    → (changed_policy m e policy).1.node.path ≡ e.node.path
unfolding changed_policy
changed_policy-path m e policy = elim (Bool-cases (e.node.policy == policy)) [
  | inl same ↦ rw same refl
  | inr other ↦ elim (Bool-cases (e.node.policy == bpol_track)) [
    | inr untracked ↦ rw (other, untracked) refl
    | inl tracked ↦
        rw (other, tracked)
          (let n : Node = record e.node { hint = hint_set e.node.hint bh_policy_changed } in
            let (m₁, history) = without_removed_state m e.node.history in
            let (m₂, n') = without_older_states m₁ n history in
            under_policy-path m₂ n' e.subnodes policy ∙ without_older_states-path m₁ n history)
  ]
]

-- The file of a search result can be read, and it is the file of the node.
abbrev pub Found : Files → Node → SearchResult → Type 0
Found f n r = (n.path ≡ r.path) × IsFileType r.type × CanRead f r.path r.type r.stats

module _ (f : Files) (m : Metadata) (e : Entry) (r : SearchResult) (found : Found f e.node r)
    (hint : e.node.hint < hint_limit) (room : refs current m + 1 < 2 ^ 64) where
  found_again-HasValue : HasValue (found_again f m e r)
  unfolding found_again build_path_history_point
  found_again-HasValue =
      let (m', counted, counts) = refer_to_current_lem m room in
      let (state, made) = set_path_history_state-HasValue f non_existing r found.2 in
      rw (counted, made) (_, refl)

  found_tracked-HasValue : HasValue (found_tracked f m e r)
  unfolding found_tracked
  found_tracked-HasValue =
      let (m', counted, counts) = refer_to_current_lem m room in
      let (changes, made) =
        handle_node_changes-HasValue f e.node (latest e.node.history) r refl hint found.0 found.1
          found.2 in
      elim (Bool-cases (hint_no_pol changes.0.hint == bh_none)) [
        | inl none ↦ rw (made, none) (_, refl)
        | inr changed ↦ rw (made, changed, counted) (_, refl)
      ]

  found_untracked-HasValue :
      (point : Point) (rest : PathHistory)
      → e.node.history ≡ point ∷ rest
      → Covers m (λ q. count_history q (point ∷ rest))
      → HasValue (found_untracked f m e (point ∷ rest) r)
  unfolding found_untracked count_history reassign_point_to_current
  found_untracked-HasValue point rest eq c =
      let (changes, made) =
        handle_node_changes-HasValue f e.node point.state r (ap latest eq) hint found.0 found.1
          found.2 in
      let positive : 0 < refs point.backup m =
        omega (arith, c point.backup, same_ref_self point.backup) in
      let dropped = drop_reference m point.backup in
      let less = refs-drop_reference current point.backup m positive in
      let (m', counted, counts) = refer_to_current_lem dropped (omega arith) in
      elim (Bool-cases (not (hint_no_pol changes.0.hint == bh_none) || r.policy == bpol_none)) [
        | inl changed ↦ rw (made, changed, counted) (_, refl)
        | inr same ↦ rw (made, same) (_, refl)
      ]

-- The node has a state that survives, or it is and was tracked.
abbrev HasState : Node → BackupPolicy → Type 0
HasState n policy =
    ((n.policy ≡ bpol_track) × (policy ≡ bpol_track))
    ⊎ ((point : Point) × (newest n.history ≡ some point))

HasState-Survives : (n : Node) (policy : BackupPolicy) → HasState n policy → Survives n policy
HasState-Survives n policy (inl (p, q)) = inl (p ∙ sym q)
HasState-Survives n policy (inr s) = inr s

-- handleFoundNode() has a result for a node that was not visited before, whose hints exist, whose
-- points are counted and whose history has a state: when the path of the search result is the node's
-- and can be read as its type and its stats say, and there is room for one reference more. It has
-- changed each reference count as the points of the node changed.
handle_found_node_lem :
    (f : Files) (m : Metadata) (e : Entry) (r : SearchResult)
    → IsEntry e
    → hint_no_pol e.node.hint ≡ bh_none
    → Covers m (λ q. count_entry q e)
    → Found f e.node r
    → refs current m + 1 < 2 ^ 64
    → HasState e.node r.policy
    → (m' : Metadata) × (e' : Entry) × (handle_found_node f m e r ≡ ok (m', e'))
      × Balanced m (λ q. count_entry q e) m' (λ q. count_entry q e')
unfolding handle_found_node
handle_found_node_lem f m e r v z c found room s =
    let survives = HasState-Survives e.node r.policy s in
    let (eq, kept) = handle_policy_changes-eq-ok m e r.policy survives in
    let (m₁, e₁) = changed_policy m e r.policy in
    let (bal, less, v₁, _, _, _, none) =
      changed_policy_lem m e r.policy v (kept_of_none e.node z) c in
    let z₁ : hint_no_pol e₁.node.hint ≡ bh_none = none ∙ z in
    let covered : Covers m₁ (λ q. count_entry q e₁) = λ q. omega (arith, c q, bal q, less q) in
    let room₁ : refs current m₁ + 1 < 2 ^ 64 = omega (arith, bal current, less current) in
    let found₁ : Found f e₁.node r =
      (changed_policy-path m e r.policy ∙ found.0, found.1, found.2) in
    let whole : HasValue (handle_found_node f m e r) = elim (Bool-cases (r.policy == bpol_track)) [
      | inr other ↦ elim s [
        | inl (_, q) ↦
            let bad : (r.policy == bpol_track) ≡ true = (==_iff r.policy bpol_track).1 q in cc
        | inr (point, h) ↦
            let (first, rest, here) =
              KeptHistory-not_empty e.node r.policy e₁.node.history point h kept in
            let c' = Covers-history m₁ e₁ z₁ covered in
            rw (eq, other, here)
              (found_untracked-HasValue f m₁ e₁ r found₁ v₁.hint room₁ first rest here
                (rw here at c'))
      ]
      | inl tracked ↦ elim (Bool-cases (type_of (latest e₁.node.history) == pst_non_existing)) [
        | inl removed ↦
            rw (eq, tracked, removed) (found_again-HasValue f m₁ e₁ r found₁ v₁.hint room₁)
        | inr there ↦
            rw (eq, tracked, there) (found_tracked-HasValue f m₁ e₁ r found₁ v₁.hint room₁)
      ]
    ] in
    let (value, result) = whole in
    (
      value.0,
      value.1,
      result,
      handle_found_node-Balanced f m value.0 e value.1 r v z c survives result,
    )

-- A path that is tracked, was tracked before and was not visited yet never loses a point of its
-- history: handleFoundNode() has a result, and nothing has changed, or one point of the current
-- backup is new in front of the history, and counted. The conditions are those under which it has a
-- result: the hints exist, the points are counted, the path of the search result is the node's and
-- can be read as its type and its stats say, and there is room for one reference more.
pub handle_found_node-ok-Tracked :
    (f : Files) (m : Metadata) (e : Entry) (r : SearchResult)
    → IsEntry e
    → hint_no_pol e.node.hint ≡ bh_none
    → Covers m (λ q. count_entry q e)
    → Found f e.node r
    → refs current m + 1 < 2 ^ 64
    → e.node.policy ≡ bpol_track
    → r.policy ≡ bpol_track
    → (m' : Metadata) × (e' : Entry) × (handle_found_node f m e r ≡ ok (m', e')) × Tracked m e m' e'
handle_found_node-ok-Tracked f m e r v z c found room p p' =
    let (m', e', result, balanced) = handle_found_node_lem f m e r v z c found room (inl (p, p')) in
    (m', e', result, handle_found_node-Tracked f m m' e e' r v.hint z p p' result)
