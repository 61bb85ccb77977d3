-- ===== src/Backup/NotFound.antt =====
-- handleNotFoundSubnodes() of src/backup.c: it has a result, and the reference counts keep counting
-- the points.
use nano_backup.Prelude.{
  ℕ, ◌<◌, ◌≤◌, ◌+◌, ◌^◌, ◌≡◌, ◌≢◌, inl, inr, refl, arith, Bool, true, false, if◌then◌else◌,
  Bool-cases,
}
use nano_backup.Prelude.{List, ◌==◌, ==_iff, ◌||◌, Result, ok}
use nano_backup.Str.{Bytes}
use nano_backup.Hint.{
  BackupPolicy, BackupHint, bh_not_part_of_repository, hint_no_pol, bh_none, bpol_none,
}
use nano_backup.Metadata.{current, PathList, null, node, Metadata}
use nano_backup.Metadata.Codec.{is_kept}
use nano_backup.Backup.{
  Entry, handle_policy_changes, handle_removed_path, prepare_node_for_wiping_recursively,
}
use nano_backup.Backup.Counting.{refs, count_list, count_entry, Covers, Balanced}
use nano_backup.Backup.Wiping.{
  IsHinted, IsWiped, is_kept-eq_true, prepare_node_for_wiping_recursively_lem, count_node_of_wiped,
  count_list_of_IsWiped,
}
use nano_backup.Backup.Removal.{IsEntry, size_list, size_entry}
use nano_backup.Backup.RemovedPaths.{RemovedEntry, handle_removed_path_lem}
use nano_backup.Backup.Changed.{Survives}
use nano_backup.Backup.Search.{
  SearchNodes, no_node, search_node, matches_search_subnodes, matches_ignore_list,
  handle_not_found_node, handle_by_match, handle_not_found_subnodes,
}

-- What happened to a node that was not found: with a node of the search tree that matches it, what
-- handleRemovedPath() does under its policy; else the node is wiped with all that is below it, if the
-- policy of the directory is none or the path is ignored, or handled under the directory's policy.
abbrev pub Removed : Metadata → Entry → BackupPolicy → Entry → Type 0
Removed m e policy e' =
    (m₁ : Metadata) × (e₁ : Entry) × (handle_policy_changes m e policy ≡ ok (m₁, e₁))
    × RemovedEntry e₁ policy e'

abbrev pub ByPolicy : Bool → Metadata → Entry → BackupPolicy → Entry → Type 0
ByPolicy wipes m e policy e' =
    if wipes then (is_kept e'.node ≡ false) × IsWiped e'.subnodes else Removed m e policy e'

-- A step that has a result, balances the counts and needs no more than `room` new references
abbrev Handled : Metadata → Entry → ℕ → (Entry → Type 0) → Result (Metadata × Entry) → Type 0
Handled m e room Outcome result =
    (m' : Metadata) × (e' : Entry) × (result ≡ ok (m', e'))
    × Balanced m (λ r. count_entry r e) m' (λ r. count_entry r e')
    × (refs current m' ≤ refs current m + room)
    × Outcome e'

Removed-Handled :
    (m : Metadata) (e : Entry) (policy : BackupPolicy)
    → IsEntry e
    → is_kept e.node ≡ true
    → Covers m (λ r. count_entry r e)
    → refs current m + size_entry e < 2 ^ 64
    → Survives e.node policy
    → Handled m e (size_entry e) (Removed m e policy) (handle_removed_path m e policy)
Removed-Handled m e policy v k c b s = handle_removed_path_lem m e policy v k c b s

IsWiped-Handled :
    (m : Metadata) (e : Entry)
    → IsEntry e
    → Covers m (λ r. count_entry r e)
    → Handled m e
        (size_entry e)
        (λ e'. (is_kept e'.node ≡ false) × IsWiped e'.subnodes)
        (ok (prepare_node_for_wiping_recursively m e))
unfolding count_entry
IsWiped-Handled m e v c =
    let wiped = prepare_node_for_wiping_recursively_lem m e v.hint v.hints c in
    let (m', e') = prepare_node_for_wiping_recursively m e in
    (
      m',
      e',
      refl,
      λ r. omega (
        arith,
        wiped.0 r,
        count_node_of_wiped r e'.node wiped.1,
        count_list_of_IsWiped r e'.subnodes wiped.2,
      ),
      omega (arith, wiped.0 current),
      (wiped.1, wiped.2),
    )

no_hint : (hint : BackupHint) → hint ≡ bh_none → hint_no_pol hint ≢ bh_not_part_of_repository
unfolding hint_no_pol
no_hint hint h = rw h (λ q. absurd (omega (arith, q)))

module _ {Regex : Type 0} (is_matching : Regex → Bytes → Bool) where
  abbrev pub ByMatch :
      Metadata → SearchNodes Regex → BackupPolicy → Entry → List Regex → Entry → Type 0
  ByMatch m (search_node name regex policy subnodes next) node_policy e ignore_list e' =
      Removed m e policy e'
  ByMatch m no_node node_policy e ignore_list e' =
      ByPolicy (node_policy == bpol_none || matches_ignore_list is_matching e.node.path ignore_list)
        m e node_policy e'

  -- The policies under which the node is handled do not lose its last state.
  abbrev pub SurvivesMatch : SearchNodes Regex → BackupPolicy → Entry → Type 0
  SurvivesMatch (search_node name regex policy subnodes next) node_policy e = Survives e.node policy
  SurvivesMatch no_node node_policy e = Survives e.node node_policy

  -- Nodes that were visited already stay, the others become what `ByMatch` says.
  abbrev pub NotFound :
      Metadata → SearchNodes Regex → BackupPolicy → Entry → List Regex → Entry → Type 0
  NotFound m node_match node_policy e ignore_list e' =
      if e.node.hint == bh_none
      then ByMatch m (matches_search_subnodes is_matching e.node.path node_match) node_policy e
          ignore_list e'
      else e' ≡ e

  ByMatch-Handled :
      (m : Metadata) (subnode_match : SearchNodes Regex) (node_policy : BackupPolicy) (e : Entry)
      (ignore_list : List Regex)
      → IsEntry e
      → is_kept e.node ≡ true
      → Covers m (λ r. count_entry r e)
      → refs current m + size_entry e < 2 ^ 64
      → SurvivesMatch subnode_match node_policy e
      → Handled m e
          (size_entry e)
          (ByMatch m subnode_match node_policy e ignore_list)
          (handle_by_match is_matching m subnode_match node_policy e ignore_list)
  unfolding handle_by_match
  ByMatch-Handled m (search_node name regex policy subnodes next) node_policy e ignore_list v k c b
        s =
      Removed-Handled m e policy v k c b s
  ByMatch-Handled m no_node node_policy e ignore_list v k c b s =
      elim (Bool-cases
        (node_policy == bpol_none || matches_ignore_list is_matching e.node.path ignore_list)) [
          | inl wipe ↦ rw wipe (IsWiped-Handled m e v c)
          | inr keep ↦ rw keep (Removed-Handled m e node_policy v k c b s)
        ]

  handle_not_found_node_lem :
      (m : Metadata) (node_match : SearchNodes Regex) (node_policy : BackupPolicy) (e : Entry)
      (ignore_list : List Regex)
      → IsEntry e
      → Covers m (λ r. count_entry r e)
      → refs current m + size_entry e < 2 ^ 64
      → (e.node.hint ≡ bh_none
          → SurvivesMatch
              (matches_search_subnodes is_matching e.node.path node_match)
              node_policy
              e)
      → Handled m e
          (size_entry e)
          (NotFound m node_match node_policy e ignore_list)
          (handle_not_found_node is_matching m node_match node_policy e ignore_list)
  unfolding handle_not_found_node
  handle_not_found_node_lem m node_match node_policy e ignore_list v c b s =
      elim (Bool-cases (e.node.hint == bh_none)) [
        | inr seen ↦ rw seen (m, e, refl, λ r. refl, omega arith, refl)
        | inl unseen ↦
            let kept : is_kept e.node ≡ true =
              is_kept-eq_true e.node
                (no_hint e.node.hint ((==_iff e.node.hint bh_none).0 unseen)) in
            rw unseen (
              ByMatch-Handled m (matches_search_subnodes is_matching e.node.path node_match)
                node_policy e ignore_list v kept c b (s ((==_iff e.node.hint bh_none).0 unseen)))
      ]

  -- Each node that was not visited survives its policy.
  abbrev pub AllSurvive : SearchNodes Regex → BackupPolicy → PathList → Type 0
  AllSurvive node_match node_policy null = Unit
  AllSurvive node_match node_policy (node n subnodes next) =
      (n.hint ≡ bh_none
        → SurvivesMatch (matches_search_subnodes is_matching n.path node_match) node_policy
            (record { node = n; subnodes = subnodes }))
      × AllSurvive node_match node_policy next

  -- Each node of the list has become what `NotFound` says, at the metadata of its turn.
  abbrev pub AllNotFound :
      SearchNodes Regex → BackupPolicy → List Regex → PathList → PathList → Type 0
  AllNotFound node_match node_policy ignore_list null l' = l' ≡ null
  AllNotFound node_match node_policy ignore_list (node n subnodes next) l' =
      (e' : Entry) × (next' : PathList) × (m : Metadata) × (l' ≡ node e'.node e'.subnodes next')
      × NotFound m node_match node_policy (record { node = n; subnodes = subnodes }) ignore_list e'
      × AllNotFound node_match node_policy ignore_list next next'

  -- handleNotFoundSubnodes() has a result for all nodes below a directory, whatever the search tree
  -- and the ignore list are, if the hints exist, the points are counted, there is room for a reference
  -- more for each node, and the history of each node that was not visited survives its new policy. A
  -- node that was visited stays as it is; any other is handled as a removed path under the policy of
  -- the search node that matches it; and where none matches, it is wiped with all that is below it if
  -- the directory has no policy or the path is ignored, and handled as a removed path under the
  -- directory's policy otherwise. Each reference count changes as the points of the nodes change.
  pub handle_not_found_subnodes_lem :
      (l : PathList) (m : Metadata) (node_match : SearchNodes Regex) (node_policy : BackupPolicy)
      (ignore_list : List Regex)
      → IsHinted l
      → Covers m (λ r. count_list r l)
      → refs current m + size_list l < 2 ^ 64
      → AllSurvive node_match node_policy l
      → (m' : Metadata) × (l' : PathList) × (handle_not_found_subnodes is_matching m node_match
            node_policy l ignore_list
          ≡ ok (m', l'))
        × Balanced m (λ r. count_list r l) m' (λ r. count_list r l')
        × (refs current m' ≤ refs current m + size_list l)
        × AllNotFound node_match node_policy ignore_list l l'
  unfolding handle_not_found_subnodes count_entry count_list size_list size_entry
  handle_not_found_subnodes_lem null m node_match node_policy ignore_list h c b s =
      (m, null, refl, λ r. refl, omega arith, refl)
  handle_not_found_subnodes_lem (node n subnodes next) m node_match node_policy ignore_list
        (h, hs, hn) c b (s, ss) =
      let e : Entry = record { node = n; subnodes = subnodes } in
      let (m₁, e₁, eq₁, bal₁, le₁, out₁) =
        handle_not_found_node_lem m node_match node_policy e ignore_list
          (record { hint = h; hints = hs }) (λ r. omega (arith, c r)) (omega arith) s in
      let (m₂, next', eq₂, bal₂, le₂, out₂) =
        handle_not_found_subnodes_lem next m₁ node_match node_policy ignore_list hn
          (λ r. omega (arith, c r, bal₁ r)) (omega arith) ss in
      (
        m₂,
        node e₁.node e₁.subnodes next',
        rw eq₁ (rw eq₂ refl),
        λ r. omega (arith, bal₁ r, bal₂ r),
        omega arith,
        (e₁, next', m, refl, out₁, out₂),
      )
