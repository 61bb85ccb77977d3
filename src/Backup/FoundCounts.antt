-- ===== src/Backup/FoundCounts.antt =====
-- handleFoundNode() of src/backup.c: what it does to the reference counts.
use nano_backup.Prelude.{
  ◌<◌, ◌≤◌, ◌+◌, ◌≡◌, inl, inr, refl, ap, ◌∙◌, subst, arith, true, not, Bool-cases,
}
use nano_backup.Prelude.{[], ◌∷◌, ◌==◌, ◌||◌, ok, >>=-eq-ok, ok_injective, die_not_ok}
use nano_backup.Hint.{hint_no_pol, bh_none, bpol_track, bpol_none}
use nano_backup.Hint.Laws.{hint_limit}
use nano_backup.Metadata.{type_of, current, Point, PathHistory, Node, Metadata, pst_non_existing}
use nano_backup.Metadata.Codec.{is_kept}
use nano_backup.Backup.{Entry, latest, refer_to_current, drop_reference}
use nano_backup.Backup.Changed.{Survives, handle_policy_changes-eq-ok, changed_policy}
use nano_backup.Backup.Counting.{
  refs, same_ref, same_ref_self, count_history, count_node, count_list, count_entry, Covers,
  Balanced, refs-refer_to_current, refs-drop_reference,
}
use nano_backup.Backup.Wiping.{is_kept-eq_true}
use nano_backup.Backup.Removal.{IsEntry}
use nano_backup.Backup.Policies.{changed_policy_lem}
use nano_backup.Backup.Changes.{Files, SearchResult, handle_node_changes}
use nano_backup.Backup.Comparison.{Noted}
use nano_backup.Backup.Search.{found_untracked, handle_found_node, reassign_point_to_current}
use nano_backup.Backup.Found.{Tracked, handle_node_changes_lem, found_tracked_lem, found_again_lem}

reassign_point_to_current_lem :
    (m m' : Metadata) (point point' : Point) (rest : PathHistory)
    → Covers m (λ q. count_history q (point ∷ rest))
    → reassign_point_to_current m point ≡ ok (m', point')
    → Balanced m (λ q. count_history q (point ∷ rest)) m' (λ q. count_history q (point' ∷ rest))
unfolding reassign_point_to_current count_history
reassign_point_to_current_lem m m' point point' rest c e q =
    let dropped = drop_reference m point.backup in
    let (m₁, counted, e₁) = >>=-eq-ok (refer_to_current dropped) _ e in
    let result = ok_injective e₁ in
    let positive : 0 < refs point.backup m =
      omega (arith, c point.backup, same_ref_self point.backup) in
    let same : same_ref q current ≡ same_ref q point'.backup =
      ap (λ (x : Metadata × Point). same_ref q x.1.backup) result in
    let counts : refs q m₁ ≡ refs q m' = ap (λ (x : Metadata × Point). refs q x.0) result in
    omega (
      arith,
      same,
      counts,
      refs-drop_reference q point.backup m positive,
      refs-refer_to_current q dropped m₁ counted,
    )

-- A node that is not reported as wiped is part of the repository.
pub kept_of_none : (n : Node) → hint_no_pol n.hint ≡ bh_none → is_kept n ≡ true
kept_of_none n z = is_kept-eq_true n (λ q. absurd (omega (arith, z, q)))

kept_of_Noted :
    {P : Type 0} (n n' : Node) → hint_no_pol n.hint ≡ bh_none → Noted n n' P → is_kept n' ≡ true
kept_of_Noted n n' z (_, _, p) = elim p [
  | inl (same, _) ↦ kept_of_none n' (ap (λ (n : Node). hint_no_pol n.hint) same ∙ z)
  | inr reports ↦ is_kept-eq_true n' reports.1
]

abbrev Counted : Metadata → Entry → Metadata → Entry → Type 0
Counted m e m' e' = Balanced m (λ q. count_entry q e) m' (λ q. count_entry q e')

-- An entry that has another node of the repository, whose history balances
Counted-of_history :
    (m m' : Metadata) (e : Entry) (n : Node) (history : PathHistory)
    → e.node.history ≡ history
    → is_kept e.node ≡ true
    → is_kept n ≡ true
    → Balanced m (λ q. count_history q history) m' (λ q. count_history q n.history)
    → Counted m e m' (record e { node = n })
unfolding count_entry count_node
Counted-of_history m m' e n history eq k k' b q =
    rw (k, k') (omega (arith, b q, ap (λ h. count_history q h) eq))

found_untracked_lem :
    (f : Files) (m m' : Metadata) (e e' : Entry) (history : PathHistory) (r : SearchResult)
    → e.node.history ≡ history
    → e.node.hint < hint_limit
    → hint_no_pol e.node.hint ≡ bh_none
    → Covers m (λ q. count_history q history)
    → found_untracked f m e history r ≡ ok (m', e')
    → Counted m e m' e'
unfolding found_untracked count_history is_kept hint_no_pol
found_untracked_lem f m m' e e' [] r eq h z c w = absurd (die_not_ok w)
found_untracked_lem f m m' e e' (point ∷ rest) r eq h z c w =
    let ((n, state), read, w₁) = >>=-eq-ok (handle_node_changes f e.node point.state r) _ w in
    let noted = handle_node_changes_lem f e.node n point.state state r h z read in
    let point₁ : Point = record point { state = state } in
    let kept : is_kept e.node ≡ true = kept_of_none e.node z in
    let kept' : is_kept n ≡ true = kept_of_Noted e.node n z noted in
    elim (Bool-cases (not (hint_no_pol n.hint == bh_none) || r.policy == bpol_none)) [
      | inl changed ↦
          let ((m₁, point₂), assigned, w₂) =
            >>=-eq-ok (reassign_point_to_current m point₁) _ (rw changed at w₁) in
          let bal = reassign_point_to_current_lem m m₁ point₁ point₂ rest c assigned in
          subst (λ (x : Metadata × Entry). Counted m e x.0 x.1) (ok_injective w₂)
            (Counted-of_history m m₁ e (record n { history = point₂ ∷ rest }) (point ∷ rest) eq kept
              kept' bal)
      | inr same ↦
          subst (λ (x : Metadata × Entry). Counted m e x.0 x.1) (ok_injective (rw same at w₁))
            (Counted-of_history m m e (record n { history = point₁ ∷ rest }) (point ∷ rest) eq kept
              kept' (λ q. refl))
    ]

pub Covers-history :
    (m : Metadata) (e : Entry)
    → hint_no_pol e.node.hint ≡ bh_none
    → Covers m (λ q. count_entry q e)
    → Covers m (λ q. count_history q e.node.history)
unfolding count_entry count_node
Covers-history m e z c q =
    let covered : count_history q e.node.history + count_list q e.subnodes ≤ refs q m =
      rw (kept_of_none e.node z) at (c q) in
    omega (arith, covered)

Counted-of_Tracked :
    (m m' : Metadata) (e e' : Entry)
    → hint_no_pol e.node.hint ≡ bh_none
    → Tracked m e m' e'
    → Counted m e m' e'
unfolding count_entry count_node count_history
Counted-of_Tracked m m' e e' z (inl (a, b)) q = rw (a, b) refl
Counted-of_Tracked m m' e e' z (inr (state, h, _, _, s, reports, counts)) q =
    rw (kept_of_none e.node z, is_kept-eq_true e'.node reports.1, h, s) (omega (arith, counts q))

-- When handleFoundNode() has a result for a node that was not visited before, whose hints exist and
-- whose points are counted, it has changed each reference count as the points of the node changed,
-- under every policy.
pub handle_found_node-Balanced :
    (f : Files) (m m' : Metadata) (e e' : Entry) (r : SearchResult)
    → IsEntry e
    → hint_no_pol e.node.hint ≡ bh_none
    → Covers m (λ q. count_entry q e)
    → Survives e.node r.policy
    → handle_found_node f m e r ≡ ok (m', e')
    → Balanced m (λ q. count_entry q e) m' (λ q. count_entry q e')
unfolding handle_found_node
handle_found_node-Balanced f m m' e e' r v z c s w₀ =
    let (eq, _) = handle_policy_changes-eq-ok m e r.policy s in
    let w = rw eq at w₀ in
    let (m₁, e₁) = changed_policy m e r.policy in
    let (bal, less, v₁, _, _, _, none) =
      changed_policy_lem m e r.policy v (kept_of_none e.node z) c in
    let z₁ : hint_no_pol e₁.node.hint ≡ bh_none = none ∙ z in
    let covered : Covers m₁ (λ q. count_entry q e₁) = λ q. omega (arith, c q, bal q, less q) in
    elim (Bool-cases (r.policy == bpol_track)) [
      | inr other ↦
          let counted =
            found_untracked_lem f m₁ m' e₁ e' e₁.node.history r refl v₁.hint z₁
              (Covers-history m₁ e₁ z₁ covered) (rw other at w) in
          (λ q. omega (arith, bal q, counted q))
      | inl tracked ↦
          let counted : Counted m₁ e₁ m' e' =
            Counted-of_Tracked m₁ m' e₁ e' z₁
              (elim (Bool-cases (type_of (latest e₁.node.history) == pst_non_existing)) [
                | inl removed ↦ found_again_lem f m₁ m' e₁ e' r v₁.hint (rw (tracked, removed) at w)
                | inr there ↦
                    found_tracked_lem f m₁ m' e₁ e' r v₁.hint z₁ (rw (tracked, there) at w)
              ]) in
          (λ q. omega (arith, bal q, counted q))
    ]
