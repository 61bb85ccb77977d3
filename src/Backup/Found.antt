-- ===== src/Backup/Found.antt =====
-- handleFoundNode() of src/backup.c: what it does to the history of a node.
use nano_backup.Prelude.{
  ◌<◌, ◌≤◌, ◌+◌, ◌≡◌, ◌⊎◌, inl, inr, refl, sym, ap, ◌∙◌, subst, arith, Bool, true, false,
  Bool-cases,
}
use nano_backup.Prelude.{◌∷◌, ◌==◌, ==_iff, ==_false, if◌then◌else◌, ok, >>=-eq-ok, ok_injective}
use nano_backup.Hint.{BackupHint, hint_set, hint_no_pol, bh_none, bh_added, bpol_track, bpol_none}
use nano_backup.Hint.Laws.{hint_limit, hint_set_exclusive, Reports}
use nano_backup.Metadata.{
  PathState, non_existing, type_of, BackupRef, current, Point, Node, Metadata, pst_non_existing,
  pst_regular_file, pst_symlink, pst_directory,
}
use nano_backup.Backup.{Entry, latest, refer_to_current, handle_policy_changes}
use nano_backup.Backup.Counting.{refs, same_ref, refs-refer_to_current}
use nano_backup.Backup.Changes.{
  Files, SearchResult, SearchResultType, srt_regular_file, srt_symlink, srt_directory,
  handle_filetype_changes, handle_node_changes, set_path_history_state,
}
use nano_backup.Backup.Comparison.{Noted, Noted-trans, Noted-map}
use nano_backup.Backup.Detection.{apply_node_changes-eq-ok}
use nano_backup.Backup.Search.{
  found_tracked, found_again, handle_found_node, build_path_history_point,
}

-- An exclusive hint for a change of the file type
Noted-of_type :
    (n : Node) (hint : BackupHint)
    → n.hint < hint_limit
    → 5 ≤ hint
    → hint ≤ 10
    → Noted n (record n { hint = hint_set n.hint hint }) Unit
Noted-of_type n hint h a b =
    let set = hint_set_exclusive n.hint hint h (omega arith) (omega arith) in
    (refl, set.2, inr (omega (arith, set.0), omega (arith, set.0)))

Noted-if :
    {P : Type 0} (n : Node) (t : Bool) {a b : Node}
    → Noted n a P
    → Noted n b P
    → Noted n (if t then a else b) P
Noted-if n true p q = p
Noted-if n false p q = q

pub handle_filetype_changes_lem :
    (n : Node) (type : SearchResultType)
    → n.hint < hint_limit
    → Noted n (handle_filetype_changes n type) Unit
unfolding handle_filetype_changes
handle_filetype_changes_lem n type h =
    let same : Noted n n Unit = (refl, h, inl (refl, tt)) in
    let of_type : (hint : BackupHint)
        → 5 ≤ hint
        → hint ≤ 10
        → Noted n (record n { hint = hint_set n.hint hint }) Unit =
      λ hint a b. Noted-of_type n hint h a b in
    let two : (t u : Bool) (a b : BackupHint)
        → 5 ≤ a
        → a ≤ 10
        → 5 ≤ b
        → b ≤ 10
        → Noted n
            (if t
              then record n { hint = hint_set n.hint a }
              else if u
              then record n { hint = hint_set n.hint b }
              else n)
            Unit =
      λ t u a b p q p' q'. Noted-if n t (of_type a p q) (Noted-if n u (of_type b p' q') same) in
    Noted-if n (type_of (latest n.history) == pst_regular_file)
      (two (type == srt_symlink) (type == srt_directory) 5 6 (omega arith) (omega arith)
        (omega arith) (omega arith))
      (Noted-if n (type_of (latest n.history) == pst_symlink)
        (two (type == srt_regular_file) (type == srt_directory) 7 8 (omega arith) (omega arith)
          (omega arith) (omega arith))
        (Noted-if n (type_of (latest n.history) == pst_directory)
          (two (type == srt_regular_file) (type == srt_symlink) 9 10 (omega arith) (omega arith)
            (omega arith) (omega arith))
          same))

pub handle_node_changes_lem :
    (f : Files) (n n' : Node) (s s' : PathState) (r : SearchResult)
    → n.hint < hint_limit
    → hint_no_pol n.hint ≡ bh_none
    → handle_node_changes f n s r ≡ ok (n', s')
    → Noted n n' (s' ≡ s)
unfolding handle_node_changes
handle_node_changes_lem f n n' s s' r h z e =
    let n₁ = handle_filetype_changes n r.type in
    let one = handle_filetype_changes_lem n r.type h in
    elim (Bool-cases (hint_no_pol n₁.hint == bh_none)) [
      | inl none ↦
          let two = apply_node_changes-eq-ok f n₁ n' s s' r.stats one.1 (rw none at e) in
          Noted-map n n' (λ (a, b). b) (Noted-trans n n₁ n' one two.0)
      | inr changed ↦
          let reports : Reports n₁.hint = elim one.2 [
            | inr reports ↦ reports
            | inl (same, _) ↦ absurd (
                ==_false (hint_no_pol n₁.hint) bh_none changed
                  (ap (λ (n : Node). hint_no_pol n.hint) same ∙ z))
          ] in
          let flagged : Noted n n₁ (s' ≡ s) = (one.0, one.1, inr reports) in
          elim (Bool-cases (r.policy == bpol_none)) [
            | inl none ↦
                subst (λ (x : Node × PathState). Noted n x.0 (s' ≡ s))
                  (ok_injective (rw (changed, none) at e)) flagged
            | inr other ↦
                let (state, _, e') =
                  >>=-eq-ok (set_path_history_state f s r) _ (rw (changed, other) at e) in
                subst (λ (x : Node × PathState). Noted n x.0 (s' ≡ s)) (ok_injective e') flagged
          ]
    ]

-- Metadata and entry after a tracked path was found: nothing has changed, or one point is new, it
-- stands in front of all that were there, belongs to the current backup and is counted, and the hint
-- reports it.
abbrev pub Tracked : Metadata → Entry → Metadata → Entry → Type 0
Tracked m e m' e' =
    ((m' ≡ m) × (e' ≡ e))
    ⊎ ((state : PathState) × (e'.node.history
          ≡ (record { backup = current; state = state }) ∷ e.node.history)
        × (e'.node.policy ≡ e.node.policy)
        × (e'.node.path ≡ e.node.path)
        × (e'.subnodes ≡ e.subnodes)
        × Reports e'.node.hint
        × ((q : BackupRef) → refs q m' ≡ refs q m + same_ref q current))

pub found_tracked_lem :
    (f : Files) (m m' : Metadata) (e e' : Entry) (r : SearchResult)
    → e.node.hint < hint_limit
    → hint_no_pol e.node.hint ≡ bh_none
    → found_tracked f m e r ≡ ok (m', e')
    → Tracked m e m' e'
unfolding found_tracked
found_tracked_lem f m m' e e' r h z w =
    let ((n, state), read, w₁) =
      >>=-eq-ok (handle_node_changes f e.node (latest e.node.history) r) _ w in
    let (same, _, noted) =
      handle_node_changes_lem f e.node n (latest e.node.history) state r h z read in
    elim (Bool-cases (hint_no_pol n.hint == bh_none)) [
      | inl none ↦
          let unchanged : n ≡ e.node = elim noted [
            | inl (q, _) ↦ q
            | inr (q, _) ↦ absurd (q ((==_iff (hint_no_pol n.hint) bh_none).0 none))
          ] in
          let result = ok_injective (rw none at w₁) in
          inl (
            ap (λ (x : Metadata × Entry). x.0) (sym result),
            ap (λ (x : Metadata × Entry). x.1) (sym result)
                ∙ ap (λ (n : Node). record e { node = n }) unchanged,
          )
      | inr changed ↦
          let reports : Reports n.hint = elim noted [
            | inl (q, _) ↦ absurd (
                ==_false (hint_no_pol n.hint) bh_none changed
                  (ap (λ (n : Node). hint_no_pol n.hint) q ∙ z))
            | inr q ↦ q
          ] in
          let (m₁, counted, w₂) = >>=-eq-ok (refer_to_current m) _ (rw changed at w₁) in
          subst (λ (x : Metadata × Entry). Tracked m e x.0 x.1) (ok_injective w₂)
            (inr (
              state,
              ap (λ (n : Node). (record { backup = current; state = state }) ∷ n.history) same,
              ap (λ (n : Node). n.policy) same,
              ap (λ (n : Node). n.path) same,
              refl,
              reports,
              λ q. refs-refer_to_current q m m₁ counted,
            ))
    ]

build_path_history_point_lem :
    (f : Files) (m m' : Metadata) (point : Point) (r : SearchResult)
    → build_path_history_point f m r ≡ ok (m', point)
    → (point.backup ≡ current) × ((q : BackupRef) → refs q m' ≡ refs q m + same_ref q current)
unfolding build_path_history_point
build_path_history_point_lem f m m' point r e =
    let (m₁, counted, e₁) = >>=-eq-ok (refer_to_current m) _ e in
    let (state, _, e₂) = >>=-eq-ok (set_path_history_state f non_existing r) _ e₁ in
    let result = ok_injective e₂ in
    (
      ap (λ (x : Metadata × Point). x.1.backup) (sym result),
      λ q.
          ap (λ (x : Metadata × Point). refs q x.0) (sym result)
          ∙ refs-refer_to_current q m m₁ counted,
    )

pub found_again_lem :
    (f : Files) (m m' : Metadata) (e e' : Entry) (r : SearchResult)
    → e.node.hint < hint_limit
    → found_again f m e r ≡ ok (m', e')
    → Tracked m e m' e'
unfolding found_again
found_again_lem f m m' e e' r h w =
    let ((m₁, point), built, w₁) = >>=-eq-ok (build_path_history_point f m r) _ w in
    let new = build_path_history_point_lem f m m₁ point r built in
    let set = hint_set_exclusive e.node.hint bh_added h (omega arith) (omega arith) in
    subst (λ (x : Metadata × Entry). Tracked m e x.0 x.1) (ok_injective w₁)
      (inr (
        point.state,
        ap (λ b. (record { backup = b; state = point.state }) ∷ e.node.history) new.0,
        refl,
        refl,
        refl,
        (omega (arith, set.0), omega (arith, set.0)),
        new.1,
      ))

-- A path that is tracked, was tracked before and was not visited yet never loses a point of its
-- history: when handleFoundNode() has a result, nothing has changed, or one point of the current backup is new in
-- front of the history.
pub handle_found_node-Tracked :
    (f : Files) (m m' : Metadata) (e e' : Entry) (r : SearchResult)
    → e.node.hint < hint_limit
    → hint_no_pol e.node.hint ≡ bh_none
    → e.node.policy ≡ bpol_track
    → r.policy ≡ bpol_track
    → handle_found_node f m e r ≡ ok (m', e')
    → Tracked m e m' e'
unfolding handle_found_node handle_policy_changes
handle_found_node-Tracked f m m' e e' r h z p p' w =
    let unchanged : (e.node.policy == r.policy) ≡ true =
      (==_iff e.node.policy r.policy).1 (p ∙ sym p') in
    let tracked : (r.policy == bpol_track) ≡ true = (==_iff r.policy bpol_track).1 p' in
    elim (Bool-cases (type_of (latest e.node.history) == pst_non_existing)) [
      | inr there ↦ found_tracked_lem f m m' e e' r h z (rw (unchanged, tracked, there) at w)
      | inl removed ↦ found_again_lem f m m' e e' r h (rw (unchanged, tracked, removed) at w)
    ]
