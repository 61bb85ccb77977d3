-- ===== src/Backup/Detection.antt =====
-- applyNodeChanges() of src/backup-helpers.c: what it finds and what it reports.
use nano_backup.Prelude.{ℕ, ◌<◌, ◌≡◌, inl, inr, refl, sym, ap, ◌∙◌, arith, Bool-cases}
use nano_backup.Prelude.{
  ◌==◌, ==_iff, ==_refl, bytes_eq_refl, bytes_eq, eq_of_bytes_eq, length, ok, >>=-eq-ok,
  ok_injective, die_not_ok, subst,
}
use Prim.Native.Nat.{bit_and}
use nano_backup.Str.{Bytes}
use nano_backup.Hint.{hint_set, bh_timestamp_changed, bh_content_changed}
use nano_backup.Hint.Laws.{hint_limit, hint_set_reported}
use nano_backup.Metadata.{
  PathState, non_existing, regular_file, symlink, directory, RegularFileInfo, DirectoryInfo, Node,
  type_of,
}
use nano_backup.Backup.Changes.{
  Files, Stats, owner_changes, permission_changes, timestamp_changes, content_changes,
  checked_target, apply_node_changes,
}
use nano_backup.Backup.Comparison.{
  Noted, Noted-trans, Noted-map, owner_changes_lem, permission_changes_lem, timestamp_changes_lem,
  content_changes_lem,
}

-- The state has the properties that the stats show.
abbrev pub Describes : PathState → Stats → Type 0
Describes non_existing stats = Unit
Describes (regular_file uid gid info) stats =
    (uid ≡ stats.st_uid)
    × (gid ≡ stats.st_gid)
    × (info.permission_bits ≡ stats.st_mode)
    × (info.modification_time ≡ stats.st_mtime)
    × (info.size ≡ stats.st_size)
Describes (symlink uid gid target) stats =
    (uid ≡ stats.st_uid) × (gid ≡ stats.st_gid) × (length target ≡ stats.st_size)
Describes (directory uid gid info) stats =
    (uid ≡ stats.st_uid)
    × (gid ≡ stats.st_gid)
    × (info.permission_bits ≡ stats.st_mode)
    × (info.modification_time ≡ stats.st_mtime)

abbrev Applied : Node → PathState → Stats → Node × PathState → Type 0
Applied n s stats (n', s') = Noted n n' (s' ≡ s) × Describes s' stats × (type_of s' ≡ type_of s)

directory_eq :
    (uid uid' gid gid' : ℕ) (info : DirectoryInfo) (p m : ℕ)
    → uid' ≡ uid
    → gid' ≡ gid
    → p ≡ info.permission_bits
    → m ≡ info.modification_time
    → directory uid' gid' (record { permission_bits = p; modification_time = m })
      ≡ directory uid gid info
directory_eq uid uid' gid gid' info p m a b c d = rw (a, b, c, d) refl

regular_file_eq :
    (uid uid' gid gid' : ℕ) (info info' : RegularFileInfo) (p m : ℕ)
    → uid' ≡ uid
    → gid' ≡ gid
    → p ≡ info.permission_bits
    → m ≡ info.modification_time
    → info' ≡ record info { permission_bits = p; modification_time = m }
    → regular_file uid' gid' info' ≡ regular_file uid gid info
regular_file_eq uid uid' gid gid' info info' p m a b c d e = rw (a, b, e, c, d) refl

checked_target_lem :
    (f : Files) (path target : Bytes) (stats : Stats)
    → checked_target f path stats ≡ ok target
    → length target ≡ stats.st_size
unfolding checked_target
checked_target_lem f path target stats e =
    let (found, _, e') = >>=-eq-ok (f.read_target path) _ e in
    elim (Bool-cases (length found == stats.st_size)) [
      | inl same ↦
          subst (λ t. length t ≡ stats.st_size) (ok_injective (rw same at e'))
            ((==_iff (length found) stats.st_size).0 same)
      | inr differs ↦ absurd (die_not_ok (rw differs at e'))
    ]

-- When applyNodeChanges() has a result for a node whose hint exists, the state describes the file that was found and has the type
-- it had; of the node only the hint was changed; and either node and state are as they were, or the
-- hint reports a change.
pub apply_node_changes-eq-ok :
    (f : Files) (n n' : Node) (s s' : PathState) (stats : Stats)
    → n.hint < hint_limit
    → apply_node_changes f n s stats ≡ ok (n', s')
    → Noted n n' (s' ≡ s) × Describes s' stats × (type_of s' ≡ type_of s)
unfolding apply_node_changes
apply_node_changes-eq-ok f n n' non_existing s' stats h e =
    subst (Applied n non_existing stats) (ok_injective e) ((refl, h, inl (refl, refl)), tt, refl)
apply_node_changes-eq-ok f n n' (directory uid gid info) s' stats h e =
    let (n₁, uid', gid') = owner_changes n uid gid stats in
    let (n₂, permission_bits) = permission_changes n₁ info.permission_bits stats in
    let (n₃, modification_time) = timestamp_changes n₂ info.modification_time stats in
    let one = owner_changes_lem n uid gid stats h in
    let two = permission_changes_lem n₁ info.permission_bits stats one.0.1 in
    let three = timestamp_changes_lem n₂ info.modification_time stats two.0.1 in
    let noted = Noted-trans n n₂ n₃ (Noted-trans n n₁ n₂ one.0 two.0) three.0 in
    subst (Applied n (directory uid gid info) stats) (ok_injective e) (
      Noted-map n n₃
          (λ (((a, b), c), d).
            directory_eq uid uid' gid gid' info permission_bits modification_time a b c d)
          noted,
      (one.1, one.2, two.1, three.1),
      refl,
    )
apply_node_changes-eq-ok f n n' (symlink uid gid target) s' stats h e =
    let (n₁, uid', gid') = owner_changes n uid gid stats in
    let one = owner_changes_lem n uid gid stats h in
    let (found, read, e') = >>=-eq-ok (checked_target f n.path stats) _ e in
    let size : length found ≡ stats.st_size = checked_target_lem f n.path found stats read in
    elim (Bool-cases (bytes_eq target found)) [
      | inl same ↦
          let equal : target ≡ found = eq_of_bytes_eq target found same in
          subst (Applied n (symlink uid gid target) stats) (ok_injective (rw same at e')) (
            Noted-map n n₁ (λ (a, b). rw (a, b) refl) one.0,
            (one.1, one.2, ap (λ t. length t) equal ∙ size),
            refl,
          )
      | inr differs ↦
          let set = hint_set_reported n₁.hint 3 one.0.1 (omega arith) in
          let n₂ : Node = record n₁ { hint = hint_set n₁.hint bh_content_changed } in
          let noted : Noted n₁ n₂ (symlink uid' gid' found ≡ symlink uid gid target) =
            (refl, set.1, inr set.0) in
          subst (Applied n (symlink uid gid target) stats) (ok_injective (rw differs at e')) (
            Noted-map n n₂ (λ (a, b). b) (Noted-trans n n₁ n₂ one.0 noted),
            (one.1, one.2, size),
            refl,
          )
    ]
apply_node_changes-eq-ok f n n' (regular_file uid gid info) s' stats h e =
    let (n₁, uid', gid') = owner_changes n uid gid stats in
    let (n₂, permission_bits) = permission_changes n₁ info.permission_bits stats in
    let (n₃, modification_time) = timestamp_changes n₂ info.modification_time stats in
    let one = owner_changes_lem n uid gid stats h in
    let two = permission_changes_lem n₁ info.permission_bits stats one.0.1 in
    let three = timestamp_changes_lem n₂ info.modification_time stats two.0.1 in
    let info₁ : RegularFileInfo = record info {
      permission_bits = permission_bits;
      modification_time = modification_time;
    } in
    let ((n₄, info₂), read, e') = >>=-eq-ok (content_changes f n₃ info₁ stats) _ e in
    let four = content_changes_lem f n₃ n₄ info₁ info₂ stats three.0.1 read in
    let noted =
      Noted-trans n n₃ n₄ (Noted-trans n n₂ n₃ (Noted-trans n n₁ n₂ one.0 two.0) three.0) four.0 in
    subst (Applied n (regular_file uid gid info) stats) (ok_injective e') (
      Noted-map n n₄
          (λ ((((a, b), c), d), x).
            regular_file_eq uid uid' gid gid' info info₂ permission_bits modification_time a b c d
              x)
          noted,
      (one.1, one.2, four.2 ∙ two.1, four.3 ∙ three.1, four.1),
      refl,
    )

-- A symlink still has the target of the state.
abbrev pub KeepsTarget : Files → Bytes → PathState → Type 0
KeepsTarget f path (symlink uid gid target) = f.read_target path ≡ ok target
KeepsTarget f path _ = Unit

-- Nothing is reported of a file that is as it was: when the stats are those of the state, no
-- timestamp flag is set and a symlink still has its target, node and state stay as they are. No
-- content is read.
pub apply_node_changes_unchanged :
    (f : Files) (n : Node) (s : PathState) (stats : Stats)
    → Describes s stats
    → bit_and n.hint bh_timestamp_changed ≡ 0
    → KeepsTarget f n.path s
    → apply_node_changes f n s stats ≡ ok (n, s)
unfolding apply_node_changes owner_changes permission_changes timestamp_changes content_changes
    checked_target
apply_node_changes_unchanged f n non_existing stats d h t = refl
apply_node_changes_unchanged f n (regular_file uid gid info) stats (a, b, c, d, e) h t =
    rw
      (
        sym a,
        sym b,
        sym c,
        sym d,
        sym e,
        ==_refl uid,
        ==_refl gid,
        ==_refl info.permission_bits,
        ==_refl info.modification_time,
        ==_refl info.size,
        h,
      )
      refl
apply_node_changes_unchanged f n (symlink uid gid target) stats (a, b, c) h t =
    rw
      (
        t,
        sym a,
        sym b,
        sym c,
        ==_refl uid,
        ==_refl gid,
        ==_refl (length target),
        bytes_eq_refl target,
      )
      refl
apply_node_changes_unchanged f n (directory uid gid info) stats (a, b, c, d) h t =
    rw
      (
        sym a,
        sym b,
        sym c,
        sym d,
        ==_refl uid,
        ==_refl gid,
        ==_refl info.permission_bits,
        ==_refl info.modification_time,
      )
      refl
