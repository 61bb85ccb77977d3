-- ===== src/Backup/Comparison.antt =====
-- The comparisons of applyNodeChanges() of src/backup-helpers.c, one by one.
use nano_backup.Prelude.{ℕ, ◌<◌, ◌≡◌, ◌⊎◌, inl, inr, refl, sym, ap, ◌∙◌, arith, not, Bool-cases}
use nano_backup.Prelude.{
  ◌==◌, ==_iff, ◌&&◌, ◌||◌, bytes_eq, ltb, if◌then◌else◌, ok, >>=-eq-ok, ok_injective, subst, take,
}
use Prim.Native.Nat.{bit_and}
use nano_backup.Hint.{hint_set, bh_timestamp_changed, bh_content_changed}
use nano_backup.Hint.Laws.{hint_limit, hint_set_reported, Reports}
use nano_backup.Metadata.{RegularFileInfo, Node, file_hash_size}
use nano_backup.Backup.Changes.{
  Files, Stats, owner_changes, permission_changes, timestamp_changes, content_changes,
  check_file_content_changes, read_content,
}

-- Of a node only the hint was changed, and it reports that something has changed, or nothing has,
-- and `Same` holds.
abbrev pub Noted : Node → Node → Type 0 → Type 0
Noted n n' Same =
    (n' ≡ record n { hint = n'.hint })
    × (n'.hint < hint_limit)
    × (((n' ≡ n) × Same) ⊎ Reports n'.hint)

-- One change after another
pub Noted-trans :
    {P Q : Type 0} (n₁ n₂ n₃ : Node) → Noted n₁ n₂ P → Noted n₂ n₃ Q → Noted n₁ n₃ (P × Q)
Noted-trans n₁ n₂ n₃ (e₁, h₁, p) (e₂, h₂, q) = (
  e₂ ∙ ap (λ (n : Node). record n { hint = n₃.hint }) e₁,
  h₂,
  elim q [
    | inr changed ↦ inr changed
    | inl (e, b) ↦ elim p [
      | inl (e', a) ↦ inl (e ∙ e', (a, b))
      | inr changed ↦ inr (subst (λ (n : Node). Reports n.hint) (sym e) changed)
    ]
  ],
)

pub Noted-map : {P Q : Type 0} (n n' : Node) → (P → Q) → Noted n n' P → Noted n n' Q
Noted-map n n' f (e, h, p) =
    (e, h, elim p [ inl (same, a) ↦ inl (same, f a) | inr changed ↦ inr changed ])

pub owner_changes_lem :
    (n : Node) (uid gid : ℕ) (stats : Stats)
    → n.hint < hint_limit
    → let (n', uid', gid') = owner_changes n uid gid stats in
      Noted n n' ((uid' ≡ uid) × (gid' ≡ gid)) × (uid' ≡ stats.st_uid) × (gid' ≡ stats.st_gid)
unfolding owner_changes
owner_changes_lem n uid gid stats h =
    elim (Bool-cases (not (uid == stats.st_uid) || not (gid == stats.st_gid))) [
      | inl differs ↦
          let set = hint_set_reported n.hint 0 h (omega arith) in
          rw differs ((refl, set.1, inr set.0), refl, refl)
      | inr same ↦ rw same ((refl, h, inl (refl, (refl, refl))), ground arith, ground arith)
    ]

pub permission_changes_lem :
    (n : Node) (permission_bits : ℕ) (stats : Stats)
    → n.hint < hint_limit
    → let (n', permission_bits') = permission_changes n permission_bits stats in
      Noted n n' (permission_bits' ≡ permission_bits) × (permission_bits' ≡ stats.st_mode)
unfolding permission_changes
permission_changes_lem n permission_bits stats h =
    elim (Bool-cases (permission_bits == stats.st_mode)) [
      | inr differs ↦
          let set = hint_set_reported n.hint 1 h (omega arith) in
          rw differs ((refl, set.1, inr set.0), refl)
      | inl same ↦ rw same ((refl, h, inl (refl, refl)), ground arith)
    ]

pub timestamp_changes_lem :
    (n : Node) (modification_time : ℕ) (stats : Stats)
    → n.hint < hint_limit
    → let (n', modification_time') = timestamp_changes n modification_time stats in
      Noted n n' (modification_time' ≡ modification_time) × (modification_time' ≡ stats.st_mtime)
unfolding timestamp_changes
timestamp_changes_lem n modification_time stats h =
    elim (Bool-cases (modification_time == stats.st_mtime)) [
      | inr differs ↦
          let set = hint_set_reported n.hint 2 h (omega arith) in
          rw differs ((refl, set.1, inr set.0), refl)
      | inl same ↦ rw same ((refl, h, inl (refl, refl)), ground arith)
    ]

-- The result of a comparison of contents
abbrev Compared : Node → RegularFileInfo → Node → RegularFileInfo → Type 0
Compared n info n' info' =
    Noted n n' (info' ≡ info)
    × (info'.size ≡ info.size)
    × (info'.permission_bits ≡ info.permission_bits)
    × (info'.modification_time ≡ info.modification_time)

check_file_content_changes_lem :
    (f : Files) (n n' : Node) (info info' : RegularFileInfo) (stats : Stats)
    → n.hint < hint_limit
    → check_file_content_changes f n info stats ≡ ok (n', info')
    → Compared n info n' info'
unfolding check_file_content_changes
check_file_content_changes_lem f n n' info info' stats h e =
    let bytes_used = if ltb file_hash_size info.size then file_hash_size else info.size in
    let (hash, _, e') = >>=-eq-ok (read_content f n info stats) _ e in
    elim (Bool-cases (bytes_eq (take bytes_used info.hash) (take bytes_used hash))) [
      | inl same ↦
          subst (λ (r : Node × RegularFileInfo). Compared n info r.0 r.1)
            (ok_injective (rw same at e')) ((refl, h, inl (refl, refl)), refl, refl, refl)
      | inr differs ↦
          let set = hint_set_reported n.hint 3 h (omega arith) in
          let set' = hint_set_reported (hint_set n.hint bh_content_changed) 4 set.1 (omega arith) in
          subst (λ (r : Node × RegularFileInfo). Compared n info r.0 r.1)
            (ok_injective (rw differs at e')) ((refl, set'.1, inr set'.0), refl, refl, refl)
    ]

abbrev pub Sized : Node → RegularFileInfo → Stats → Node → RegularFileInfo → Type 0
Sized n info stats n' info' =
    Noted n n' (info' ≡ info)
    × (info'.size ≡ stats.st_size)
    × (info'.permission_bits ≡ info.permission_bits)
    × (info'.modification_time ≡ info.modification_time)

pub content_changes_lem :
    (f : Files) (n n' : Node) (info info' : RegularFileInfo) (stats : Stats)
    → n.hint < hint_limit
    → content_changes f n info stats ≡ ok (n', info')
    → Sized n info stats n' info'
unfolding content_changes
content_changes_lem f n n' info info' stats h e = elim (Bool-cases (info.size == stats.st_size)) [
  | inr differs ↦
      let set = hint_set_reported n.hint 3 h (omega arith) in
      subst (λ (r : Node × RegularFileInfo). Sized n info stats r.0 r.1)
        (ok_injective (rw differs at e)) ((refl, set.1, inr set.0), refl, refl, refl)
  | inl same ↦
      let size = (==_iff info.size stats.st_size).0 same in
      elim (Bool-cases (not (bit_and n.hint bh_timestamp_changed == 0) && ltb 0 info.size)) [
        | inr skip ↦
            subst (λ (r : Node × RegularFileInfo). Sized n info stats r.0 r.1)
              (ok_injective (rw (same, skip) at e)) ((refl, h, inl (refl, refl)), size, refl, refl)
        | inl check ↦
            let compared =
              check_file_content_changes_lem f n n' info info' stats h (rw (same, check) at e) in
            (compared.0, compared.1 ∙ size, compared.2, compared.3)
      ]
]
