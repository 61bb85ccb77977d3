-- ===== src/Backup/Readable.antt =====
-- The comparison of a node with a file in src/backup.c and src/backup-helpers.c always has a result
-- when the file can be read.
use nano_backup.Prelude.{
  ℕ, ◌<◌, ◌≤◌, ◌≡◌, refl, sym, ap, ◌∙◌, subst, arith, true, false, not, ◌&&◌, Bool-cases, ◌⊎◌, inl,
  inr, ltb, ◌==◌, ==_iff, bytes_eq, take, length, if◌then◌else◌, Result, ok,
}
use Prim.Native.Nat.{bit_and}
use nano_backup.Str.{Bytes}
use nano_backup.Hint.{hint_no_pol, hint_set, bh_none, bh_timestamp_changed, bpol_none}
use nano_backup.Hint.Laws.{hint_limit, hint_set_exclusive}
use nano_backup.Metadata.{
  PathState, non_existing, regular_file, symlink, directory, RegularFileInfo, Node, file_hash_size,
  type_of,
}
use nano_backup.Backup.{latest}
use nano_backup.Backup.Changes.{
  Files, Stats, SearchResult, SearchResultType, srt_regular_file, srt_symlink, srt_directory,
  checked_target, read_content, check_file_content_changes, content_changes, apply_node_changes,
  owner_changes, permission_changes, timestamp_changes, handle_filetype_changes,
  handle_node_changes, set_path_history_state,
}
use nano_backup.Backup.Comparison.{
  Noted, owner_changes_lem, permission_changes_lem, timestamp_changes_lem,
}
use nano_backup.Backup.Detection.{Describes, apply_node_changes-eq-ok}
use nano_backup.Backup.Found.{handle_filetype_changes_lem}

abbrev pub IsFileType : SearchResultType → Type 0
IsFileType type = (type ≡ srt_regular_file) ⊎ (type ≡ srt_symlink) ⊎ (type ≡ srt_directory)

-- A symlink can be read and is as long as its stats say; a regular file can be read, and has no more
-- bytes than its stats say.
pub record CanRead (f : Files) (path : Bytes) (type : SearchResultType) (stats : Stats)
    : Type 0 where
  pub target :
      type ≡ srt_symlink → (t : Bytes) × (f.read_target path ≡ ok t) × (length t ≡ stats.st_size)
  pub hash : type ≡ srt_regular_file → (h : Bytes) × (f.file_hash path stats ≡ ok h)
  pub start :
      type ≡ srt_regular_file → (c : Bytes) × (f.read_start path stats.st_size ≡ ok (c, false))

abbrev pub HasValue {ℓ} : {A : Type ℓ} → Result A → Type ℓ
HasValue {A = A} result = (value : A) × (result ≡ ok value)

checked_target-HasValue :
    (f : Files) (path : Bytes) (stats : Stats)
    → CanRead f path srt_symlink stats
    → HasValue (checked_target f path stats)
unfolding checked_target
checked_target-HasValue f path stats c =
    let (t, e, l) = c.target refl in
    let same : (length t == stats.st_size) ≡ true = (==_iff (length t) stats.st_size).1 l in
    (t, rw (e, same) refl)

pub set_path_history_state-HasValue :
    (f : Files) (s : PathState) (r : SearchResult)
    → CanRead f r.path r.type r.stats
    → HasValue (set_path_history_state f s r)
unfolding set_path_history_state
set_path_history_state-HasValue f s r c = elim (Bool-cases (r.type == srt_regular_file)) [
  | inl regular ↦ rw regular (_, refl)
  | inr a ↦ elim (Bool-cases (r.type == srt_symlink)) [
    | inl link ↦
        let type : r.type ≡ srt_symlink = (==_iff r.type srt_symlink).0 link in
        let (t, e) =
          checked_target-HasValue f r.path r.stats
            (subst (λ x. CanRead f r.path x r.stats) type c) in
        rw (a, link, e) (_, refl)
    | inr b ↦ elim (Bool-cases (r.type == srt_directory)) [
      | inl d ↦ rw (a, b, d) (_, refl)
      | inr d ↦ rw (a, b, d) (_, refl)
    ]
  ]
]

read_content-HasValue :
    (f : Files) (n : Node) (info : RegularFileInfo) (stats : Stats)
    → CanRead f n.path srt_regular_file stats
    → info.size ≡ stats.st_size
    → HasValue (read_content f n info stats)
unfolding read_content
read_content-HasValue f n info stats c size = elim (Bool-cases (ltb file_hash_size info.size)) [
  | inl large ↦ let (h, e) = c.hash refl in (h, rw (large, e) refl)
  | inr small ↦ let (b, e) = c.start refl in (b, rw (small, size, e) refl)
]

check_file_content_changes-HasValue :
    (f : Files) (n : Node) (info : RegularFileInfo) (stats : Stats)
    → CanRead f n.path srt_regular_file stats
    → info.size ≡ stats.st_size
    → HasValue (check_file_content_changes f n info stats)
unfolding check_file_content_changes
check_file_content_changes-HasValue f n info stats c size =
    let (hash, e) = read_content-HasValue f n info stats c size in
    let used = if ltb file_hash_size info.size then file_hash_size else info.size in
    elim (Bool-cases (bytes_eq (take used info.hash) (take used hash))) [
      | inl same ↦ rw (e, same) (_, refl)
      | inr other ↦ rw (e, other) (_, refl)
    ]

content_changes-HasValue :
    (f : Files) (n : Node) (info : RegularFileInfo) (stats : Stats)
    → CanRead f n.path srt_regular_file stats
    → HasValue (content_changes f n info stats)
unfolding content_changes
content_changes-HasValue f n info stats c = elim (Bool-cases (info.size == stats.st_size)) [
  | inr other ↦ rw other (_, refl)
  | inl size ↦
      elim (Bool-cases (not (bit_and n.hint bh_timestamp_changed == 0) && ltb 0 info.size)) [
        | inr skip ↦ rw (size, skip) (_, refl)
        | inl read ↦
            let same = (==_iff info.size stats.st_size).0 size in
            let (value, e) = check_file_content_changes-HasValue f n info stats c same in
            (value, rw (size, read) e)
      ]
]

-- The path has the type of the state.
abbrev pub SameType : PathState → SearchResultType → Type 0
SameType non_existing type = Unit
SameType (regular_file uid gid info) type = type ≡ srt_regular_file
SameType (symlink uid gid target) type = type ≡ srt_symlink
SameType (directory uid gid info) type = Unit

Noted-path : {P : Type 0} (n n' : Node) → Noted n n' P → n'.path ≡ n.path
Noted-path n n' h = ap (λ (x : Node). x.path) h.0

pub apply_node_changes-HasValue :
    (f : Files) (n : Node) (s : PathState) (type : SearchResultType) (stats : Stats)
    → n.hint < hint_limit
    → SameType s type
    → CanRead f n.path type stats
    → HasValue (apply_node_changes f n s stats)
unfolding apply_node_changes
apply_node_changes-HasValue f n non_existing type stats h same c = (_, refl)
apply_node_changes-HasValue f n (regular_file uid gid info) type stats h same c =
    let (n₁, uid', gid') = owner_changes n uid gid stats in
    let (n₂, permission_bits) = permission_changes n₁ info.permission_bits stats in
    let (n₃, modification_time) = timestamp_changes n₂ info.modification_time stats in
    let one = owner_changes_lem n uid gid stats h in
    let two = permission_changes_lem n₁ info.permission_bits stats one.0.1 in
    let three = timestamp_changes_lem n₂ info.modification_time stats two.0.1 in
    let path : n₃.path ≡ n.path =
      Noted-path n₂ n₃ three.0 ∙ Noted-path n₁ n₂ two.0 ∙ Noted-path n n₁ one.0 in
    let info' : RegularFileInfo = record info {
      permission_bits = permission_bits;
      modification_time = modification_time;
    } in
    let c' : CanRead f n₃.path srt_regular_file stats =
      subst (λ p. CanRead f p srt_regular_file stats) (sym path)
        (subst (λ t. CanRead f n.path t stats) same c) in
    let (value, e) = content_changes-HasValue f n₃ info' stats c' in rw e (_, refl)
apply_node_changes-HasValue f n (symlink uid gid target) type stats h same c =
    let (found, e) =
      checked_target-HasValue f n.path stats (subst (λ t. CanRead f n.path t stats) same c) in
    elim (Bool-cases (bytes_eq target found)) [
      | inl equal ↦ rw (e, equal) (_, refl)
      | inr differs ↦ rw (e, differs) (_, refl)
    ]
apply_node_changes-HasValue f n (directory uid gid info) type stats h same c = (_, refl)

-- applyNodeChanges() on a file that has the type of its state and can be read has a result: the new
-- state describes the file as its stats do and has the type of the old one, and the node has only
-- another hint, which is as before, with the state as before, or reports a change. The hints exist.
pub apply_node_changes_lem :
    (f : Files) (n : Node) (s : PathState) (type : SearchResultType) (stats : Stats)
    → n.hint < hint_limit
    → SameType s type
    → CanRead f n.path type stats
    → (n' : Node) × (s' : PathState) × (apply_node_changes f n s stats ≡ ok (n', s'))
      × Noted n n' (s' ≡ s)
      × Describes s' stats
      × (type_of s' ≡ type_of s)
apply_node_changes_lem f n s type stats h same c =
    let (value, e) = apply_node_changes-HasValue f n s type stats h same c in
    let (noted, describes, type') = apply_node_changes-eq-ok f n value.0 s value.1 stats h e in
    (value.0, value.1, e, noted, describes, type')

-- Another type of the path is reported, so that no hint means the same type.
reported :
    (n : Node) (hint : ℕ)
    → n.hint < hint_limit
    → 5 ≤ hint
    → hint ≤ 10
    → (hint_no_pol (hint_set n.hint hint) == bh_none) ≡ false
reported n hint h a b =
    let set = hint_set_exclusive n.hint hint h (omega arith) (omega arith) in ground (arith, set.0)

unreported-SameType :
    (n : Node) (s : PathState) (type : SearchResultType)
    → latest n.history ≡ s
    → n.hint < hint_limit
    → IsFileType type
    → (hint_no_pol (handle_filetype_changes n type).hint == bh_none) ≡ true
    → SameType s type
unfolding handle_filetype_changes
unreported-SameType n non_existing type l h t e = tt
unreported-SameType n (directory uid gid info) type l h t e = tt
unreported-SameType n (regular_file uid gid info) type l h t e = elim t [
  | inl same ↦ same
  | inr (inl link) ↦
      let no = reported n 5 h (omega arith) (omega arith) in
      absurd (let e' = rw (l, link) at e in cc)
  | inr (inr d) ↦
      let no = reported n 6 h (omega arith) (omega arith) in absurd (let e' = rw (l, d) at e in cc)
]
unreported-SameType n (symlink uid gid target) type l h t e = elim t [
  | inl regular ↦
      let no = reported n 7 h (omega arith) (omega arith) in
      absurd (let e' = rw (l, regular) at e in cc)
  | inr (inl same) ↦ same
  | inr (inr d) ↦
      let no = reported n 8 h (omega arith) (omega arith) in absurd (let e' = rw (l, d) at e in cc)
]

pub handle_node_changes-HasValue :
    (f : Files) (n : Node) (s : PathState) (r : SearchResult)
    → latest n.history ≡ s
    → n.hint < hint_limit
    → n.path ≡ r.path
    → IsFileType r.type
    → CanRead f r.path r.type r.stats
    → HasValue (handle_node_changes f n s r)
unfolding handle_node_changes
handle_node_changes-HasValue f n s r l h p t c =
    let n₁ = handle_filetype_changes n r.type in
    let one = handle_filetype_changes_lem n r.type h in
    let path : n₁.path ≡ r.path = Noted-path n n₁ one ∙ p in
    elim (Bool-cases (hint_no_pol n₁.hint == bh_none)) [
      | inl none ↦
          let (value, e) =
            apply_node_changes-HasValue f n₁ s r.type r.stats one.1
              (unreported-SameType n s r.type l h t none)
              (subst (λ q. CanRead f q r.type r.stats) (sym path) c) in
          (value, rw none e)
      | inr changed ↦ elim (Bool-cases (r.policy == bpol_none)) [
        | inl none ↦ rw (changed, none) (_, refl)
        | inr other ↦
            let (state, e) = set_path_history_state-HasValue f s r c in
            rw (changed, other, e) (_, refl)
      ]
    ]
