-- ===== src/Restore/Marks.antt =====
-- The hints that src/restore.c sets, for a tree that is missing in the file system and for one that
-- is as it was.
use nano_backup.Prelude.{
  ℕ, ◌≡◌, refl, arith, Bool, true, false, ◌&&◌, not, Bool-cases, [], ◌==◌, ==_iff, Option, none,
  some, Option-cases, inl, inr, ok, if◌then◌else◌,
}
use Prim.Native.Nat.{bit_and}
use nano_backup.Str.{Bytes}
use nano_backup.Hint.{hint_no_pol, bh_none, bh_added, bh_timestamp_changed, bpol_none}
use nano_backup.Metadata.{
  PathState, non_existing, regular_file, symlink, directory, Node, PathList, null, node, Metadata,
  type_of, pst_directory, pst_symlink,
}
use nano_backup.Repository.Store.{Store}
use nano_backup.Backup.Changes.{Files, Stats, with_hint}
use nano_backup.Backup.Detection.{Describes, KeepsTarget, apply_node_changes_unchanged}
use nano_backup.Restore.{
  System, s_isreg, s_isdir, s_islnk, search_existing_path_state, handle_mode_changes, is_replaced,
  compare_existing, check_and_handle_changes, check_entry, check_list, initiate_restore,
}
use nano_backup.Restore.Finish.{
  restore_changes, restore_node, restore_subnodes, restore_found, finish_restore_list,
  finish_restore,
}

-- Every path that existed at the requested backup is to be added, all others stay as they are.
abbrev marked_node : Node → Option PathState → Node
marked_node n none = n
marked_node n (some state) = with_hint n bh_added

abbrev marked_below : Option PathState → PathList → PathList → PathList
marked_below none subnodes marked = subnodes
marked_below (some state) subnodes marked =
    if not (type_of state == pst_directory) then subnodes else marked

abbrev pub marked : Metadata → ℕ → PathList → PathList
marked m id null = null
marked m id (node n subnodes next) =
    let state = search_existing_path_state m id n in
    node (marked_node n state) (marked_below state subnodes (marked m id subnodes))
      (marked m id next)

-- Nothing is found at any path.
abbrev pub Absent : System → Bool → Type 0
Absent system could_exist = (p : Bytes) → (could_exist && system.path_exists p) ≡ false

Absent-and :
    (system : System) (could_exist more : Bool)
    → Absent system could_exist
    → Absent system (could_exist && more)
Absent-and system could_exist more h p = let missing = h p in ground arith

-- checkAndHandleChangesRecursively() on paths of which none exists, or below a directory that is
-- missing or replaced, marks every path that existed at the requested backup as added, down to the
-- last subdirectory, and changes no other node. It never ends the program.
pub check_list-marked :
    (f : Files) (system : System) (m : Metadata) (id : ℕ) (list : PathList) (could_exist : Bool)
    → Absent system could_exist
    → check_list f system m id list could_exist ≡ ok (marked m id list)
unfolding check_list check_entry check_and_handle_changes
check_list-marked f system m id null could_exist h = refl
check_list-marked f system m id (node n subnodes next) could_exist h =
    let rest = check_list-marked f system m id next could_exist h in
    let missing = h n.path in
    elim (Option-cases (search_existing_path_state m id n)) [
      | inl e ↦ rw (e, rest) refl
      | inr (state, e) ↦ elim (Bool-cases (type_of state == pst_directory)) [
        | inl d ↦
            let more = not (is_replaced (with_hint n bh_added).hint) in
            let below =
              check_list-marked f system m id subnodes (could_exist && more)
                (Absent-and system could_exist more h) in
            rw (e, missing, d, below, rest) refl
        | inr d ↦ rw (e, missing, d, rest) refl
      ]
    ]

-- The mode says that the file has the type of the state.
abbrev pub HasType : PathState → ℕ → Type 0
HasType non_existing mode = Unit
HasType (regular_file uid gid i) mode = s_isreg mode ≡ true
HasType (symlink uid gid target) mode = s_islnk mode ≡ true
HasType (directory uid gid i) mode = s_isdir mode ≡ true

handle_mode_changes-HasType :
    (n : Node) (state : PathState) (mode : ℕ)
    → HasType state mode
    → handle_mode_changes n state mode ≡ n
unfolding handle_mode_changes
handle_mode_changes-HasType n non_existing mode h = refl
handle_mode_changes-HasType n (regular_file uid gid i) mode h =
    rw ((==_iff (bit_and mode 61440) 32768).0 h) refl
handle_mode_changes-HasType n (symlink uid gid target) mode h =
    rw ((==_iff (bit_and mode 61440) 40960).0 h) refl
handle_mode_changes-HasType n (directory uid gid i) mode h =
    rw ((==_iff (bit_and mode 61440) 16384).0 h) refl

restore_node-same :
    (store : Store) (repo_path : Bytes) (n : Node) (state : PathState)
    → n.hint ≡ bh_none
    → restore_node store repo_path n state ≡ ok (false, [])
unfolding restore_node restore_changes hint_no_pol
restore_node-same store repo_path n state h = elim (Bool-cases (n.policy == bpol_none)) [
  | inl e ↦ rw (h, e) refl
  | inr e ↦ rw (h, e) refl
]

restore_subnodes-same :
    (n : Node) (state : PathState) → restore_subnodes n state (ok (false, [])) ≡ ok []
unfolding restore_subnodes
restore_subnodes-same n non_existing = refl
restore_subnodes-same n (regular_file uid gid i) = refl
restore_subnodes-same n (symlink uid gid target) = refl
restore_subnodes-same n (directory uid gid i) = refl

module _ (f : Files) (system : System) (m : Metadata) (id : ℕ) where
  -- The path is as the state says.
  abbrev pub IsSame : Node → PathState → Type 0
  IsSame n state =
      (system.path_exists n.path ≡ true)
      × ((stats : Stats) × ((if type_of state == pst_symlink
              then system.lstat n.path
              else system.stat n.path)
            ≡ ok stats)
          × HasType state stats.st_mode
          × Describes state stats)
      × KeepsTarget f n.path state

  -- No hint is set, and each path that existed at the requested backup is as it was.
  abbrev pub AllSame : PathList → Type 0
  AllSame null = Unit
  AllSame (node n subnodes next) =
      (n.hint ≡ bh_none)
      × ((state : PathState) → search_existing_path_state m id n ≡ some state → IsSame n state)
      × AllSame subnodes
      × AllSame next

  check-IsSame :
      (n : Node) (state : PathState)
      → n.hint ≡ bh_none
      → IsSame n state
      → check_and_handle_changes f system n state true ≡ ok n
  unfolding check_and_handle_changes compare_existing hint_no_pol
  check-IsSame n state h (exists, (stats, stated, type, same), target) =
      let n' = handle_mode_changes-HasType n state stats.st_mode type in
      let no_flag : bit_and n.hint bh_timestamp_changed ≡ 0 = rw h refl in
      let none_set : (hint_no_pol n.hint == bh_none) ≡ true = rw h refl in
      let applied = apply_node_changes_unchanged f n state stats same no_flag target in
      rw (exists, stated, n', none_set, applied) refl

  check_list-AllSame :
      (list : PathList) → AllSame list → check_list f system m id list true ≡ ok list
  unfolding check_list check_entry hint_no_pol
  check_list-AllSame null s = refl
  check_list-AllSame (node n subnodes next) (h, s, below, rest) =
      let below' = check_list-AllSame subnodes below in
      let rest' = check_list-AllSame next rest in
      elim (Option-cases (search_existing_path_state m id n)) [
        | inl e ↦ rw (e, rest') refl
        | inr (state, e) ↦
            let kept = check-IsSame n state h (s state e) in
            elim (Bool-cases (type_of state == pst_directory)) [
              | inl d ↦
                  let same : is_replaced n.hint ≡ false = rw h refl in
                  rw (e, kept, d, same, below', rest') refl
              | inr d ↦ rw (e, kept, d, rest') refl
            ]
      ]

  finish_restore_list-AllSame :
      (store : Store) (repo_path : Bytes) (list : PathList)
      → AllSame list
      → finish_restore_list m id store repo_path list ≡ ok (false, [])
  unfolding finish_restore_list restore_found
  finish_restore_list-AllSame store repo_path null s = refl
  finish_restore_list-AllSame store repo_path (node n subnodes next) (h, s, below, rest) =
      let below' = finish_restore_list-AllSame store repo_path subnodes below in
      let rest' = finish_restore_list-AllSame store repo_path next rest in
      elim (Option-cases (search_existing_path_state m id n)) [
        | inl e ↦ rw (e, rest') refl
        | inr (state, e) ↦
            rw
              (
                e,
                rest',
                below',
                restore_node-same store repo_path n state h,
                restore_subnodes-same n state,
              )
              refl
      ]

  -- Restoring everything over files that are as they were at the requested backup does nothing:
  -- initiateRestore() with the root leaves all nodes as they are, and finishRestore() then makes no
  -- call that changes the file system. No hint was set before; each path that existed at that
  -- backup exists, with the type, the owner, the permissions, the time, the size and the target of
  -- a link that its state has.
  pub restore_unchanged :
      (store : Store) (repo_path : Bytes)
      → AllSame m.paths
      → (initiate_restore f system m id [] ≡ ok m.paths)
        × (finish_restore m id store repo_path ≡ ok [])
  unfolding initiate_restore finish_restore
  restore_unchanged store repo_path s = (
    check_list-AllSame m.paths s,
    rw (finish_restore_list-AllSame store repo_path m.paths s) refl,
  )
