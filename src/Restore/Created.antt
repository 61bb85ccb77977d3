-- ===== src/Restore/Created.antt =====
-- finishRestore() of src/restore.c on a tree of which nothing exists.
use nano_backup.Prelude.{
  ℕ, ◌≡◌, ◌≢◌, refl, ◌∙◌, ap, Bool, true, false, ◌&&◌, ◌||◌, not, [], ◌∷◌, ◌++◌, append-nil, ◌==◌,
  Option, none, some, Option-cases, inl, inr, Result, ok, if◌then◌else◌,
}
use nano_backup.Str.{Bytes}
use nano_backup.Hint.{hint_no_pol, hint_set, bh_none, bh_added, bpol_none}
use nano_backup.Metadata.{
  PathState, non_existing, regular_file, symlink, directory, Node, PathList, null, node, Metadata,
  PathHistory, BackupRef, current, past, backup_at, type_of, pst_directory,
}
use nano_backup.Repository.Store.{Store}
use nano_backup.Backup.Changes.{Files, with_hint}
use nano_backup.Restore.{
  System, existing, search_point, search_path_state, search_existing_path_state, initiate_restore,
}
use nano_backup.Restore.Finish.{
  write, chown, lchown, chmod, utime, make_symlink, mkdir, Actions, restore_path, restore_node,
  restore_subnodes, restore_found, finish_restore_list, finish_restore,
}
use nano_backup.Restore.Marks.{marked, check_list-marked}
use nano_backup.Restore.Creations.{
  created, created-append, content_of, creation, creations, ReadableState, AllReadable,
  restore_file-content_of,
}

existing-exists : (state : Option PathState) → existing state ≢ some non_existing
existing-exists none e = cc
existing-exists (some non_existing) e = cc
existing-exists (some (regular_file uid gid i)) e = cc
existing-exists (some (symlink uid gid target)) e = cc
existing-exists (some (directory uid gid i)) e = cc

search-exists :
    (m : Metadata) (id : ℕ) (n : Node) (state : PathState)
    → search_existing_path_state m id n ≡ some state
    → state ≢ non_existing
unfolding search_existing_path_state
search-exists m id n state e same = existing-exists (search_path_state m id n) (e ∙ ap some same)

search-with_hint :
    (m : Metadata) (id : ℕ) (n : Node) (hint : ℕ)
    → search_existing_path_state m id (with_hint n hint) ≡ search_existing_path_state m id n
unfolding search_existing_path_state search_path_state
search-with_hint m id n hint = refl

restore_path-created :
    (store : Store) (repo_path path : Bytes) (state : PathState)
    → state ≢ non_existing
    → ReadableState store repo_path state
    → (actions : Actions) × (restore_path store repo_path path state ≡ ok actions)
      × (created actions ≡ creation store repo_path path state)
unfolding restore_path
restore_path-created store repo_path path non_existing d r = absurd (d refl)
restore_path-created store repo_path path (regular_file uid gid i) d r = (
  write path (content_of store repo_path i)
      ∷ chown path uid gid
      ∷ chmod path i.permission_bits
      ∷ utime path i.modification_time
      ∷ [],
  rw (restore_file-content_of store repo_path path uid gid i r) refl,
  refl,
)
restore_path-created store repo_path path (symlink uid gid target) d r =
    (make_symlink target path ∷ lchown path uid gid ∷ [], refl, refl)
restore_path-created store repo_path path (directory uid gid i) d r = (
  mkdir path
      ∷ chown path uid gid
      ∷ chmod path i.permission_bits
      ∷ utime path i.modification_time
      ∷ [],
  refl,
  refl,
)

-- The directory's time is set again or not: no path is created.
last_utime :
    (test : Bool) (path : Bytes) (time : ℕ)
    → created (if test then utime path time ∷ [] else []) ≡ []
last_utime true path time = refl
last_utime false path time = refl

-- The outcome: calls of which `paths` create or remove something, in this order
abbrev Creates : Result (Bool × Actions) → Actions → Type 0
Creates result paths =
    (affects : Bool) × (actions : Actions) × (result ≡ ok (affects, actions))
    × (created actions ≡ paths)

found-Creates :
    (store : Store) (repo_path : Bytes) (n : Node) (state : PathState)
    (below : Result (Bool × Actions)) (paths : Actions)
    → n.hint ≡ bh_none
    → state ≢ non_existing
    → ReadableState store repo_path state
    → ((type_of state == pst_directory) ≡ true → Creates below paths)
    → Creates (restore_found store repo_path (with_hint n bh_added) (some state) below) (
        creation store repo_path n.path state
        ++ (if type_of state == pst_directory then paths else []))
unfolding restore_found restore_node restore_subnodes hint_set hint_no_pol
found-Creates store repo_path n non_existing below paths h d r b = absurd (d refl)
found-Creates store repo_path n (regular_file uid gid i) below paths h d r b =
    let (actions, e, c) =
      restore_path-created store repo_path n.path (regular_file uid gid i) d r in
    (
      true,
      actions ++ [],
      rw (h, e) refl,
      created-append actions [] ∙ append-nil (created actions) ∙ c,
    )
found-Creates store repo_path n (symlink uid gid target) below paths h d r b =
    let (actions, e, c) =
      restore_path-created store repo_path n.path (symlink uid gid target) d r in
    (
      true,
      actions ++ [],
      rw (h, e) refl,
      created-append actions [] ∙ append-nil (created actions) ∙ c,
    )
found-Creates store repo_path n (directory uid gid i) below paths h d r b =
    let (actions, e, c) = restore_path-created store repo_path n.path (directory uid gid i) d r in
    let (affects, restored, e', c') = b refl in
    let time = affects && not (n.policy == bpol_none) in
    let last = if time then utime n.path i.modification_time ∷ [] else [] in
    (
      true,
      actions ++ (restored ++ last),
      rw (h, e, e') refl,
      created-append actions (restored ++ last)
          ∙ rw
              (
                c,
                created-append restored last,
                last_utime time n.path i.modification_time,
                c',
                append-nil paths,
              )
              refl,
    )

marked-Creates :
    (m : Metadata) (id : ℕ) (store : Store) (repo_path : Bytes) (list : PathList)
    → AllReadable m id store repo_path list
    → Creates
        (finish_restore_list m id store repo_path (marked m id list))
        (creations m id store repo_path list)
unfolding finish_restore_list restore_found
marked-Creates m id store repo_path null r = (false, [], refl, refl)
marked-Creates m id store repo_path (node n subnodes next) (h, r, below, rest) =
    let (affects, actions, e, c) = marked-Creates m id store repo_path next rest in
    elim (Option-cases (search_existing_path_state m id n)) [
      | inl missing ↦ (affects, actions, rw (missing, missing, e) refl, rw missing c)
      | inr (state, there) ↦
          let sub =
            if not (type_of state == pst_directory) then subnodes else marked m id subnodes in
          let (affects₁, actions₁, e₁, c₁) =
            found-Creates store repo_path n state (finish_restore_list m id store repo_path sub)
              (creations m id store repo_path subnodes) h (search-exists m id n state there)
              (r state there) (λ d. rw d (marked-Creates m id store repo_path subnodes below)) in
          let again : search_existing_path_state m id (with_hint n bh_added) ≡ some state =
            search-with_hint m id n bh_added ∙ there in
          (
            affects₁ || affects,
            actions₁ ++ actions,
            rw (there, again, e₁, e) refl,
            created-append actions₁ actions ∙ rw (there, c₁, c) refl,
          )
    ]

-- The nodes of the metadata do not matter where only the ids of backups are read.
backup_at-paths :
    (m : Metadata) (paths : PathList) (r : BackupRef)
    → backup_at (record m { paths = paths }) r ≡ backup_at m r
backup_at-paths m paths current = refl
backup_at-paths m paths (past i) = refl

search_point-paths :
    (m : Metadata) (paths : PathList) (id : ℕ) (history : PathHistory)
    → search_point (record m { paths = paths }) id history ≡ search_point m id history
unfolding search_point
search_point-paths m paths id [] = refl
search_point-paths m paths id (point ∷ older) =
    rw (backup_at-paths m paths point.backup, search_point-paths m paths id older) refl

search-paths :
    (m : Metadata) (paths : PathList) (id : ℕ) (n : Node)
    → search_existing_path_state (record m { paths = paths }) id n
      ≡ search_existing_path_state m id n
unfolding search_existing_path_state search_path_state
search-paths m paths id n = rw (search_point-paths m paths id n.history) refl

finish_restore_list-paths :
    (m : Metadata) (paths : PathList) (id : ℕ) (store : Store) (repo_path : Bytes) (list : PathList)
    → finish_restore_list (record m { paths = paths }) id store repo_path list
      ≡ finish_restore_list m id store repo_path list
unfolding finish_restore_list
finish_restore_list-paths m paths id store repo_path null = refl
finish_restore_list-paths m paths id store repo_path (node n subnodes next) =
    rw
      (
        search-paths m paths id n,
        finish_restore_list-paths m paths id store repo_path subnodes,
        finish_restore_list-paths m paths id store repo_path next,
      )
      refl

-- Restoring everything where nothing exists: initiateRestore() with the root marks all paths that
-- existed at the requested backup, and finishRestore() on these nodes then creates exactly these
-- items, each once and before all that is below it: files with the content that their info or the
-- repository has, symlinks with their target, and directories; and it removes nothing. No hint was set
-- before, and each regular file of more than 20 bytes that existed is in the repository.
pub restore_everything :
    (f : Files) (system : System) (m : Metadata) (id : ℕ) (store : Store) (repo_path : Bytes)
    → ((path : Bytes) → system.path_exists path ≡ false)
    → AllReadable m id store repo_path m.paths
    → (initiate_restore f system m id [] ≡ ok (marked m id m.paths))
      × ((actions : Actions) × (finish_restore
              (record m { paths = marked m id m.paths })
              id
              store
              repo_path
            ≡ ok actions)
          × (created actions ≡ creations m id store repo_path m.paths))
unfolding initiate_restore finish_restore
restore_everything f system m id store repo_path nothing r =
    let (affects, actions, e, c) = marked-Creates m id store repo_path m.paths r in
    (
      check_list-marked f system m id m.paths true nothing,
      (
        actions,
        rw
            (
              finish_restore_list-paths m (marked m id m.paths) id store repo_path
                  (marked m id m.paths),
              e,
            )
            refl,
        c,
      ),
    )
