-- ===== src/Backup/Stored.antt =====
-- The nodes of a backup before and after finishBackup() of src/backup.c.
use nano_backup.Prelude.{
  ℕ, length, ◌<◌, ◌≡◌, ◌≢◌, true, false, [], ◌∷◌, some, ◌⊎◌, Result, ok, die, slot_overflow,
}
use nano_backup.Str.{Bytes}
use nano_backup.Hint.{BackupHint}
use nano_backup.Metadata.{
  PathState, non_existing, regular_file, symlink, directory, RegularFileInfo, PathHistory, PathList,
  null, node, Metadata, file_hash_size,
}
use nano_backup.Repository.Store.{Store, file, path_with_info}
use nano_backup.Repository.Parents.{Keeps}
use nano_backup.Backup.Changes.{Stats}
use nano_backup.Backup.Finish.{Sources, is_new}
use nano_backup.Backup.Duplicates.{Differ}
use nano_backup.Backup.Storing.{IsRepo}
use nano_backup.Backup.Adding.{IsUnchanged, IsPrepared}

module _ (f : Sources) where
  -- Each new file can be read and did not change since it was found.
  abbrev pub ReadyState : BackupHint → Bytes → PathState → Type 0
  ReadyState hint path (regular_file uid gid i) =
      is_new hint i ≡ true
      → (content : Bytes) × (stats : Stats) × IsPrepared hint i × IsUnchanged f path content i stats
  ReadyState hint path _ = Unit

  abbrev pub ReadyHistory : BackupHint → Bytes → PathHistory → Type 0
  ReadyHistory hint path [] = Unit
  ReadyHistory hint path (point ∷ older) = ReadyState hint path point.state

  abbrev pub Ready : PathList → Type 0
  Ready null = Unit
  Ready (node n subnodes next) = ReadyHistory n.hint n.path n.history × Ready subnodes × Ready next

module _ (f : Sources) (repo_path tmp : Bytes) where
  -- `j` is the info `i` with its new hash and slot: under its path stands the content of the file, if
  -- this is new and has more than 20 bytes.
  abbrev pub StoredInfo : Store → BackupHint → Bytes → RegularFileInfo → RegularFileInfo → Type 0
  StoredInfo store hint path i j =
      (j ≡ (record i { hash = j.hash; slot = j.slot }))
      × (is_new hint i ≡ false → j ≡ i)
      × (is_new hint i ≡ true
          → file_hash_size < i.size
          → (content : Bytes) × (f.open_read path ≡ ok content)
            × (store (path_with_info repo_path j) ≡ some (file content))
            × (path_with_info repo_path j ≢ tmp))

  -- A state, a history and a list of nodes that have become the second ones
  abbrev pub StoredState : Store → BackupHint → Bytes → PathState → PathState → Type 0
  StoredState store hint path (regular_file uid gid i) state =
      (j : RegularFileInfo) × (state ≡ regular_file uid gid j) × StoredInfo store hint path i j
  StoredState store hint path before state = state ≡ before

  abbrev pub StoredHistory : Store → BackupHint → Bytes → PathHistory → PathHistory → Type 0
  StoredHistory store hint path [] history = history ≡ []
  StoredHistory store hint path (point ∷ older) history =
      (state : PathState) × (history ≡ (record point { state = state }) ∷ older)
      × StoredState store hint path point.state state

  abbrev pub Stored : PathList → PathList → Store → Type 0
  Stored null list store = list ≡ null
  Stored (node n subnodes next) list store =
      (history : PathHistory) × (subnodes' : PathList) × (next' : PathList) × (list
        ≡ node (record n { history = history }) subnodes' next')
      × StoredHistory store n.hint n.path n.history history
      × Stored subnodes subnodes' store
      × Stored next next' store

  -- What was stored stays stored.
  pub StoredState-Keeps :
      (store store' : Store) (hint : BackupHint) (path : Bytes) (before state : PathState)
      → Keeps tmp store store'
      → StoredState store hint path before state
      → StoredState store' hint path before state
  StoredState-Keeps store store' hint path non_existing state k s = s
  StoredState-Keeps store store' hint path (regular_file uid gid i) state k (j, e, (size, old, s)) =
      (
        j,
        e,
        (
          size,
          old,
          λ new large.
              let (content, read, there, d) = s new large in
              (content, read, k (path_with_info repo_path j) (file content) d there, d),
        ),
      )
  StoredState-Keeps store store' hint path (symlink uid gid target) state k s = s
  StoredState-Keeps store store' hint path (directory uid gid i) state k s = s

  pub StoredHistory-Keeps :
      (store store' : Store) (hint : BackupHint) (path : Bytes) (before history : PathHistory)
      → Keeps tmp store store'
      → StoredHistory store hint path before history
      → StoredHistory store' hint path before history
  StoredHistory-Keeps store store' hint path [] history k s = s
  StoredHistory-Keeps store store' hint path (point ∷ older) history k (state, e, s) =
      (state, e, StoredState-Keeps store store' hint path point.state state k s)

  pub Stored-Keeps :
      (store store' : Store) (before list : PathList)
      → Keeps tmp store store'
      → Stored before list store
      → Stored before list store'
  Stored-Keeps store store' null list k s = s
  Stored-Keeps store store' (node n subnodes next) list k (history, subs, rest, e, h, s, t) = (
    history,
    subs,
    rest,
    e,
    StoredHistory-Keeps store store' n.hint n.path n.history history k h,
    Stored-Keeps store store' subnodes subs k s,
    Stored-Keeps store store' next rest k t,
  )

  -- For some file that is backed up, all slots of its hash and size hold other files, in a
  -- repository that still holds all that it held at the beginning.
  abbrev pub NoSlot : Store → Type 0
  NoSlot store =
      (path : Bytes) × (content : Bytes) × (i : RegularFileInfo) × (store' : Store) × (f.open_read
          path
        ≡ ok content)
      × (length content ≡ i.size)
      × Keeps tmp store store'
      × IsRepo store' repo_path tmp
      × Differ store' repo_path i content 256

  pub NoSlot-Keeps : (store store' : Store) → Keeps tmp store store' → NoSlot store' → NoSlot store
  NoSlot-Keeps store store' k (path, content, i, last, read, size, k', r, d) =
      (path, content, i, last, read, size, (λ q item a there. k' q item a (k q item a there)), r, d)

  -- A part of the backup that ends well, or with the one error that is left
  abbrev pub Done : {X : Type 0} → (X → Store → Type 0) → Store → Result (X × Store) → Type 0
  Done {X = X} Good store result =
      ((x : X) × (store' : Store) × (result ≡ ok (x, store'))
        × Keeps tmp store store'
        × IsRepo store' repo_path tmp
        × Good x store')
      ⊎ (NoSlot store × (result ≡ die slot_overflow))

  -- The metadata of a finished backup: its nodes have become `paths`, its time is set.
  abbrev pub Completed : Metadata → ℕ → Metadata → Store → Type 0
  Completed m time m' store =
      (paths : PathList) × (m' ≡ (record m {
        paths = paths;
        current_backup = record m.current_backup { completion_time = time };
      }))
      × Stored m.paths paths store
