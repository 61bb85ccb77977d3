-- ===== src/Backup/Finished.antt =====
-- finishBackup() of src/backup.c: its outcomes for a tree of nodes.
use nano_backup.Prelude.{◌≡◌}
use nano_backup.Metadata.{RegularFileInfo, Metadata}
use nano_backup.Repository.Store.{Store}
use nano_backup.Backup.Stored.{Stored}

-- The new info differs from the old one in its hash and its slot only.
abbrev Same : RegularFileInfo → RegularFileInfo → Type 0
Same i j = j ≡ (record i { hash = j.hash; slot = j.slot })
