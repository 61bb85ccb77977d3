-- ===== src/Hint.antt =====
-- The backup policies of src/backup-policies.h, and BackupHint with its two macros of
-- src/metadata.h. Both enums are numbers, as the program combines hints by bit operations and
-- reads policies from a file without a check.
pub mod Laws
use Prim.Native.Nat.{bit_and, bit_or}
use nano_backup.Prelude.{ℕ, ◌-◌, ◌^◌, leb, if◌then◌else◌}

abbrev pub BackupPolicy : Type 0
BackupPolicy = ℕ

abbrev pub bpol_none : BackupPolicy
bpol_none = 0

abbrev pub bpol_copy : BackupPolicy
bpol_copy = 1

abbrev pub bpol_mirror : BackupPolicy
bpol_mirror = 2

abbrev pub bpol_track : BackupPolicy
bpol_track = 3

abbrev pub bpol_ignore : BackupPolicy
bpol_ignore = 4

abbrev pub bpol_summarize : BackupPolicy
bpol_summarize = 5

abbrev pub BackupHint : Type 0
BackupHint = ℕ

abbrev pub bh_none : BackupHint
bh_none = 0

abbrev pub bh_unchanged : BackupHint
bh_unchanged = 1

abbrev pub bh_added : BackupHint
bh_added = 2

abbrev pub bh_removed : BackupHint
bh_removed = 3

abbrev pub bh_not_part_of_repository : BackupHint
bh_not_part_of_repository = 4

abbrev pub bh_regular_to_symlink : BackupHint
bh_regular_to_symlink = 5

abbrev pub bh_regular_to_directory : BackupHint
bh_regular_to_directory = 6

abbrev pub bh_symlink_to_regular : BackupHint
bh_symlink_to_regular = 7

abbrev pub bh_symlink_to_directory : BackupHint
bh_symlink_to_directory = 8

abbrev pub bh_directory_to_regular : BackupHint
bh_directory_to_regular = 9

abbrev pub bh_directory_to_symlink : BackupHint
bh_directory_to_symlink = 10

abbrev pub bh_other_to_regular : BackupHint
bh_other_to_regular = 11

abbrev pub bh_other_to_symlink : BackupHint
bh_other_to_symlink = 12

abbrev pub bh_other_to_directory : BackupHint
bh_other_to_directory = 13

abbrev pub bh_owner_changed : BackupHint
bh_owner_changed = 2 ^ 4

abbrev pub bh_permissions_changed : BackupHint
bh_permissions_changed = 2 ^ 5

abbrev pub bh_timestamp_changed : BackupHint
bh_timestamp_changed = 2 ^ 6

abbrev pub bh_content_changed : BackupHint
bh_content_changed = 2 ^ 7

abbrev pub bh_fresh_hash : BackupHint
bh_fresh_hash = 2 ^ 8

abbrev pub bh_policy_changed : BackupHint
bh_policy_changed = 2 ^ 9

abbrev pub bh_loses_history : BackupHint
bh_loses_history = 2 ^ 10

-- ~ on a 32-bit integer
abbrev complement32 : ℕ → ℕ
complement32 x = 2 ^ 32 - 1 - x

-- backupHintSet(var, hint): the new value of `var`
unfoldable pub hint_set : BackupHint → BackupHint → BackupHint
hint_set var hint =
    if leb hint bh_unchanged
    then hint
    else if leb hint bh_other_to_directory
    then bit_or (bit_and var (complement32 0x1FF)) hint
    else if leb hint bh_fresh_hash
    then bit_or (bit_and var (complement32 0xF)) hint
    else bit_or var hint

-- backupHintNoPol(val)
unfoldable pub hint_no_pol : BackupHint → BackupHint
hint_no_pol val = bit_and val 0x1FF
