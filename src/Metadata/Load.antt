-- ===== src/Metadata/Load.antt =====
-- The reading half of src/metadata.c. The content of the file and `reader_position` are the number
-- of bytes read and the bytes that are left: content.size is their sum. A loader also holds what the
-- reading functions change in the metadata: the reference counts of the backup history, and the
-- path table. `size_t` and `time_t` have 64 bits.
use mathlib.Core.Bool.{◌||◌}
use nano_backup.Prelude.{ℕ, zero, suc, ◌+◌, ◌*◌, Bool, true, false, List, [], ◌∷◌}
use nano_backup.Prelude.{ltb, leb, ◌==◌, not, if◌then◌else◌, length, get_or, take, drop}
use nano_backup.Prelude.{Error, Result, ok, die, stuck, ◌>>=◌ as bind, corrupted_metadata}
use nano_backup.Prelude.{backup_id_out_of_range, invalid_path_state_type, filename_length_zero}
use nano_backup.Prelude.{filename_null_bytes, invalid_filename, trailing_bytes}
use nano_backup.SafeMath.{size_add, size_mul}
use nano_backup.Str.{Bytes, slash, str, str_unterminated, is_dot_element, append_path}
use nano_backup.Hint.{bh_none}
use nano_backup.Metadata.{
  file_hash_size, PathState, non_existing, regular_file, symlink, directory, Backup, past, Point,
  PathHistory, PathList, null, node, Metadata, no_backup, pst_non_existing, pst_regular_file,
  pst_symlink, pst_directory,
}

pub record Loader : Type 0 where
  pub position : ℕ
  pub rest : Bytes
  pub backups : List Backup
  pub table : List Bytes

abbrev pub Load : Type 0 → Type 0
Load A = Loader → Result (A × Loader)

infixl 10 ◌>>=◌ ◌>>◌
unfoldable pub ◌>>=◌ : {A B : Type 0} → Load A → (A → Load B) → Load B
◌>>=◌ m f s = bind (m s) (λ (a, s'). f a s')

abbrev pub ◌>>◌ : {A B : Type 0} → Load A → Load B → Load B
m >> n = m >>= λ _. n

unfoldable pub pure : {A : Type 0} → A → Load A
pure a s = ok (a, s)

unfoldable pub fail : {A : Type 0} → Error → Load A
fail e s = die e

-- assertBytesLeft()
unfoldable pub assert_bytes_left : ℕ → Load (Unit {0})
assert_bytes_left bytes s = bind (size_add s.position bytes) (λ end.
    if ltb (s.position + length s.rest) end
    then die (corrupted_metadata bytes (length s.rest))
    else ok (tt, s))

-- memcpy() from the reader position, which moves on
unfoldable pub consume : ℕ → Load Bytes
consume size s =
    ok (take size s.rest, record s { position = s.position + size; rest = drop size s.rest })

unfoldable pub read_bytes : ℕ → Load Bytes
unfolding assert_bytes_left
read_bytes size = do assert_bytes_left size; consume size

-- The number whose bytes, the lowest first, are given.
unfoldable pub le_value : Bytes → ℕ
le_value [] = 0
le_value (b ∷ rest) = b + 256 * le_value rest

unfoldable pub read8 : Load ℕ
unfolding assert_bytes_left
read8 = do assert_bytes_left 1; byte ← consume 1; pure (get_or byte 0 0)

unfoldable pub read32 : Load ℕ
unfolding assert_bytes_left le_value
read32 = do assert_bytes_left 4; value ← consume 4; pure (le_value value)

unfoldable pub read64 : Load ℕ
unfolding assert_bytes_left le_value
read64 = do assert_bytes_left 8; value ← consume 8; pure (le_value value)

-- A 64-bit value is never above SIZE_MAX, and a 64-bit time_t takes each of them.
abbrev pub read_size : Load ℕ
read_size = read64

abbrev pub read_time : Load ℕ
read_time = read64

-- The reference count of backup `id` goes up by one.
unfoldable pub add_reference : ℕ → List Backup → Result (List Backup)
add_reference id [] = ok []
add_reference zero (b ∷ rest) =
    bind (size_add b.ref_count 1) (λ n. ok ((record b { ref_count = n }) ∷ rest))
add_reference (suc id) (b ∷ rest) = bind (add_reference id rest) (λ rest'. ok (b ∷ rest'))

unfoldable pub refer : ℕ → Load (Unit {0})
unfolding add_reference
refer id s =
    if leb (length s.backups) id
    then die backup_id_out_of_range
    else bind (add_reference id s.backups) (λ backups. ok (tt, record s { backups = backups }))

-- The hash buffer and slot of a file, by its size
unfoldable pub read_hash : ℕ → Load (Bytes × ℕ)
unfolding read_bytes read8
read_hash size =
    if ltb file_hash_size size
    then (do hash ← read_bytes file_hash_size; slot ← read8; pure (hash, slot))
    else if ltb 0 size
    then (do hash ← read_bytes size; pure (hash, 0))
    else pure ([], 0)

-- str() of a buffer: the bytes before the first null byte
unfoldable pub c_string : Bytes → Bytes
c_string [] = []
c_string (b ∷ rest) = if b == 0 then [] else b ∷ c_string rest

-- A size whose sum or product is only tested
unfoldable pub checked : Result ℕ → Load (Unit {0})
checked r s = bind r (λ _. ok (tt, s))

-- The branches of readPathHistory() on the type, behind uid and gid
unfoldable pub read_info : ℕ → ℕ → ℕ → Load PathState
unfolding read_hash read32 read64 read_bytes c_string
read_info type uid gid =
    if type == pst_regular_file
    then (do
      permission_bits ← read32
      modification_time ← read_time
      size ← read64
      (hash, slot) ← read_hash size
      pure (
          regular_file uid gid (record {
            permission_bits = permission_bits;
            modification_time = modification_time;
            size = size;
            hash = hash;
            slot = slot;
          })))
    else if type == pst_symlink
    then (do
      target_length ← read_size
      checked (size_add target_length 1)
      target ← read_bytes target_length
      pure (symlink uid gid (c_string target)))
    else if type == pst_directory
    then (do
      permission_bits ← read32
      modification_time ← read_time
      pure (
          directory uid gid
            (record { permission_bits = permission_bits; modification_time = modification_time })))
    else fail invalid_path_state_type

unfoldable pub read_state : Load PathState
unfolding read8 read32 read_info
read_state = do
  type ← read8
  if type == pst_non_existing
      then pure non_existing
      else do uid ← read32; gid ← read32; read_info type uid gid

-- The first lines of readPathHistory(): the backup of a point
unfoldable pub read_backup : Load ℕ
unfolding read64 refer
read_backup = do id ← read_size; refer id; pure id

-- readPathHistory()
unfoldable pub read_point : Load Point
unfolding read_backup read_state
read_point = do
  id ← read_backup
  state ← read_state
  pure (record { backup = past id; state = state })

unfoldable pub read_points : ℕ → Load PathHistory
unfolding read_point
read_points zero = pure []
read_points (suc counter) = do point ← read_point; rest ← read_points counter; pure (point ∷ rest)

-- readFullPathHistory()
unfoldable pub read_full_path_history : Load PathHistory
unfolding read64 read_points
read_full_path_history = do history_length ← read_size; read_points history_length

unfoldable pub has_byte : ℕ → Bytes → Bool
has_byte c [] = false
has_byte c (b ∷ rest) = b == c || has_byte c rest

unfoldable pub check : Bool → Error → Load (Unit {0})
check true e = pure tt
check false e = fail e

unfoldable pub lift : {A : Type 0} → Result A → Load A
lift r s = bind r (λ a. ok (a, s))

-- The name of a node, and the path that it gives
unfoldable pub read_path : Bytes → Load Bytes
unfolding read64 read_bytes has_byte
read_path parent_path = do
  name_length ← read_size
  check (not (name_length == 0)) filename_length_zero
  name ← read_bytes name_length
  check (not (has_byte 0 name)) filename_null_bytes
  check (not (has_byte slash name || is_dot_element (str_unterminated name (length name))))
      (invalid_filename name)
  path ← lift (append_path (str parent_path) (str_unterminated name name_length))
  pure path.content

unfoldable pub map_path : Bytes → Load (Unit {0})
map_path path s = ok (tt, record s { table = path ∷ s.table })

-- One round of the loop of readPathSubnodes(), for a function that reads the subnodes
unfoldable pub read_node : (Bytes → Load PathList) → Bytes → PathList → Load PathList
unfolding read_path read8 read_full_path_history
read_node read_subnodes parent_path node_tree = do
  path ← read_path parent_path
  map_path path
  policy ← read8
  history ← read_full_path_history
  subnodes ← read_subnodes path
  pure (
      node (record { path = path; hint = bh_none; policy = policy; history = history }) subnodes
        node_tree)

unfoldable pub read_nodes : (Bytes → Load PathList) → Bytes → ℕ → PathList → Load PathList
unfolding read_node
read_nodes read_subnodes parent_path zero node_tree = pure node_tree
read_nodes read_subnodes parent_path (suc counter) node_tree = do
  node_tree' ← read_node read_subnodes parent_path node_tree
  read_nodes read_subnodes parent_path counter node_tree'

-- readPathSubnodes(). The fuel bounds how deep the calls nest.
unfoldable pub read_path_subnodes : ℕ → Bytes → Load PathList
unfolding read_nodes read64
read_path_subnodes zero parent_path s = stuck
read_path_subnodes (suc fuel) parent_path s =
    (do node_count ← read_size; read_nodes (read_path_subnodes fuel) parent_path node_count null) s

-- sizeof(Backup)
abbrev sizeof_backup : ℕ
sizeof_backup = 24

-- The loop of metadataLoad() over the backup history
unfoldable pub read_backups : ℕ → ℕ → Load (List Backup)
unfolding read64
read_backups id zero = pure []
read_backups id (suc left) = do
  completion_time ← read_time
  rest ← read_backups (suc id) left
  pure ((record { id = id; completion_time = completion_time; ref_count = 0 }) ∷ rest)

unfoldable pub set_backups : List Backup → Load (Unit {0})
set_backups backups s = ok (tt, record s { backups = backups })

-- The end of metadataLoad()
unfoldable pub finish : PathHistory → ℕ → PathList → Load Metadata
finish config_history total_path_count paths s =
    if length s.rest == 0
    then ok (
      record {
        current_backup = no_backup;
        backup_history = s.backups;
        config_history = config_history;
        total_path_count = total_path_count;
        path_table = s.table;
        paths = paths;
      },
      s,
    )
    else die trailing_bytes

unfoldable pub load_all : ℕ → Load Metadata
unfolding read64 read_backups read_full_path_history read_path_subnodes
load_all fuel = do
  backup_history_length ← read_size
  checked
      (if backup_history_length == 0 then ok 0 else size_mul sizeof_backup backup_history_length)
  backups ← read_backups 0 backup_history_length
  set_backups backups
  config_history ← read_full_path_history
  total_path_count ← read_size
  paths ← read_path_subnodes fuel []
  finish config_history total_path_count paths

-- metadataLoad(), from the content of the file. A call of readPathSubnodes() reads eight bytes
-- before it calls itself, so a fuel of the size of the content is enough.
unfoldable pub metadata_load : Bytes → Result Metadata
unfolding load_all
metadata_load content =
    bind
      (load_all (suc (length content))
        (record { position = 0; rest = content; backups = []; table = [] }))
      (λ (m, s). ok m)
