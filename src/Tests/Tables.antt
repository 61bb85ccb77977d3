-- ===== src/Tests/Tables.antt =====
-- Instances of the theorems on string tables: a hash function that is the length of the key.
use nano_backup.Prelude.{ℕ, ◌≡◌, arith, ◌||◌, [], ◌∷◌, bytes_eq, length, ok}
use nano_backup.Str.{Bytes}
use nano_backup.StringTable.{StringTable, str_table_new, str_table_map, str_table_get}
use nano_backup.StringTable.Keys.{is_some}
use nano_backup.StringTable.Placement.{IsTable, str_table_new_lem, str_table_map_lem}

abbrev length_hash : Bytes → Bytes → ℕ
length_hash key secret_key = length key

abbrev empty_table : StringTable ℕ
empty_table = str_table_new (1 ∷ 2 ∷ [])

-- A table whose associations fill it: the next one doubles its capacity.
abbrev full_table : StringTable ℕ
full_table = record empty_table { associations = 32 }

abbrev config : Bytes
config = b'c' ∷ b'f' ∷ []

full_table-IsTable : IsTable length_hash full_table
full_table-IsTable =
    let empty : IsTable length_hash empty_table =
      (str_table_new_lem length_hash (1 ∷ 2 ∷ []) config).0 in
    record {
      size = empty.size;
      positive = empty.positive;
      small = omega arith;
      placed = empty.placed;
    }

str_table_map_lem_example :
    (table' : StringTable ℕ) × (str_table_map length_hash full_table config 7 ≡ ok table')
    × IsTable length_hash table'
    × (table'.associations ≡ 33)
    × ((k : Bytes)
        → is_some (str_table_get length_hash table' k)
          ≡ (bytes_eq k config || is_some (str_table_get length_hash full_table k)))
str_table_map_lem_example =
    str_table_map_lem length_hash full_table config 7 full_table-IsTable (omega arith)
