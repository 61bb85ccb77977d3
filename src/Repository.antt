-- ===== src/Repository.antt =====
-- buildFilePath() of src/repository.c: the unique path of a file in the repository.
pub mod Store
pub mod Directories
pub mod Parents
pub mod Writer
pub mod Paths
use nano_backup.Prelude.{
  ℕ, zero, suc, ◌+◌, ◌/◌, ◌%◌, [], ◌∷◌, ◌++◌, ltb, ◌==◌, if◌then◌else◌, get_or, drop,
}
use nano_backup.Str.{Bytes, slash}
use nano_backup.Metadata.{RegularFileInfo}

abbrev pub hex_digit : ℕ → ℕ
hex_digit d = if ltb d 10 then b'0' + d else 87 + d

-- "%x", for a number below 16 ^ fuel
unfoldable pub hex_loop : ℕ → ℕ → Bytes → Bytes
hex_loop zero n digits = digits
hex_loop (suc fuel) n digits =
    let more = hex_loop fuel (n / 16) (hex_digit (n % 16) ∷ digits) in
    if n / 16 == 0 then hex_digit (n % 16) ∷ digits else more

-- "%02x" for each byte
unfoldable pub hex_bytes : Bytes → Bytes
hex_bytes [] = []
hex_bytes (b ∷ rest) = hex_digit (b / 16) ∷ hex_digit (b % 16) ∷ hex_bytes rest

-- The first two bytes of the hash give the two directories: "a/bc/d", and the rest of the name.
unfoldable pub build_file_path : RegularFileInfo → Bytes
unfolding hex_loop hex_bytes
build_file_path info =
    let first = get_or info.hash 0 0 in
    let second = get_or info.hash 1 0 in
    (hex_digit (first / 16)
      ∷ slash
      ∷ hex_digit (first % 16)
      ∷ hex_digit (second / 16)
      ∷ slash
      ∷ hex_digit (second % 16)
      ∷ hex_bytes (drop 2 info.hash))
    ++ (b'x' ∷ (hex_loop 16 info.size [] ++ (b'x' ∷ hex_loop 16 info.slot [])))
