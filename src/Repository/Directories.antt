-- ===== src/Repository/Directories.antt =====
-- buildFilePath() of src/repository.c: the directories of a stored file.
use nano_backup.Prelude.{
  ℕ, zero, suc, ◌+◌, ◌/◌, ◌%◌, ◌≡◌, refl, sym, ap, ◌∙◌, arith, true, false, Bool-cases, inl, inr,
  [], ◌∷◌, ◌++◌, append_assoc, take, drop, length, get_or, ◌==◌,
}
use nano_backup.Str.{Bytes, slash}
use nano_backup.Metadata.{RegularFileInfo}
use nano_backup.Repository.{build_file_path, hex_digit, hex_bytes, hex_loop}
use nano_backup.Repository.Store.{has_slash, directory_of, path_with_info}

has_slash-join : (xs name : Bytes) → has_slash (xs ++ (slash ∷ name)) ≡ true
has_slash-join [] name = refl
has_slash-join (x ∷ xs) name = elim (Bool-cases (x == slash)) [
  | inl e ↦ rw e refl
  | inr e ↦ rw (e, has_slash-join xs name) refl
]

-- The directory of a path and a name is the path.
pub directory_of-join :
    (xs name : Bytes) → has_slash name ≡ false → directory_of (xs ++ (slash ∷ name)) ≡ xs
unfolding directory_of
directory_of-join [] name h = rw h refl
directory_of-join (x ∷ xs) name h = rw (has_slash-join xs name, directory_of-join xs name h) refl

hex_digit_no_slash : (d : ℕ) → (hex_digit d == slash) ≡ false
hex_digit_no_slash d = ground arith

has_slash-append :
    (xs ys : Bytes) → has_slash xs ≡ false → has_slash ys ≡ false → has_slash (xs ++ ys) ≡ false
has_slash-append [] ys h k = k
has_slash-append (x ∷ xs) ys h k = elim (Bool-cases (x == slash)) [
  | inl e ↦ let bad : has_slash (x ∷ xs) ≡ true = rw e refl in cc
  | inr e ↦ rw e (has_slash-append xs ys (rw e at h) k)
]

has_slash-hex_bytes : (bs : Bytes) → has_slash (hex_bytes bs) ≡ false
unfolding hex_bytes
has_slash-hex_bytes [] = refl
has_slash-hex_bytes (b ∷ bs) =
    rw (hex_digit_no_slash (b / 16), hex_digit_no_slash (b % 16)) (has_slash-hex_bytes bs)

has_slash-hex_loop :
    (fuel n : ℕ) (digits : Bytes)
    → has_slash digits ≡ false
    → has_slash (hex_loop fuel n digits) ≡ false
unfolding hex_loop
has_slash-hex_loop zero n digits h = h
has_slash-hex_loop (suc fuel) n digits h =
    let one : has_slash (hex_digit (n % 16) ∷ digits) ≡ false =
      rw (hex_digit_no_slash (n % 16)) h in
    elim (Bool-cases (n / 16 == 0)) [
      | inl e ↦ rw e one
      | inr e ↦ rw e (has_slash-hex_loop fuel (n / 16) (hex_digit (n % 16) ∷ digits) one)
    ]

take-join : (n : ℕ) (xs ys : Bytes) → take (length xs + n) (xs ++ ys) ≡ xs ++ take n ys
take-join n [] ys = let e : 0 + n ≡ n = omega arith in rw e refl
take-join n (x ∷ xs) ys =
    let more : suc (length xs) + n ≡ suc (length xs + n) = omega arith in
    rw (more, take-join n xs ys) refl

-- The directories of an item two levels below the repository
join-directories :
    (repo_path rest : Bytes) (a b c : ℕ)
    → (a == slash) ≡ false
    → (b == slash) ≡ false
    → (c == slash) ≡ false
    → has_slash rest ≡ false
    → let full = repo_path ++ (slash ∷ a ∷ slash ∷ b ∷ c ∷ slash ∷ rest) in
      (directory_of full ≡ take (length repo_path + 5) full)
      × (directory_of (take (length repo_path + 5) full) ≡ take (length repo_path + 2) full)
      × (directory_of (take (length repo_path + 2) full) ≡ repo_path)
join-directories repo_path rest a b c ha hb hc h =
    let full = repo_path ++ (slash ∷ a ∷ slash ∷ b ∷ c ∷ slash ∷ rest) in
    let outer = repo_path ++ (slash ∷ a ∷ []) in
    let inner = repo_path ++ (slash ∷ a ∷ slash ∷ b ∷ c ∷ []) in
    let is_inner : take (length repo_path + 5) full ≡ inner =
      take-join 5 repo_path (slash ∷ a ∷ slash ∷ b ∷ c ∷ slash ∷ rest) in
    let is_outer : take (length repo_path + 2) full ≡ outer =
      take-join 2 repo_path (slash ∷ a ∷ slash ∷ b ∷ c ∷ slash ∷ rest) in
    let split : inner ++ (slash ∷ rest) ≡ full =
      append_assoc repo_path (slash ∷ a ∷ slash ∷ b ∷ c ∷ []) (slash ∷ rest) in
    let split' : outer ++ (slash ∷ b ∷ c ∷ []) ≡ inner =
      append_assoc repo_path (slash ∷ a ∷ []) (slash ∷ b ∷ c ∷ []) in
    (
      ap directory_of (sym split) ∙ directory_of-join inner rest h ∙ sym is_inner,
      ap directory_of (is_inner ∙ sym split')
          ∙ directory_of-join outer (b ∷ c ∷ []) (rw (hb, hc) refl)
          ∙ sym is_outer,
      ap directory_of is_outer ∙ directory_of-join repo_path (a ∷ []) (rw ha refl),
    )

-- The directories of a stored file
pub path_with_info-directories :
    (repo_path : Bytes) (i : RegularFileInfo)
    → let full = path_with_info repo_path i in
      (directory_of full ≡ take (length repo_path + 5) full)
      × (directory_of (take (length repo_path + 5) full) ≡ take (length repo_path + 2) full)
      × (directory_of (take (length repo_path + 2) full) ≡ repo_path)
unfolding path_with_info build_file_path
path_with_info-directories repo_path i =
    let first = get_or i.hash 0 0 in
    let second = get_or i.hash 1 0 in
    let name =
      hex_bytes (drop 2 i.hash)
      ++ (b'x' ∷ (hex_loop 16 i.size [] ++ (b'x' ∷ hex_loop 16 i.slot []))) in
    let no_slash : has_slash (hex_digit (second % 16) ∷ name) ≡ false =
      rw (hex_digit_no_slash (second % 16)) (
        has_slash-append (hex_bytes (drop 2 i.hash)) _ (has_slash-hex_bytes (drop 2 i.hash)) (
          has_slash-append (hex_loop 16 i.size []) _ (has_slash-hex_loop 16 i.size [] refl)
            (has_slash-hex_loop 16 i.slot [] refl))) in
    join-directories repo_path (hex_digit (second % 16) ∷ name) (hex_digit (first / 16))
      (hex_digit (first % 16)) (hex_digit (second / 16)) (hex_digit_no_slash (first / 16))
      (hex_digit_no_slash (first % 16)) (hex_digit_no_slash (second / 16)) no_slash
