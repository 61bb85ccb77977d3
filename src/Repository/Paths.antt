-- ===== src/Repository/Paths.antt =====
-- buildFilePath() of src/repository.c: two files with the same path have the same info.
use nano_backup.Prelude.{
  ℕ, zero, suc, ◌+◌, ◌-◌, ◌*◌, ◌/◌, ◌%◌, ◌^◌, ◌<◌, ◌≤◌, ◌≡◌, ◌≢◌, refl, ap, sym, ◌∙◌, arith,
  Bool-cases, true, [], ◌∷◌, ◌++◌, drop, take, length, All, get_or, length-append, length-drop,
  take-append, drop-append, ltb, ◌==◌, ==_iff, if◌then◌else◌, inl, inr,
}
use nano_backup.Str.{Bytes, slash}
use nano_backup.Metadata.{RegularFileInfo, file_hash_size}
use nano_backup.Repository.{hex_digit, hex_loop, hex_bytes, build_file_path}
use nano_backup.Repository.Store.{path_with_info}

abbrev digit_value : ℕ → ℕ
digit_value c = if ltb c 58 then c - 48 else c - 87

digit_value-hex_digit : (d : ℕ) → d < 16 → digit_value (hex_digit d) ≡ d
digit_value-hex_digit d h = ground arith

hex_digit_not_x : (d : ℕ) → d < 16 → hex_digit d ≢ b'x'
hex_digit_not_x d h = ground arith

abbrev hex_value : ℕ → Bytes → ℕ
hex_value n [] = n
hex_value n (c ∷ cs) = hex_value (n * 16 + digit_value c) cs

hex_last :
    (n : ℕ) (digits : Bytes) → hex_value (n / 16) (hex_digit (n % 16) ∷ digits) ≡ hex_value n digits
hex_last n digits =
    let d : digit_value (hex_digit (n % 16)) ≡ n % 16 =
      digit_value-hex_digit (n % 16) (omega arith) in
    let e : n / 16 * 16 + n % 16 ≡ n = omega arith in rw (d, e) refl

hex_first :
    (n : ℕ) (digits : Bytes)
    → n / 16 ≡ 0
    → hex_value 0 (hex_digit (n % 16) ∷ digits) ≡ hex_value n digits
hex_first n digits h =
    ap (λ k. hex_value k (hex_digit (n % 16) ∷ digits)) (sym h) ∙ hex_last n digits

-- Reading the digits gives back the number.
hex_value-hex_loop :
    (fuel n : ℕ) (digits : Bytes)
    → n < 16 ^ suc fuel
    → hex_value 0 (hex_loop (suc fuel) n digits) ≡ hex_value n digits
unfolding hex_loop
hex_value-hex_loop zero n digits h =
    let small : n / 16 ≡ 0 = omega arith in
    let e : (n / 16 == 0) ≡ true = (==_iff (n / 16) 0).1 small in rw e (hex_first n digits small)
hex_value-hex_loop (suc fuel) n digits h = elim (Bool-cases (n / 16 == 0)) [
  | inl e ↦ rw e (hex_first n digits ((==_iff (n / 16) 0).0 e))
  | inr e ↦
      let below : n / 16 < 16 ^ suc fuel = omega arith in
      rw e
        (hex_value-hex_loop fuel (n / 16) (hex_digit (n % 16) ∷ digits) below ∙ hex_last n digits)
]

abbrev NoX : Bytes → Type 0
NoX = All (λ c. c ≢ b'x')

hex_loop-NoX : (fuel n : ℕ) (digits : Bytes) → NoX digits → NoX (hex_loop fuel n digits)
unfolding hex_loop
hex_loop-NoX zero n digits h = h
hex_loop-NoX (suc fuel) n digits h = elim (Bool-cases (n / 16 == 0)) [
  | inl e ↦ rw e (hex_digit_not_x (n % 16) (omega arith), h)
  | inr e ↦ rw e (
      hex_loop-NoX fuel (n / 16) (hex_digit (n % 16) ∷ digits)
        (hex_digit_not_x (n % 16) (omega arith), h))
]

-- A text is cut at its first 'x'.
cut_at_x :
    (xs ys cs ds : Bytes)
    → NoX xs
    → NoX ys
    → xs ++ (b'x' ∷ cs) ≡ ys ++ (b'x' ∷ ds)
    → (xs ≡ ys) × (cs ≡ ds)
cut_at_x [] [] cs ds h k e = (refl, ap (drop 1) e)
cut_at_x [] (y ∷ ys) cs ds h k e = absurd (k.0 (sym (ap (λ t. get_or t 0 0) e)))
cut_at_x (x ∷ xs) [] cs ds h k e = absurd (h.0 (ap (λ t. get_or t 0 0) e))
cut_at_x (x ∷ xs) (y ∷ ys) cs ds h k e =
    let first : x ≡ y = ap (λ t. get_or t 0 0) e in
    let rest = cut_at_x xs ys cs ds h.1 k.1 (ap (drop 1) e) in (rw (first, rest.0) refl, rest.1)

hex_loop_injective :
    (n m : ℕ) → n < 2 ^ 64 → m < 2 ^ 64 → hex_loop 16 n [] ≡ hex_loop 16 m [] → n ≡ m
hex_loop_injective n m h k e =
    sym (hex_value-hex_loop 15 n [] h) ∙ ap (hex_value 0) e ∙ hex_value-hex_loop 15 m [] k

abbrev pub IsByte : ℕ → Type 0
IsByte c = c < 256

hex_digit_injective : (d e : ℕ) → d < 16 → e < 16 → hex_digit d ≡ hex_digit e → d ≡ e
hex_digit_injective d e h k s = ground arith

byte_injective :
    (a b : ℕ)
    → a < 256
    → b < 256
    → hex_digit (a / 16) ≡ hex_digit (b / 16)
    → hex_digit (a % 16) ≡ hex_digit (b % 16)
    → a ≡ b
byte_injective a b h k u l = omega (
  arith,
  hex_digit_injective (a / 16) (b / 16) (omega arith) (omega arith) u,
  hex_digit_injective (a % 16) (b % 16) (omega arith) (omega arith) l,
)

hex_bytes_injective :
    (xs ys : Bytes) → All IsByte xs → All IsByte ys → hex_bytes xs ≡ hex_bytes ys → xs ≡ ys
unfolding hex_bytes
hex_bytes_injective [] [] h k e = refl
hex_bytes_injective [] (y ∷ ys) h k e = cc
hex_bytes_injective (x ∷ xs) [] h k e = cc
hex_bytes_injective (x ∷ xs) (y ∷ ys) h k e =
    let first = byte_injective x y h.0 k.0 (ap (λ t. get_or t 0 0) e) (ap (λ t. get_or t 1 0) e) in
    rw (first, hex_bytes_injective xs ys h.1 k.1 (ap (drop 2) e)) refl

length-hex_bytes : (xs : Bytes) → length (hex_bytes xs) ≡ 2 * length xs
unfolding hex_bytes
length-hex_bytes [] = refl
length-hex_bytes (x ∷ xs) = omega (arith, length-hex_bytes xs)

-- A RegularFileInfo as the program's types allow it: 20 bytes of hash, uint64_t size, uint8_t slot
pub record IsInfo (i : RegularFileInfo) : Type 0 where
  pub hash_length : length i.hash ≡ file_hash_size
  pub hash_bytes : All IsByte i.hash
  pub size_bound : i.size < 2 ^ 64
  pub slot_bound : i.slot < 256

-- The part of the path that stands for the hash
abbrev hash_part : Bytes → Bytes
hash_part hash =
    hex_digit (get_or hash 0 0 / 16)
    ∷ slash
    ∷ hex_digit (get_or hash 0 0 % 16)
    ∷ hex_digit (get_or hash 1 0 / 16)
    ∷ slash
    ∷ hex_digit (get_or hash 1 0 % 16)
    ∷ hex_bytes (drop 2 hash)

length-hash_part : (hash : Bytes) → length hash ≡ file_hash_size → length (hash_part hash) ≡ 42
length-hash_part hash h = omega (arith, length-hex_bytes (drop 2 hash), length-drop 2 hash)

hash_part_injective :
    (g h : Bytes)
    → length g ≡ file_hash_size
    → length h ≡ file_hash_size
    → All IsByte g
    → All IsByte h
    → hash_part g ≡ hash_part h
    → g ≡ h
hash_part_injective (a ∷ b ∷ g) (c ∷ d ∷ h) l k p q e =
    let first = byte_injective a c p.0 q.0 (ap (λ t. get_or t 0 0) e) (ap (λ t. get_or t 2 0) e) in
    let second =
      byte_injective b d p.1.0 q.1.0 (ap (λ t. get_or t 3 0) e) (ap (λ t. get_or t 5 0) e) in
    rw (first, second, hex_bytes_injective g h p.1.1 q.1.1 (ap (drop 6) e)) refl
hash_part_injective [] h l k p q e = absurd (omega arith)
hash_part_injective (a ∷ []) h l k p q e = absurd (omega arith)
hash_part_injective (a ∷ b ∷ g) [] l k p q e = absurd (omega arith)
hash_part_injective (a ∷ b ∷ g) (c ∷ []) l k p q e = absurd (omega arith)

abbrev numbers_part : RegularFileInfo → Bytes
numbers_part i = b'x' ∷ (hex_loop 16 i.size [] ++ (b'x' ∷ hex_loop 16 i.slot []))

-- buildFilePath() gives two file infos the same path only if they have the same hash, the same size
-- and the same slot, so that the files of a repository never share a path. The infos have the
-- sizes of the program's types.
pub build_file_path_injective :
    (i j : RegularFileInfo)
    → IsInfo i
    → IsInfo j
    → build_file_path i ≡ build_file_path j
    → (i.hash ≡ j.hash) × (i.size ≡ j.size) × (i.slot ≡ j.slot)
unfolding build_file_path
build_file_path_injective i j p q e =
    let whole : hash_part i.hash ++ numbers_part i ≡ hash_part j.hash ++ numbers_part j = e in
    let l = length-hash_part i.hash p.hash_length in
    let k = length-hash_part j.hash q.hash_length in
    let hashes : hash_part i.hash ≡ hash_part j.hash =
      sym (take-append 42 (hash_part i.hash) (numbers_part i) l)
      ∙ ap (take 42) whole
      ∙ take-append 42 (hash_part j.hash) (numbers_part j) k in
    let numbers : numbers_part i ≡ numbers_part j =
      sym (drop-append 42 (hash_part i.hash) (numbers_part i) l)
      ∙ ap (drop 42) whole
      ∙ drop-append 42 (hash_part j.hash) (numbers_part j) k in
    let (sizes, slots) =
      cut_at_x (hex_loop 16 i.size []) (hex_loop 16 j.size []) (hex_loop 16 i.slot [])
        (hex_loop 16 j.slot []) (hex_loop-NoX 16 i.size [] tt) (hex_loop-NoX 16 j.size [] tt)
        (ap (drop 1) numbers) in
    let i_slot = p.slot_bound in
    let j_slot = q.slot_bound in
    (
      hash_part_injective i.hash j.hash p.hash_length q.hash_length p.hash_bytes q.hash_bytes
          hashes,
      hex_loop_injective i.size j.size p.size_bound q.size_bound sizes,
      hex_loop_injective i.slot j.slot (omega arith) (omega arith) slots,
    )

pub path_with_info_injective :
    (repo_path : Bytes) (i j : RegularFileInfo)
    → IsInfo i
    → IsInfo j
    → path_with_info repo_path i ≡ path_with_info repo_path j
    → (i.hash ≡ j.hash) × (i.size ≡ j.size) × (i.slot ≡ j.slot)
unfolding path_with_info
path_with_info_injective repo_path i j p q e =
    let n = length repo_path in
    build_file_path_injective i j p q (
      sym (ap (drop 1) (drop-append n repo_path (slash ∷ build_file_path i) refl))
      ∙ ap (λ t. drop 1 (drop n t)) e
      ∙ ap (drop 1) (drop-append n repo_path (slash ∷ build_file_path j) refl))

length-hex_loop :
    (fuel n : ℕ) (digits : Bytes) → length (hex_loop fuel n digits) ≤ fuel + length digits
unfolding hex_loop
length-hex_loop zero n digits = omega arith
length-hex_loop (suc fuel) n digits = elim (Bool-cases (n / 16 == 0)) [
  | inl e ↦ rw e (omega arith)
  | inr e ↦ rw e (omega (arith, length-hex_loop fuel (n / 16) (hex_digit (n % 16) ∷ digits)))
]

pub length-build_file_path : (i : RegularFileInfo) → IsInfo i → length (build_file_path i) ≤ 76
unfolding build_file_path
length-build_file_path i h =
    let size = hex_loop 16 i.size [] in
    let slot = hex_loop 16 i.slot [] in
    rw (length-append (hash_part i.hash) (numbers_part i), length-append size (b'x' ∷ slot))
      (omega (
        arith,
        length-hash_part i.hash h.hash_length,
        length-hex_loop 16 i.size [],
        length-hex_loop 16 i.slot [],
      ))
