-- ===== src/Tests/Strings.antt =====
-- Instances of the theorems on strings, paths, checked arithmetic and hints.
use Prim.Native.Nat.{bit_and}
use nano_backup.Prelude.{ℕ, length, not, ◌==◌}
use nano_backup.Streams.Lines.{s_read_line, s_read_line_lem}
use nano_backup.Prelude.{
  ◌-◌, ◌^◌, ◌<◌, ◌≡◌, refl, arith, true, false, [], ◌∷◌, ◌++◌, ltb, ◌&&◌, ◌||◌,
}
use nano_backup.Prelude.{ok, die, object_size_overflow}
use nano_backup.SafeMath.{size_add, size_mul}
use nano_backup.SafeMath.Bounds.{size_add_exact, size_mul_exact}
use nano_backup.Str.{
  Bytes, StringView, str, slash, split_path, append_path, is_parent_path, is_dot_element,
  path_contains_dot_elements, strip_trailing_slashes,
}
use nano_backup.Str.Split.{split_path-whole, split_path-name, NoSlash, OnlySlashes, NoTrailingSlash}
use nano_backup.Str.Paths.{
  strip_trailing_slashes-append, split_path-append_path, is_parent_path_sound,
  is_parent_path-append,
}
use nano_backup.Str.Dots.{path_contains_dot_elements-whole}
use nano_backup.Hint.{hint_set, hint_no_pol, bh_removed}
use nano_backup.Hint.Laws.{hint_limit, hint_set_exclusive}

-- "/a", "b" and two slashes
abbrev head : Bytes
head = slash ∷ b'a' ∷ []

abbrev name : Bytes
name = b'b' ∷ []

abbrev slashes : Bytes
slashes = slash ∷ slash ∷ []

slashes-OnlySlashes : OnlySlashes slashes
slashes-OnlySlashes = (refl, (refl, tt))

name-NoSlash : NoSlash name
name-NoSlash = (omega arith, tt)

head-NoTrailingSlash : NoTrailingSlash head
head-NoTrailingSlash p = omega arith

name-NoTrailingSlash : NoTrailingSlash name
name-NoTrailingSlash p = omega arith

split_path-whole_example :
    split_path (str (slash ∷ b'a' ∷ slash ∷ slash ∷ slash ∷ b'b' ∷ [])) ≡ record {
      head = record { content = slash ∷ b'a' ∷ []; is_terminated = false };
      tail = record { content = slash ∷ slash ∷ b'b' ∷ []; is_terminated = true };
    }
split_path-whole_example =
    split_path-whole head slashes name slashes-OnlySlashes name-NoSlash head-NoTrailingSlash true

split_path-name_example : split_path (str (b'b' ∷ [])) ≡ record {
  head = record { content = []; is_terminated = false };
  tail = record { content = b'b' ∷ []; is_terminated = true };
}
split_path-name_example = split_path-name name true name-NoSlash

strip_trailing_slashes-append_example :
    (strip_trailing_slashes (str (slash ∷ b'a' ∷ slash ∷ slash ∷ []))).content ≡ slash ∷ b'a' ∷ []
strip_trailing_slashes-append_example =
    strip_trailing_slashes-append head slashes slashes-OnlySlashes head-NoTrailingSlash true

split_path-append_path_example :
    (joined : StringView) × (append_path (str head) (str name) ≡ ok joined)
    × ((split_path joined).head.content ≡ head)
    × ((split_path joined).tail.content ≡ name)
split_path-append_path_example =
    split_path-append_path head name (omega arith) head-NoTrailingSlash name-NoSlash

head_is_parent : is_parent_path (str head) (str (slash ∷ b'a' ∷ slash ∷ b'b' ∷ slash ∷ [])) ≡ true
unfolding is_parent_path strip_trailing_slashes
head_is_parent = refl

is_parent_path_sound_example :
    slash ∷ b'a' ∷ slash ∷ b'b' ∷ slash ∷ [] ≡ head ++ (slash ∷ (b'b' ∷ slash ∷ []))
is_parent_path_sound_example =
    is_parent_path_sound (str head) (str (slash ∷ b'a' ∷ slash ∷ b'b' ∷ slash ∷ [])) head_is_parent

is_parent_path-append_example :
    is_parent_path (str head) (str (slash ∷ b'a' ∷ slash ∷ b'b' ∷ slash ∷ slash ∷ [])) ≡ true
is_parent_path-append_example =
    is_parent_path-append head name slashes (omega arith) name-NoTrailingSlash slashes-OnlySlashes

path_contains_dot_elements-whole_example :
    path_contains_dot_elements (str (slash ∷ b'a' ∷ slash ∷ slash ∷ slash ∷ b'b' ∷ [])) ≡ (
      is_dot_element (str (slash ∷ slash ∷ b'b' ∷ []))
      || (ltb 0 2 && path_contains_dot_elements (record { content = head; is_terminated = false })))
path_contains_dot_elements-whole_example =
    path_contains_dot_elements-whole head slashes name slashes-OnlySlashes name-NoSlash
      head-NoTrailingSlash

size_add_exact_example : size_add (2 ^ 64 - 1) 1 ≡ die object_size_overflow
size_add_exact_example = size_add_exact (2 ^ 64 - 1) 1 (omega arith) (omega arith)

size_mul_exact_example : size_mul (2 ^ 33) (2 ^ 31) ≡ die object_size_overflow
size_mul_exact_example = size_mul_exact (2 ^ 33) (2 ^ 31) (omega arith) (omega arith)

hint_set_exclusive_example :
    (hint_no_pol (hint_set 1551 bh_removed) ≡ bh_removed)
    × (bit_and (hint_set 1551 bh_removed) 0x600 ≡ bit_and 1551 0x600)
    × (hint_set 1551 bh_removed < hint_limit)
hint_set_exclusive_example =
    hint_set_exclusive 1551 bh_removed (omega arith) (omega arith) (omega arith)

s_read_line_lem_example :
    ((capacity : ℕ) × (s_read_line ((b'a' ∷ b'b' ∷ []) ++ (10 ∷ (b'c' ∷ [])))
        ≡ ok (true, b'a' ∷ b'b' ∷ [], capacity, b'c' ∷ []))
      × (length {A = ℕ} (b'a' ∷ b'b' ∷ []) < capacity))
    × ((capacity : ℕ) × (s_read_line (b'a' ∷ b'b' ∷ [])
          ≡ ok (not (length {A = ℕ} (b'a' ∷ b'b' ∷ []) == 0), b'a' ∷ b'b' ∷ [], capacity, []))
        × (length {A = ℕ} (b'a' ∷ b'b' ∷ []) < capacity))
s_read_line_lem_example =
    s_read_line_lem (b'a' ∷ b'b' ∷ []) (b'c' ∷ []) 10 (refl, (refl, tt)) refl (omega arith)

grown_line :
    s_read_line (b'a' ∷ b'b' ∷ b'c' ∷ b'd' ∷ []) ≡ ok (true, b'a' ∷ b'b' ∷ b'c' ∷ b'd' ∷ [], 8, [])
unfolding s_read_line size_mul
grown_line = refl
