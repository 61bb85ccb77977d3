-- ===== src/Str.antt =====
-- src/str.c and src/str.h: string views and paths. The bytes of a view are its `length` bytes at
-- `content`; the byte behind them is part of the model only as the flag `is_terminated`. The
-- allocators that the copying functions take are not modelled: a copy is its bytes.
pub mod Split
pub mod Paths
pub mod Dots
use nano_backup.Prelude.{ℕ, zero, suc, ◌+◌, ◌-◌, Bool, true, false, ◌&&◌, ◌||◌, not, List, [], ◌∷◌}
use nano_backup.Prelude.{◌++◌, ltb, leb, ◌==◌, if◌then◌else◌, bytes_eq, length, get_or, take, drop}
use nano_backup.Prelude.{Result, ok, ◌>>=◌, ◌>>◌}
use nano_backup.SafeMath.{size_add}

abbrev pub Bytes : Type 0
Bytes = List ℕ

abbrev pub slash : ℕ
slash = b'/'

abbrev pub dot : ℕ
dot = b'.'

abbrev pub space : ℕ
space = 32

abbrev pub tab : ℕ
tab = 9

pub record StringView : Type 0 where
  pub content : Bytes
  pub is_terminated : Bool

pub record PathSplit : Type 0 where
  pub head : StringView
  pub tail : StringView

-- str()
abbrev pub str : Bytes → StringView
str string = record { content = string; is_terminated = true }

-- strUnterminated(), at the bytes that lie in the given memory
abbrev pub str_unterminated : Bytes → ℕ → StringView
str_unterminated string n = record { content = take n string; is_terminated = false }

-- strCopyRaw() and strCopy(): the new object has one byte more, for the terminator.
unfoldable pub str_copy : StringView → Result StringView
str_copy string = do size_add (length string.content) 1; ok (str string.content)

-- The loop of strStripTrailingSlashes(), from `new_length`.
unfoldable pub strip_loop : Bytes → ℕ → ℕ
strip_loop content zero = zero
strip_loop content (suc n) =
    let rest = strip_loop content n in if get_or content n 0 == slash then rest else suc n

unfoldable pub strip_trailing_slashes : StringView → StringView
unfolding strip_loop
strip_trailing_slashes string =
    let n = strip_loop string.content (length string.content) in
    record {
      content = take n string.content;
      is_terminated = (n == length string.content) && string.is_terminated;
    }

-- The first loop of strSplitPath(), from `last_slash`.
unfoldable pub last_slash_loop : Bytes → ℕ → ℕ
last_slash_loop content zero = zero
last_slash_loop content (suc n) =
    let rest = last_slash_loop content n in if get_or content n 0 == slash then suc n else rest

-- The second loop, which goes on while the slash is preceded by another.
unfoldable pub first_slash_loop : Bytes → ℕ → ℕ
first_slash_loop content zero = zero
first_slash_loop content (suc zero) = suc zero
first_slash_loop content (suc (suc n)) =
    let rest = first_slash_loop content (suc n) in
    if get_or content n 0 == slash then rest else suc (suc n)

unfoldable pub split_path : StringView → PathSplit
unfolding last_slash_loop first_slash_loop
split_path path =
    let last_slash =
      first_slash_loop path.content (last_slash_loop path.content (length path.content)) in
    record {
      head = record {
        content = take (if ltb 0 last_slash then last_slash - 1 else 0) path.content;
        is_terminated = false;
      };
      tail = record { content = drop last_slash path.content; is_terminated = path.is_terminated };
    }

abbrev pub is_empty : StringView → Bool
is_empty string = length string.content == 0

-- memcmp() over the length of `a` is reached only for equal lengths.
unfoldable pub is_equal : StringView → StringView → Bool
unfolding bytes_eq
is_equal a b = (length a.content == length b.content) && bytes_eq a.content b.content

unfoldable pub whitespace_only : Bytes → Bool
whitespace_only [] = true
whitespace_only (c ∷ rest) =
    if not (c == space) && not (c == tab) then false else whitespace_only rest

abbrev pub is_whitespace_only : StringView → Bool
is_whitespace_only string = whitespace_only string.content

unfoldable pub is_dot_element : StringView → Bool
is_dot_element string =
    (length string.content == 1 && get_or string.content 0 0 == dot)
    || (length string.content == 2
        && get_or string.content 0 0 == dot
        && get_or string.content 1 0 == dot)

-- strPathContainsDotElements(): the head is shorter than the path, so a fuel of its length and one
-- is enough.
unfoldable pub contains_dot_loop : ℕ → StringView → Bool
contains_dot_loop zero path = false
contains_dot_loop (suc fuel) path =
    let split = split_path path in
    let rest = contains_dot_loop fuel split.head in
    is_dot_element split.tail || (ltb 0 (length split.head.content) && rest)

unfoldable pub path_contains_dot_elements : StringView → Bool
unfolding contains_dot_loop
path_contains_dot_elements path = contains_dot_loop (suc (length path.content)) path

-- The byte and the memcmp() are read only behind the test on the lengths.
unfoldable pub is_parent_path : StringView → StringView → Bool
unfolding bytes_eq
is_parent_path parent path =
    ltb (length parent.content) (length (strip_trailing_slashes path).content)
    && get_or path.content (length parent.content) 0 == slash
    && bytes_eq (take (length parent.content) path.content) parent.content

unfoldable pub append_path : StringView → StringView → Result StringView
append_path path filename = do
  n ← size_add (length path.content) 1
  new_path_length ← size_add n (length filename.content)
  size_add new_path_length 1
  ok (str (path.content ++ (slash ∷ filename.content)))
