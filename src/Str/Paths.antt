-- ===== src/Str/Paths.antt =====
-- strStripTrailingSlashes(), strAppendPath() and strIsParentPath() of src/str.c, on paths.
use nano_backup.Prelude.{
  ℕ, zero, suc, ◌+◌, ◌-◌, ◌^◌, ◌≤◌, ◌<◌, ◌≡◌, ◌≢◌, refl, arith, [], ◌∷◌, ◌++◌,
}
use nano_backup.Prelude.{length, get_or, take, drop, ◌∙◌, ap, length-append, Bool-cases}
use nano_backup.Prelude.{true, ◌==◌, get_or-append_left, take-append, Bool, inl, inr, ok}
use nano_backup.Prelude.{bytes_eq_refl, eq_of_bytes_eq, append_assoc}
use nano_backup.Prelude.{length-take}
use nano_backup.SafeMath.Bounds.{size_add-eq-ok}
use nano_backup.Str.{Bytes, StringView, slash, split_path, strip_loop, strip_trailing_slashes, str}
use nano_backup.Str.{append_path, is_parent_path}
use nano_backup.Str.Split.{NoSlash, OnlySlashes, NoTrailingSlash, get_or-All, get_or-skip}
use nano_backup.Str.Split.{split_path-whole}

strip_loop-skip :
    (s : Bytes) (a n : ℕ)
    → a ≤ n
    → ((i : ℕ) → a ≤ i → i < n → get_or s i 0 ≡ slash)
    → strip_loop s n ≡ strip_loop s a
unfolding strip_loop
strip_loop-skip s zero zero p h = refl
strip_loop-skip s (suc a) zero p h = absurd (omega arith)
strip_loop-skip s a (suc n) p h = elim (Bool-cases (a == suc n)) [
  | inl e ↦ let e' : a ≡ suc n = ground arith in rw e' refl
  | inr e ↦ ground (
    arith,
    h n (ground arith) (ground arith),
    strip_loop-skip s a n (ground arith) (λ i q r. h i q (omega arith)),
  )
]

strip_loop-stop : (s : Bytes) (a : ℕ) → (0 < a → get_or s (a - 1) 0 ≢ slash) → strip_loop s a ≡ a
unfolding strip_loop
strip_loop-stop s zero h = refl
strip_loop-stop s (suc n) h =
    let e : suc n - 1 ≡ n = omega arith in
    let h' : get_or s n 0 ≢ slash = rw e at (h (omega arith)) in ground arith

module _ (h slashes : Bytes) (o : OnlySlashes slashes) (n : NoTrailingSlash h) where
  strip_loop-append : strip_loop (h ++ slashes) (length (h ++ slashes)) ≡ length h
  strip_loop-append =
      strip_loop-skip (h ++ slashes) (length h) (length (h ++ slashes))
        (omega (arith, length-append {0} h slashes))
        (λ i p q.
          get_or-skip h slashes i p
          ∙ get_or-All (λ c. c ≡ slash) slashes (i - length h) o
              (omega (arith, length-append {0} h slashes)))
      ∙ strip_loop-stop (h ++ slashes) (length h)
          (λ p. rw (get_or-append_left h slashes (length h - 1) 0 (omega arith)) (n p))

  -- Of a string that does not end in a slash, followed by slashes, the string is left, whether or
  -- not the view is terminated.
  pub strip_trailing_slashes-append :
      (t : Bool)
      → (strip_trailing_slashes (record { content = h ++ slashes; is_terminated = t })).content ≡ h
  unfolding strip_trailing_slashes
  strip_trailing_slashes-append t = rw strip_loop-append (take-append (length h) h slashes refl)

pub NoSlash→NoTrailingSlash : (s : Bytes) → NoSlash s → NoTrailingSlash s
NoSlash→NoTrailingSlash s n p = get_or-All (λ c. c ≢ slash) s (length s - 1) n (omega arith)

-- The bytes of an appended path.
pub append_path-eq-ok :
    (path filename : Bytes) (t u : Bool)
    → length path + length filename + 2 < 2 ^ 64
    → append_path
        (record { content = path; is_terminated = t })
        (record { content = filename; is_terminated = u })
      ≡ ok (str (path ++ (slash ∷ filename)))
unfolding append_path
append_path-eq-ok path filename t u h = rw (size_add-eq-ok (length path) 1 (omega arith)) (
    rw (size_add-eq-ok (length path + 1) (length filename) (omega arith))
      (rw (size_add-eq-ok (length path + 1 + length filename) 1 (omega arith)) refl))

-- Appending a name without slashes to a path that does not end in a slash has a result when the new
-- size is below 2 ^ 64, and splitting the result gives the path and the name.
pub split_path-append_path :
    (path filename : Bytes)
    → length path + length filename + 2 < 2 ^ 64
    → NoTrailingSlash path
    → NoSlash filename
    → (joined : StringView) × (append_path (str path) (str filename) ≡ ok joined)
      × ((split_path joined).head.content ≡ path)
      × ((split_path joined).tail.content ≡ filename)
split_path-append_path path filename b p f = (
  str (path ++ (slash ∷ filename)),
  append_path-eq-ok path filename true true b,
  ap (λ s. s.head.content) (split_path-whole path [] filename tt f p true),
  ap (λ s. s.tail.content) (split_path-whole path [] filename tt f p true),
)

strip_loop-le : (s : Bytes) (n : ℕ) → strip_loop s n ≤ n
unfolding strip_loop
strip_loop-le s zero = omega arith
strip_loop-le s (suc n) = ground (arith, strip_loop-le s n)

pub length-strip_trailing_slashes :
    (s : StringView) → length (strip_trailing_slashes s).content ≤ length s.content
unfolding strip_trailing_slashes
length-strip_trailing_slashes s =
    let le : strip_loop s.content (length s.content) ≤ length s.content =
      strip_loop-le s.content (length s.content) in
    omega (arith, length-take {0} (strip_loop s.content (length s.content)) s.content le)

split_at : (s : Bytes) (n : ℕ) → n < length s → s ≡ take n s ++ (get_or s n 0 ∷ drop (n + 1) s)
split_at [] n h = absurd (omega arith)
split_at (c ∷ s) zero h = refl
split_at (c ∷ s) (suc n) h =
    let e : suc n + 1 ≡ suc (n + 1) = omega arith in
    rw e (ap (λ t. c ∷ t) (split_at s n (omega arith)))

-- If strIsParentPath holds, then the path is the parent, a slash and further bytes.
pub is_parent_path_sound :
    (parent path : StringView)
    → is_parent_path parent path ≡ true
    → path.content ≡ parent.content ++ (slash ∷ drop (length parent.content + 1) path.content)
unfolding is_parent_path
is_parent_path_sound parent path h =
    let n : ℕ = length parent.content in
    let short : n < length path.content = ground (arith, length-strip_trailing_slashes path) in
    let byte : get_or path.content n 0 ≡ slash = ground arith in
    let same : take n path.content ≡ parent.content =
      eq_of_bytes_eq (take n path.content) parent.content (ground arith) in
    cc (split_at path.content n short, byte, same)

NoTrailingSlash-append : (h f : Bytes) → NoTrailingSlash f → 0 < length f → NoTrailingSlash (h ++ f)
NoTrailingSlash-append h f n p q =
    rw (get_or-skip h f (length (h ++ f) - 1) (omega (arith, length-append {0} h f))) (
      let e : length (h ++ f) - 1 - length h ≡ length f - 1 =
        omega (arith, length-append {0} h f) in
      rw e (n p))

-- A path is a parent of itself with a name that is not empty and does not end in a slash appended,
-- and any number of slashes behind that.
pub is_parent_path-append :
    (path filename slashes : Bytes)
    → 0 < length filename
    → NoTrailingSlash filename
    → OnlySlashes slashes
    → is_parent_path (str path) (str ((path ++ (slash ∷ filename)) ++ slashes)) ≡ true
unfolding is_parent_path
is_parent_path-append path filename slashes p n o =
    let whole : Bytes = (path ++ (slash ∷ filename)) ++ slashes in
    let joined : whole ≡ path ++ (slash ∷ (filename ++ slashes)) =
      append_assoc path (slash ∷ filename) slashes in
    let front : take (length path) whole ≡ path =
      rw joined (take-append (length path) path (slash ∷ (filename ++ slashes)) refl) in
    let byte : get_or whole (length path) 0 ≡ slash = rw joined (
      get_or-skip path (slash ∷ (filename ++ slashes)) (length path) (omega arith)
      ∙ let e : length path - length path ≡ 0 = omega arith in rw e refl) in
    let stripped : (strip_trailing_slashes (str whole)).content ≡ path ++ (slash ∷ filename) =
      strip_trailing_slashes-append (path ++ (slash ∷ filename)) slashes o
        (NoTrailingSlash-append path (slash ∷ filename)
          (NoTrailingSlash-append (slash ∷ []) filename n p) (omega arith))
        true in
    rw (stripped, front, byte)
      (ground (arith, bytes_eq_refl path, length-append {0} path (slash ∷ filename)))
