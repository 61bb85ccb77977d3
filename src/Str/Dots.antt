-- ===== src/Str/Dots.antt =====
-- strPathContainsDotElements() of src/str.c: the fuel of its model is enough, and the recursion
-- goes over the elements of a path.
use nano_backup.Prelude.{length-append, ℕ, zero, suc, ◌-◌, ◌≤◌, ◌<◌, ◌≡◌, refl, arith, length, ◌∙◌}
use nano_backup.Prelude.{
  true, false, Bool-cases, inl, inr, ltb, ltb→lt, ◌&&◌, ◌||◌, length-take, ◌++◌, ◌∷◌,
}
use nano_backup.Str.{Bytes, StringView, slash, split_path, contains_dot_loop, is_dot_element, str}
use nano_backup.Str.{path_contains_dot_elements, first_slash_loop, last_slash_loop}
use nano_backup.Str.Split.{
  first_slash_loop-le, last_slash_loop-le, NoSlash, OnlySlashes, split_path-whole,
}
use nano_backup.Str.Split.{NoTrailingSlash}

-- The head of a split is empty or shorter than the path.
head-lt :
    (p : StringView)
    → 0 < length (split_path p).head.content
    → length (split_path p).head.content < length p.content
unfolding split_path
head-lt p h =
    let a : ℕ = last_slash_loop p.content (length p.content) in
    let b : ℕ = first_slash_loop p.content a in
    let le : b ≤ length p.content =
      omega
        (arith, first_slash_loop-le p.content a, last_slash_loop-le p.content (length p.content)) in
    ground (arith, length-take {0} (b - 1) p.content (omega (arith, le)), le)

contains_dot_loop-fuel :
    (f g : ℕ) (p : StringView)
    → length p.content < f
    → length p.content < g
    → contains_dot_loop f p ≡ contains_dot_loop g p
unfolding contains_dot_loop
contains_dot_loop-fuel zero g p a b = absurd (omega arith)
contains_dot_loop-fuel (suc f) zero p a b = absurd (omega arith)
contains_dot_loop-fuel (suc f) (suc g) p a b =
    elim (Bool-cases (ltb 0 (length (split_path p).head.content))) [
      | inl e ↦
          let shorter : length (split_path p).head.content < length p.content =
            head-lt p (ltb→lt _ _ e) in
          rw (contains_dot_loop-fuel f g (split_path p).head (omega arith) (omega arith)) refl
      | inr e ↦ rw e refl
    ]

contains_dot_loop-suc :
    (f : ℕ) (p : StringView)
    → contains_dot_loop (suc f) p ≡ (
        is_dot_element (split_path p).tail
        || (ltb 0 (length (split_path p).head.content) && contains_dot_loop f (split_path p).head))
unfolding contains_dot_loop
contains_dot_loop-suc f p = refl

-- A path of a head, slashes and a name without slashes contains a dot element exactly if the rest
-- behind the first of these slashes is "." or "..", or if the head is not empty and contains one.
pub path_contains_dot_elements-whole :
    (head slashes name : Bytes)
    → OnlySlashes slashes
    → NoSlash name
    → NoTrailingSlash head
    → path_contains_dot_elements (str (head ++ (slash ∷ (slashes ++ name)))) ≡ (
        is_dot_element (str (slashes ++ name))
        || (ltb 0 (length head)
            && path_contains_dot_elements (record { content = head; is_terminated = false })))
unfolding path_contains_dot_elements
path_contains_dot_elements-whole head slashes name o n h =
    let whole : Bytes = head ++ (slash ∷ (slashes ++ name)) in
    contains_dot_loop-suc (length whole) (str whole)
    ∙ rw (split_path-whole head slashes name o n h true) (
        ground (
          arith,
          contains_dot_loop-fuel (length whole) (suc (length head))
              (record { content = head; is_terminated = false })
              (omega (arith, length-append {0} head (slash ∷ (slashes ++ name)))) (omega arith),
        ))
