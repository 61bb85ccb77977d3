-- ===== src/Str/Split.antt =====
-- strSplitPath() of src/str.c against a description of the split.
use nano_backup.Prelude.{ℕ, zero, suc, ◌+◌, ◌-◌, ◌≤◌, ◌<◌, ◌≡◌, ◌≢◌, refl, arith, [], ◌∷◌}
use nano_backup.Prelude.{◌++◌, ltb, length, get_or, drop, All, ◌∙◌, length-append}
use nano_backup.Prelude.{inl, inr, Bool-cases, false, ◌==◌}
use nano_backup.Prelude.{if◌then◌else◌, get_or-append_left, get_or-append_right, take-append}
use nano_backup.Prelude.{Bool}
use nano_backup.Str.{Bytes, slash, split_path, last_slash_loop}
use nano_backup.Str.{first_slash_loop}

abbrev pub NoSlash : Bytes → Type 0
NoSlash = All (λ c. c ≢ slash)

abbrev pub OnlySlashes : Bytes → Type 0
OnlySlashes = All (λ c. c ≡ slash)

-- An empty string, or one that does not end in a slash.
abbrev pub NoTrailingSlash : Bytes → Type 0
NoTrailingSlash h = 0 < length h → get_or h (length h - 1) 0 ≢ slash

pub get_or-All {κ} :
    (P : ℕ → Type κ) (s : Bytes) (i : ℕ) → All P s → i < length s → P (get_or s i 0)
get_or-All P [] i a h = absurd (omega arith)
get_or-All P (c ∷ s) zero a h = a.0
get_or-All P (c ∷ s) (suc i) a h = get_or-All P s i a.1 (omega arith)

-- Behind the bytes `h`.
pub get_or-skip :
    (h r : Bytes) (i : ℕ) → length h ≤ i → get_or (h ++ r) i 0 ≡ get_or r (i - length h) 0
get_or-skip [] r i p = let e : i - 0 ≡ i = omega arith in rw e refl
get_or-skip (c ∷ h) r zero p = absurd (omega arith)
get_or-skip (c ∷ h) r (suc i) p =
    let e : suc i - suc (length h) ≡ i - length h = omega arith in
    rw e (get_or-skip h r i (omega arith))

-- The first loop passes over bytes that are no slashes.
last_slash_loop-skip :
    (s : Bytes) (a n : ℕ)
    → a ≤ n
    → ((i : ℕ) → a ≤ i → i < n → get_or s i 0 ≢ slash)
    → last_slash_loop s n ≡ last_slash_loop s a
unfolding last_slash_loop
last_slash_loop-skip s zero zero p h = refl
last_slash_loop-skip s (suc a) zero p h = absurd (omega arith)
last_slash_loop-skip s a (suc n) p h = elim (Bool-cases (a == suc n)) [
  | inl e ↦ let e' : a ≡ suc n = ground arith in rw e' refl
  | inr e ↦ ground (
    arith,
    h n (ground arith) (ground arith),
    last_slash_loop-skip s a n (ground arith) (λ i q r. h i q (omega arith)),
  )
]

-- The second loop passes over the slashes behind position `a`.
first_slash_loop-skip :
    (s : Bytes) (a n : ℕ)
    → 0 < a
    → a ≤ n
    → ((i : ℕ) → a ≤ i + 1 → i + 1 < n → get_or s i 0 ≡ slash)
    → first_slash_loop s n ≡ first_slash_loop s a
unfolding first_slash_loop
first_slash_loop-skip s zero n q p h = absurd (omega arith)
first_slash_loop-skip s (suc a) zero q p h = absurd (omega arith)
first_slash_loop-skip s (suc a) (suc zero) q p h = let e : a ≡ 0 = omega arith in rw e refl
first_slash_loop-skip s (suc a) (suc (suc n)) q p h = elim (Bool-cases (a == suc n)) [
  | inl e ↦ let e' : a ≡ suc n = ground arith in rw e' refl
  | inr e ↦ ground (
    arith,
    h n (ground arith) (ground arith),
    first_slash_loop-skip s (suc a) (suc n) q (ground arith) (λ i u v. h i u (omega arith)),
  )
]

first_slash_loop-stop :
    (s : Bytes) (a : ℕ) → (1 < a → get_or s (a - 2) 0 ≢ slash) → first_slash_loop s a ≡ a
unfolding first_slash_loop
first_slash_loop-stop s zero h = refl
first_slash_loop-stop s (suc zero) h = refl
first_slash_loop-stop s (suc (suc n)) h =
    let e : suc (suc n) - 2 ≡ n = omega arith in
    let h' : get_or s n 0 ≢ slash = rw e at (h (omega arith)) in ground arith

pub drop_behind : (xs : Bytes) (y : ℕ) (ys : Bytes) → drop (length xs + 1) (xs ++ (y ∷ ys)) ≡ ys
drop_behind [] y ys = refl
drop_behind (x ∷ xs) y ys =
    let e : suc (length xs) + 1 ≡ suc (length xs + 1) = omega arith in rw e (drop_behind xs y ys)

pub last_slash_loop-hit :
    (s : Bytes) (a m : ℕ) → a ≡ suc m → get_or s m 0 ≡ slash → last_slash_loop s a ≡ a
unfolding last_slash_loop
last_slash_loop-hit s a m e h = rw e (rw h refl)

pub last_slash_loop-le : (s : Bytes) (n : ℕ) → last_slash_loop s n ≤ n
unfolding last_slash_loop
last_slash_loop-le s zero = omega arith
last_slash_loop-le s (suc n) = ground (arith, last_slash_loop-le s n)

pub first_slash_loop-le : (s : Bytes) (n : ℕ) → first_slash_loop s n ≤ n
unfolding first_slash_loop
first_slash_loop-le s zero = omega arith
first_slash_loop-le s (suc zero) = omega arith
first_slash_loop-le s (suc (suc n)) = ground (arith, first_slash_loop-le s (suc n))

module _ (head slashes name : Bytes) where
  abbrev pub whole : Bytes
  whole = head ++ (slash ∷ (slashes ++ name))

  length-whole : length whole ≡ length head + 1 + length slashes + length name
  length-whole =
      omega
        (arith, length-append {0} head (slash ∷ (slashes ++ name)), length-append {0} slashes name)

  at_slash : get_or whole (length head) 0 ≡ slash
  at_slash =
      let e : length head - length head ≡ 0 = omega arith in
      get_or-skip head (slash ∷ (slashes ++ name)) (length head) (omega arith) ∙ rw e refl

  -- A byte behind the slash.
  behind : (i j : ℕ) → i ≡ length head + suc j → get_or whole i 0 ≡ get_or (slashes ++ name) j 0
  behind i j e = rw e (get_or-append_right head (slash ∷ (slashes ++ name)) (suc j) 0)

  at_name :
      NoSlash name
      → (i : ℕ) → length head + 1 + length slashes ≤ i
      → i < length whole
      → get_or whole i 0 ≢ slash
  at_name n i p q = rw (behind i (i - length head - 1) (omega arith)) (
      rw (get_or-skip slashes name (i - length head - 1) (omega arith)) (
        get_or-All (λ c. c ≢ slash) name (i - length head - 1 - length slashes) n
          (omega (arith, length-whole))))

  -- The byte at `head` and those of `slashes`.
  at_slashes :
      OnlySlashes slashes
      → (i : ℕ) → length head ≤ i
      → i < length head + 1 + length slashes
      → get_or whole i 0 ≡ slash
  at_slashes o i p q = elim (Bool-cases (i == length head)) [
    | inl e ↦ let e' : i ≡ length head = ground arith in rw e' at_slash
    | inr e ↦
        let above : length head < i = ground arith in
        behind i (i - length head - 1) (omega arith)
        ∙ get_or-append_left slashes name (i - length head - 1) 0 (omega arith)
        ∙ get_or-All (λ c. c ≡ slash) slashes (i - length head - 1) o (omega arith)
  ]

  module _ (o : OnlySlashes slashes) (n : NoSlash name) (h : NoTrailingSlash head) where
    last_slash : last_slash_loop whole (length whole) ≡ length head + 1 + length slashes
    last_slash =
        last_slash_loop-skip whole (length head + 1 + length slashes) (length whole)
          (omega (arith, length-whole)) (at_name n)
        ∙ last_slash_loop-hit whole (length head + 1 + length slashes)
            (length head + length slashes) (omega arith)
            (at_slashes o (length head + length slashes) (omega arith) (omega arith))

    before_slash : 1 < length head + 1 → get_or whole (length head + 1 - 2) 0 ≢ slash
    before_slash p =
        let e : length head + 1 - 2 ≡ length head - 1 = omega arith in
        rw e (
          rw (get_or-append_left head (slash ∷ (slashes ++ name)) (length head - 1) 0 (omega arith))
            (h (omega arith)))

    first_slash : first_slash_loop whole (length head + 1 + length slashes) ≡ length head + 1
    first_slash =
        first_slash_loop-skip whole (length head + 1) (length head + 1 + length slashes)
          (omega arith) (omega arith) (λ i p q. at_slashes o i (omega arith) (omega arith))
        ∙ first_slash_loop-stop whole (length head + 1) before_slash

    -- A path of a head that does not end in a slash, a slash, further slashes and a name without
    -- slashes is split behind the first of these slashes.
    pub split_path-whole :
        (t : Bool)
        → split_path (record { content = whole; is_terminated = t }) ≡ record {
          head = record { content = head; is_terminated = false };
          tail = record { content = slashes ++ name; is_terminated = t };
        }
    unfolding split_path
    split_path-whole t =
        let e : first_slash_loop whole (last_slash_loop whole (length whole)) ≡ length head + 1 =
          rw last_slash first_slash in
        let m : (if ltb 0 (length head + 1) then length head + 1 - 1 else 0) ≡ length head =
          ground arith in
        rw (e, m)
          (cc (
            take-append (length head) head (slash ∷ (slashes ++ name)) refl,
            drop_behind head slash (slashes ++ name),
          ))

-- A path without a slash has an empty head, and is its own tail.
pub split_path-name :
    (name : Bytes) (t : Bool)
    → NoSlash name
    → split_path (record { content = name; is_terminated = t }) ≡ record {
      head = record { content = []; is_terminated = false };
      tail = record { content = name; is_terminated = t };
    }
unfolding split_path
split_path-name name t n =
    let e : last_slash_loop name (length name) ≡ 0 =
      last_slash_loop-skip name 0 (length name) (omega arith)
        (λ i p q. get_or-All (λ c. c ≢ slash) name i n q) in
    rw e refl
