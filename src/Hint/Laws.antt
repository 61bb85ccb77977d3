-- ===== src/Hint/Laws.antt =====
-- What backupHintSet() of src/metadata.h does to a hint, for each of the hints that exist. A
-- combination of hints is a number below 2048.
use Prim.Native.Nat.{bit_and}
use nano_backup.Prelude.{
  ◌+◌, ◌-◌, ◌^◌, ℕ, zero, suc, ◌<◌, ◌≤◌, ◌≡◌, ◌≢◌, refl, Bool, true, false, ◌&&◌, ◌||◌, ◌==◌, ltb,
}
use nano_backup.Prelude.{arith, not, if◌then◌else◌}
use nano_backup.Hint.{BackupHint, hint_set, hint_no_pol, bh_unchanged, bh_added}
use nano_backup.Hint.{bh_not_part_of_repository, bh_other_to_directory}
use nano_backup.Hint.{bh_none}

abbrev pub hint_limit : ℕ
hint_limit = 2048

-- Whether a test holds of all numbers under a bound
every : (ℕ → Bool) → ℕ → Bool
every test zero = true
every test (suc bound) = if test bound then every test bound else false

test_of_every :
    (test : ℕ → Bool) (bound i : ℕ) → i < bound → every test bound ≡ true → test i ≡ true
unfolding every
test_of_every test zero i below holds = absurd (omega arith)
test_of_every test (suc bound) i below holds = grind (arith, test_of_every test bound i)

-- The same for the pairs of two numbers
all_pairs : ℕ → ℕ → (ℕ → ℕ → Bool) → Bool
unfolding every
all_pairs n m p = every (λ a. every (p a) m) n

all_pairs_sound :
    (n m : ℕ) (p : ℕ → ℕ → Bool) (x y : ℕ) → all_pairs n m p ≡ true → x < n → y < m → p x y ≡ true
unfolding all_pairs
all_pairs_sound n m p x y h a b =
    test_of_every (p x) m y b (test_of_every (λ a. every (p a) m) n x a h)

exclusive_test : ℕ → ℕ → Bool
exclusive_test hint var =
    ltb hint bh_added
    || ((hint_no_pol (hint_set var hint) == hint)
        && (bit_and (hint_set var hint) 0x600 == bit_and var 0x600)
        && ltb (hint_set var hint) hint_limit)

exclusive_table : all_pairs 14 hint_limit exclusive_test ≡ true
unfolding all_pairs exclusive_test hint_set hint_no_pol
exclusive_table = refl

-- Setting one of the exclusive hints from `added` to `other_to_directory` in a hint below 2048
-- replaces all bits but the two policy bits, which stay.
pub hint_set_exclusive :
    (var hint : BackupHint)
    → var < hint_limit
    → bh_added ≤ hint
    → hint ≤ bh_other_to_directory
    → (hint_no_pol (hint_set var hint) ≡ hint)
      × (bit_and (hint_set var hint) 0x600 ≡ bit_and var 0x600)
      × (hint_set var hint < hint_limit)
unfolding exclusive_test
hint_set_exclusive var hint a b c =
    ground
      (arith, all_pairs_sound 14 hint_limit exclusive_test hint var exclusive_table (omega arith) a)

flag_test : ℕ → ℕ → Bool
flag_test k var =
    let flag = 2 ^ (4 + k) in
    (bit_and (hint_set var flag) flag == flag)
    && (bit_and (hint_set var flag) 15 == 0)
    && (bit_and (hint_set var flag) (0x7F0 - flag) == bit_and var (0x7F0 - flag))
    && ltb (hint_set var flag) hint_limit

flag_table : all_pairs 5 hint_limit flag_test ≡ true
unfolding all_pairs flag_test hint_set
flag_table = refl

-- Setting one of the five change flags in a hint below 2048 clears the exclusive hint and keeps all
-- other flags.
pub hint_set_flag :
    (var k : ℕ)
    → var < hint_limit
    → k < 5
    → (bit_and (hint_set var (2 ^ (4 + k))) (2 ^ (4 + k)) ≡ 2 ^ (4 + k))
      × (bit_and (hint_set var (2 ^ (4 + k))) 15 ≡ 0)
      × (bit_and (hint_set var (2 ^ (4 + k))) (0x7F0 - 2 ^ (4 + k))
          ≡ bit_and var (0x7F0 - 2 ^ (4 + k)))
      × (hint_set var (2 ^ (4 + k)) < hint_limit)
unfolding flag_test
hint_set_flag var k a b =
    ground (arith, all_pairs_sound 5 hint_limit flag_test k var flag_table b a)

policy_test : ℕ → ℕ → Bool
policy_test k var =
    let flag = 2 ^ (9 + k) in
    (bit_and (hint_set var flag) flag == flag)
    && (hint_no_pol (hint_set var flag) == hint_no_pol var)
    && ltb (hint_set var flag) hint_limit

policy_table : all_pairs 2 hint_limit policy_test ≡ true
unfolding all_pairs policy_test hint_set hint_no_pol
policy_table = refl

-- Setting one of the two policy bits in a hint below 2048 keeps the hint without policy bits.
pub hint_set_policy :
    (var k : ℕ)
    → var < hint_limit
    → k < 2
    → (bit_and (hint_set var (2 ^ (9 + k))) (2 ^ (9 + k)) ≡ 2 ^ (9 + k))
      × (hint_no_pol (hint_set var (2 ^ (9 + k))) ≡ hint_no_pol var)
      × (hint_set var (2 ^ (9 + k)) < hint_limit)
unfolding policy_test
hint_set_policy var k a b =
    ground (arith, all_pairs_sound 2 hint_limit policy_test k var policy_table b a)

-- The hint `unchanged` replaces the whole hint.
pub hint_set_unchanged :
    (var : BackupHint)
    → (hint_no_pol (hint_set var bh_unchanged) ≡ 1) × (hint_set var bh_unchanged ≡ 1)
unfolding hint_set hint_no_pol
hint_set_unchanged var = (refl, refl)

-- The hint says more than policy bits do, and not that the node is to be wiped.
abbrev pub Reports : BackupHint → Type 0
Reports hint = (hint_no_pol hint ≢ bh_none) × (hint_no_pol hint ≢ bh_not_part_of_repository)

reported_test : ℕ → ℕ → Bool
reported_test k var =
    let set = hint_no_pol (hint_set var (2 ^ (4 + k))) in
    not (set == bh_none) && not (set == bh_not_part_of_repository)

reported_table : all_pairs 5 hint_limit reported_test ≡ true
unfolding all_pairs reported_test hint_set hint_no_pol
reported_table = refl

-- Setting one of the five change flags leaves a hint that reports a change.
pub hint_set_reported :
    (var k : ℕ)
    → var < hint_limit
    → k < 5
    → Reports (hint_set var (2 ^ (4 + k))) × (hint_set var (2 ^ (4 + k)) < hint_limit)
unfolding reported_test
hint_set_reported var k a b =
    let table = all_pairs_sound 5 hint_limit reported_test k var reported_table b a in
    ((ground (arith, table), ground (arith, table)), (hint_set_flag var k a b).3)
