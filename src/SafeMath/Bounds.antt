-- ===== src/SafeMath/Bounds.antt =====
-- What the checked operations of src/safe-math.c return, on both branches.
use nano_backup.Prelude.{ℕ, ◌+◌, ◌*◌, ◌/◌, ◌^◌, ◌≤◌, ◌<◌, ◌≡◌, ltb, arith, if◌then◌else◌}
use nano_backup.Prelude.{ok, die, object_size_overflow, uint64_overflow}
use nano_backup.SafeMath.{
  size_max, uint64_max, size_add, size_mul, uint64_add, uint64_mul, uint64_difference,
}

-- For two size_t values, sSizeAdd returns the exact sum if it is below 2 ^ 64, and dies otherwise.
pub size_add_exact :
    (a b : ℕ)
    → a < 2 ^ 64
    → b < 2 ^ 64
    → size_add a b ≡ (if ltb (a + b) (2 ^ 64) then ok (a + b) else die object_size_overflow)
unfolding size_add
size_add_exact a b p q = ground arith

pub size_add-eq-ok : (a b : ℕ) → a + b < 2 ^ 64 → size_add a b ≡ ok (a + b)
unfolding size_add
size_add-eq-ok a b h = ground arith

-- For two uint64_t values, sUint64Add returns the exact sum if it is below 2 ^ 64, and dies
-- otherwise.
pub uint64_add_exact :
    (a b : ℕ)
    → a < 2 ^ 64
    → b < 2 ^ 64
    → uint64_add a b ≡ (if ltb (a + b) (2 ^ 64) then ok (a + b) else die uint64_overflow)
unfolding uint64_add
uint64_add_exact a b p q = ground arith

-- a * b <= m exactly if a <= m / b.
quotient_lower : (a b m : ℕ) → a ≤ m / b → a * b ≤ m
quotient_lower a b m h = grind arith

quotient_upper : (a b m : ℕ) → 0 < b → m / b < a → m < a * b
quotient_upper a b m p h = grind arith

-- For two size_t values, sSizeMul returns the exact product if it is below 2 ^ 64, and dies
-- otherwise.
pub size_mul_exact :
    (a b : ℕ)
    → a < 2 ^ 64
    → b < 2 ^ 64
    → size_mul a b ≡ (if ltb (a * b) (2 ^ 64) then ok (a * b) else die object_size_overflow)
unfolding size_mul
size_mul_exact a b p q = ground (arith, quotient_lower a b size_max, quotient_upper a b size_max)

pub size_mul-eq-ok : (a b : ℕ) → a * b < 2 ^ 64 → size_mul a b ≡ ok (a * b)
unfolding size_mul
size_mul-eq-ok a b h = ground (arith, quotient_upper a b size_max)

-- For two uint64_t values, sUint64Mul returns the exact product if it is below 2 ^ 64, and dies
-- otherwise.
pub uint64_mul_exact :
    (a b : ℕ)
    → a < 2 ^ 64
    → b < 2 ^ 64
    → uint64_mul a b ≡ (if ltb (a * b) (2 ^ 64) then ok (a * b) else die uint64_overflow)
unfolding uint64_mul
uint64_mul_exact a b p q =
    ground (arith, quotient_lower a b uint64_max, quotient_upper a b uint64_max)

-- sUint64GetDifference is symmetric, and added to the smaller value it gives the larger one.
pub uint64_difference_lem :
    (a b : ℕ)
    → (uint64_difference a b ≡ uint64_difference b a) × (a ≤ b → a + uint64_difference a b ≡ b)
unfolding uint64_difference
uint64_difference_lem a b = ground arith
