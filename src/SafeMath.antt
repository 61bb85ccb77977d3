-- ===== src/SafeMath.antt =====
-- src/safe-math.c: sums and products that end the program on overflow. `size_t` and `uint64_t`
-- are numbers below 2 ^ 64.
pub mod Bounds
use nano_backup.Prelude.{ℕ, ◌+◌, ◌-◌, ◌*◌, ◌/◌, ◌^◌, ◌%◌, ltb, ◌==◌, not, ◌&&◌, if◌then◌else◌}
use nano_backup.Prelude.{Result, ok, die, object_size_overflow, uint64_overflow}

abbrev pub size_max : ℕ
size_max = 2 ^ 64 - 1

abbrev pub uint64_max : ℕ
uint64_max = 2 ^ 64 - 1

unfoldable pub size_add : ℕ → ℕ → Result ℕ
size_add a b = if ltb (size_max - b) a then die object_size_overflow else ok ((a + b) % 2 ^ 64)

unfoldable pub size_mul : ℕ → ℕ → Result ℕ
size_mul a b =
    if not (b == 0) && ltb (size_max / b) a then die object_size_overflow else ok (a * b % 2 ^ 64)

unfoldable pub uint64_add : ℕ → ℕ → Result ℕ
uint64_add a b = if ltb (uint64_max - b) a then die uint64_overflow else ok ((a + b) % 2 ^ 64)

unfoldable pub uint64_mul : ℕ → ℕ → Result ℕ
uint64_mul a b =
    if not (b == 0) && ltb (uint64_max / b) a then die uint64_overflow else ok (a * b % 2 ^ 64)

unfoldable pub uint64_difference : ℕ → ℕ → ℕ
uint64_difference a b = if ltb a b then b - a else a - b
