-- ===== src/Prelude/Membership.antt =====
-- Membership of byte strings in lists, as a test.
use mathlib.Core.Bool.{Bool, false, ◌||◌}
use Prim.Native.Nat.{ℕ}
use mathlib.Core.List.{List, [], ◌∷◌}
use nano_backup.Prelude.Tests.{bytes_eq}

unfoldable pub contains : List (List ℕ) → List ℕ → Bool
contains [] k = false
contains (x ∷ xs) k = bytes_eq k x || contains xs k
