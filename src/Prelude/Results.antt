-- ===== src/Prelude/Results.antt =====
-- Calls of die(): the program ends with a message. A function that may call it returns a `Result`.
use Prim.Native.Nat.{ℕ}
use mathlib.Core.Path.{◌≡◌, refl}
use mathlib.Core.Logic.{◌≢◌}
use mathlib.Core.Bool.{Bool}
use mathlib.Core.List.{List}
use nano_backup.Prelude.Tests.{if◌then◌else◌}

-- One constructor for each message, with the values that the message prints; `null_pointer` is the
-- crash of a program that follows a NULL pointer.
pub data Error : Type 0 where
  object_size_overflow : Error
  uint64_overflow : Error
  corrupted_metadata : ℕ → ℕ → Error
  size_value_too_large : Error
  backup_id_out_of_range : Error
  invalid_path_state_type : Error
  filename_length_zero : Error
  filename_null_bytes : Error
  invalid_filename : List ℕ → Error
  trailing_bytes : Error
  slot_overflow : Error
  symlink_changed : List ℕ → Error
  file_changed : List ℕ → Error
  unexpected_end : List ℕ → Error
  cannot_open : List ℕ → Error
  cannot_access : List ℕ → Error
  cannot_create : List ℕ → Error
  cannot_rename : List ℕ → Error
  path_did_not_exist : List ℕ → Error
  path_was_no_directory : List ℕ → Error
  path_not_in_repository : List ℕ → Error
  not_regular_file : List ℕ → Error
  file_too_large : List ℕ → Error
  null_pointer : Error

-- `stuck` is no outcome of the program: a recursion of the model ran out of fuel.
pub data Result {ℓ} (A : Type ℓ) : Type ℓ where
  stuck : Result A
  die : Error → Result A
  ok : A → Result A

-- `if(!test) die(...)`
abbrev pub require : Bool → Error → Result (Unit {0})
require test message = if test then ok tt else die message

-- The end of a part ends the whole program.
infixl 5 ◌>>=◌ ◌>>◌
abbrev pub ◌>>=◌ {ℓ κ} : {B : Type κ} {A : Type ℓ} → Result A → (A → Result B) → Result B
stuck >>= next = stuck
die message >>= next = die message
ok value >>= next = next value

abbrev pub ◌>>◌ {ℓ κ} : {B : Type κ} {A : Type ℓ} → Result A → Result B → Result B
first >> second = first >>= λ _. second

-- A chain has a value only if its first part has one, from which the rest goes on.
pub >>=-eq-ok {ℓ κ} :
    {B : Type κ} {A : Type ℓ} (part : Result A) (next : A → Result B) {result : B}
    → (part >>= next) ≡ ok result
    → (value : A) × (part ≡ ok value) × (next value ≡ ok result)
>>=-eq-ok stuck next e = cc
>>=-eq-ok (die message) next e = cc
>>=-eq-ok (ok value) next e = (value, refl, e)

pub ok_injective {ℓ} : {A : Type ℓ} {a b : A} → ok a ≡ ok b → a ≡ b
ok_injective e = cc

pub die_not_ok {ℓ} : {A : Type ℓ} {e : Error} {a : A} → die e ≢ ok a
die_not_ok h = cc
