-- ===== src/StringTable.antt =====
-- src/string-table.c: a hash table with chains. SipHash is a parameter. The field `data` is called
-- `value` here and has a type `A`; the program maps keys to pointers that are not NULL.
pub mod Keys
pub mod Placement
pub mod Values
use nano_backup.Prelude.{
  ℕ, zero, suc, ◌+◌, ◌*◌, ◌%◌, Bool, true, false, List, [], ◌∷◌, Option, none, some,
}
use nano_backup.Prelude.{◌==◌, bytes_eq, if◌then◌else◌, Result, ok, ◌>>=◌, ◌>>◌, get_or}
use nano_backup.Str.{Bytes}
use nano_backup.SafeMath.{size_mul}

pub record Bucket (A : Type 0) : Type 0 where
  pub hash : ℕ
  pub key : Bytes
  pub value : A

abbrev pub Chain : Type 0 → Type 0
Chain A = List (Bucket A)

-- `buckets` is the array of the chains. A chain is the list that its pointers make.
pub record StringTable (A : Type 0) : Type 0 where
  pub buckets : List (Chain A)
  pub capacity : ℕ
  pub associations : ℕ
  pub secret_key : Bytes

-- sizeof(*table->buckets)
abbrev pointer_size : ℕ
pointer_size = 8

-- What memset() leaves: n NULL pointers
abbrev pub empty_buckets : {A : Type 0} → ℕ → List (Chain A)
empty_buckets zero = []
empty_buckets (suc n) = [] ∷ empty_buckets n

-- bucket->next = buckets[i]; buckets[i] = bucket
unfoldable pub prepend : {A : Type 0} → ℕ → Bucket A → List (Chain A) → List (Chain A)
prepend i bucket [] = []
prepend zero bucket (chain ∷ rest) = (bucket ∷ chain) ∷ rest
prepend (suc i) bucket (chain ∷ rest) = chain ∷ prepend i bucket rest

-- The inner loop of doubleTableCapacity()
unfoldable pub move_chain : {A : Type 0} → ℕ → Chain A → List (Chain A) → List (Chain A)
unfolding prepend
move_chain new_capacity [] new_buckets = new_buckets
move_chain new_capacity (bucket ∷ chain) new_buckets =
    move_chain new_capacity chain (prepend (bucket.hash % new_capacity) bucket new_buckets)

unfoldable pub move_chains : {A : Type 0} → ℕ → List (Chain A) → List (Chain A) → List (Chain A)
unfolding move_chain
move_chains new_capacity [] new_buckets = new_buckets
move_chains new_capacity (chain ∷ rest) new_buckets =
    move_chains new_capacity rest (move_chain new_capacity chain new_buckets)

unfoldable pub double_table_capacity : {A : Type 0} → StringTable A → Result (StringTable A)
unfolding move_chains
double_table_capacity table = do
  new_capacity ← size_mul table.capacity 2
  size_mul new_capacity pointer_size
  ok (record table {
    buckets = move_chains new_capacity table.buckets (empty_buckets new_capacity);
    capacity = new_capacity;
  })

-- The search in a chain
abbrev pub find : {A : Type 0} → Bytes → Chain A → Option A
find key [] = none
find key (bucket ∷ chain) = if bytes_eq key bucket.key then some bucket.value else find key chain

-- strTableNew(): the secret key is random.
abbrev pub str_table_new : {A : Type 0} → Bytes → StringTable A
str_table_new secret_key = record {
  buckets = empty_buckets 32;
  capacity = 32;
  associations = 0;
  secret_key = secret_key;
}

module _ (siphash : Bytes → Bytes → ℕ) where
  -- strTableMap() after the test for a full table
  unfoldable pub add_association : {A : Type 0} → StringTable A → Bytes → A → StringTable A
  unfolding prepend
  add_association table key value =
      let hash = siphash key table.secret_key in
      record table {
        buckets =
            prepend (hash % table.capacity) (record { hash = hash; key = key; value = value })
              table.buckets;
        associations = table.associations + 1;
      }

  unfoldable pub str_table_map : {A : Type 0} → StringTable A → Bytes → A → Result (StringTable A)
  unfolding double_table_capacity add_association
  str_table_map table key value =
      if table.associations == table.capacity
      then (do doubled ← double_table_capacity table; ok (add_association doubled key value))
      else ok (add_association table key value)

  unfoldable pub str_table_get : {A : Type 0} → StringTable A → Bytes → Option A
  str_table_get table key =
      find key (get_or table.buckets (siphash key table.secret_key % table.capacity) [])
