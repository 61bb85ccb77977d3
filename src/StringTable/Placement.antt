-- ===== src/StringTable/Placement.antt =====
-- src/string-table.c: where the buckets stand, and what the table promises to its users.
use nano_backup.Prelude.{
  ℕ, zero, suc, ◌+◌, ◌*◌, ◌%◌, ◌^◌, ◌<◌, ◌≤◌, ◌≡◌, ◌≢◌, refl, sym, ap, ◌∙◌, arith, inl, inr, false,
  ◌||◌, Bool-cases, ==_iff,
}
use nano_backup.Prelude.{List, [], ◌∷◌, ◌==◌, bytes_eq, eq_of_bytes_eq, ok, get_or, length}
use nano_backup.Str.{Bytes}
use nano_backup.SafeMath.Bounds.{size_mul-eq-ok}
use nano_backup.StringTable.{
  Bucket, Chain, StringTable, empty_buckets, prepend, move_chain, move_chains,
  double_table_capacity, find, str_table_new, add_association, str_table_map, str_table_get,
}
use nano_backup.StringTable.Keys.{
  is_some, anywhere, anywhere-prepend, length-prepend, length-move_chains, anywhere-move_chains,
  anywhere-empty_buckets, length-empty_buckets,
}

-- The buckets of a chain have the hash of their key, which leads to the chain i of n.
abbrev InChain : {A : Type 0} → (Bytes → ℕ) → ℕ → ℕ → Chain A → Type 0
InChain h n i [] = Unit
InChain h n i (b ∷ chain) = (b.hash ≡ h b.key) × (b.hash % n ≡ i) × InChain h n i chain

abbrev Placed : {A : Type 0} → (Bytes → ℕ) → ℕ → ℕ → List (Chain A) → Type 0
Placed h n i [] = Unit
Placed h n i (chain ∷ rest) = InChain h n i chain × Placed h n (suc i) rest

Placed-empty_buckets :
    (A : Type 0) (h : Bytes → ℕ) (n i k : ℕ) → Placed {A = A} h n i (empty_buckets k)
Placed-empty_buckets A h n i zero = tt
Placed-empty_buckets A h n i (suc k) = (tt, Placed-empty_buckets A h n (suc i) k)

Placed-prepend :
    {A : Type 0} (h : Bytes → ℕ) (n i j : ℕ) (b : Bucket A) (l : List (Chain A))
    → Placed h n i l
    → b.hash ≡ h b.key
    → b.hash % n ≡ i + j
    → Placed h n i (prepend j b l)
unfolding prepend
Placed-prepend h n i j b [] p e q = tt
Placed-prepend h n i zero b (chain ∷ rest) (p, ps) e q = ((e, omega arith, p), ps)
Placed-prepend h n i (suc j) b (chain ∷ rest) (p, ps) e q =
    (p, Placed-prepend h n (suc i) j b rest ps e (omega arith))

Placed-move_chain :
    {A : Type 0} (h : Bytes → ℕ) (n n' i : ℕ) (chain : Chain A) (l : List (Chain A))
    → InChain h n' i chain
    → Placed h n 0 l
    → Placed h n 0 (move_chain n chain l)
unfolding move_chain
Placed-move_chain h n n' i [] l c p = p
Placed-move_chain h n n' i (b ∷ chain) l (e, _, c) p =
    Placed-move_chain h n n' i chain (prepend (b.hash % n) b l) c
      (Placed-prepend h n 0 (b.hash % n) b l p e (omega arith))

Placed-move_chains :
    {A : Type 0} (h : Bytes → ℕ) (n n' i : ℕ) (chains l : List (Chain A))
    → Placed h n' i chains
    → Placed h n 0 l
    → Placed h n 0 (move_chains n chains l)
unfolding move_chains
Placed-move_chains h n n' i [] l c p = p
Placed-move_chains h n n' i (chain ∷ rest) l (c, cs) p =
    Placed-move_chains h n n' (suc i) rest (move_chain n chain l) cs
      (Placed-move_chain h n n' i chain l c p)

find_absent :
    {A : Type 0} (h : Bytes → ℕ) (n i : ℕ) (key : Bytes) (chain : Chain A)
    → InChain h n i chain
    → h key % n ≢ i
    → is_some (find key chain) ≡ false
find_absent h n i key [] c q = refl
find_absent h n i key (b ∷ chain) (e, r, c) q = elim (Bool-cases (bytes_eq key b.key)) [
  | inl same ↦
      absurd (q (ap (λ k. h k % n) (eq_of_bytes_eq key b.key same) ∙ ap (λ x. x % n) (sym e) ∙ r))
  | inr other ↦ rw other (find_absent h n i key chain c q)
]

anywhere_absent :
    {A : Type 0} (h : Bytes → ℕ) (n i : ℕ) (key : Bytes) (l : List (Chain A))
    → Placed h n i l
    → h key % n < i
    → anywhere key l ≡ false
anywhere_absent h n i key [] p q = refl
anywhere_absent h n i key (chain ∷ rest) (p, ps) q =
    rw (find_absent h n i key chain p (λ e. absurd (omega (arith, e))))
      (anywhere_absent h n (suc i) key rest ps (omega arith))

-- A key that is anywhere is in the chain of its hash.
find-Placed :
    {A : Type 0} (h : Bytes → ℕ) (n i j : ℕ) (key : Bytes) (l : List (Chain A))
    → Placed h n i l
    → h key % n ≡ i + j
    → is_some (find key (get_or l j [])) ≡ anywhere key l
find-Placed h n i j key [] p q = refl
find-Placed h n i zero key (chain ∷ rest) (p, ps) q =
    rw (anywhere_absent h n (suc i) key rest ps (omega arith)) (ground arith)
find-Placed h n i (suc j) key (chain ∷ rest) (p, ps) q =
    rw (find_absent h n i key chain p (λ e. absurd (omega (arith, e))))
      (find-Placed h n (suc i) j key rest ps (omega arith))

-- A table whose buckets stand where strTableGet() looks for them
pub record IsTable {A : Type 0} (siphash : Bytes → Bytes → ℕ) (table : StringTable A) : Type 0 where
  pub size : length table.buckets ≡ table.capacity
  pub positive : 0 < table.capacity
  pub placed : Placed (λ key. siphash key table.secret_key) table.capacity 0 table.buckets
  pub small : table.capacity ≤ 2 * table.associations + 32

module _ {A : Type 0} (siphash : Bytes → Bytes → ℕ) where
  get-anywhere :
      (table : StringTable A) (key : Bytes)
      → IsTable siphash table
      → is_some (str_table_get siphash table key) ≡ anywhere key table.buckets
  unfolding str_table_get
  get-anywhere table key v =
      find-Placed (λ k. siphash k table.secret_key) table.capacity 0
        (siphash key table.secret_key % table.capacity) key table.buckets v.placed (omega arith)

  -- A table of strTableNew() is well formed, and strTableGet() finds no key in it.
  pub str_table_new_lem :
      (secret_key key : Bytes)
      → let table : StringTable A = str_table_new secret_key in
        IsTable siphash table × (is_some (str_table_get siphash table key) ≡ false)
  str_table_new_lem secret_key key =
      let table : StringTable A = str_table_new secret_key in
      let v : IsTable siphash table = record {
        size = refl;
        positive = omega arith;
        small = omega arith;
        placed = Placed-empty_buckets A (λ k. siphash k secret_key) 32 0 32;
      } in
      (v, get-anywhere table key v ∙ anywhere-empty_buckets A key 32)

  add_association_lem :
      (table : StringTable A) (key : Bytes) (value : A)
      → IsTable siphash table
      → IsTable siphash (add_association siphash table key value)
        × ((k : Bytes)
            → anywhere k (add_association siphash table key value).buckets
              ≡ (bytes_eq k key || anywhere k table.buckets))
  unfolding add_association
  add_association_lem table key value v =
      let hash = siphash key table.secret_key in
      let b : Bucket A = record { hash = hash; key = key; value = value } in
      let i = hash % table.capacity in
      let positive : 0 < table.capacity = v.positive in
      let size : length table.buckets ≡ table.capacity = v.size in
      let in_range : i < length table.buckets = grind arith in
      (
        record {
          size = length-prepend i b table.buckets ∙ size;
          positive = positive;
          small = let small : table.capacity ≤ 2 * table.associations + 32 = v.small in omega arith;
          placed =
              Placed-prepend (λ k. siphash k table.secret_key) table.capacity 0 i b table.buckets
                v.placed refl (omega arith);
        },
        λ k. anywhere-prepend k i b table.buckets in_range,
      )

  double_table_capacity_lem :
      (table : StringTable A)
      → IsTable siphash table
      → table.associations ≡ table.capacity
      → table.capacity * 16 < 2 ^ 64
      → (doubled : StringTable A) × (double_table_capacity table ≡ ok doubled)
        × IsTable siphash doubled
        × ((k : Bytes) → anywhere k doubled.buckets ≡ anywhere k table.buckets)
        × (doubled.associations ≡ table.associations)
  unfolding double_table_capacity
  double_table_capacity_lem table v full b =
      let n = table.capacity * 2 in
      let empty : List (Chain A) = empty_buckets n in
      let size : length empty ≡ n = length-empty_buckets A n in
      let positive : 0 < table.capacity = v.positive in
      (
        record table { buckets = move_chains n table.buckets empty; capacity = n },
        rw (size_mul-eq-ok table.capacity 2 (omega arith))
            (rw (size_mul-eq-ok n 8 (omega arith)) refl),
        record {
          size = length-move_chains n table.buckets empty ∙ size;
          positive = omega arith;
          small = omega arith;
          placed =
              Placed-move_chains (λ k. siphash k table.secret_key) n table.capacity 0 table.buckets
                empty v.placed (Placed-empty_buckets A (λ k. siphash k table.secret_key) n 0 n);
        },
        λ k.
            anywhere-move_chains k n table.buckets empty size (omega arith)
            ∙ rw (anywhere-empty_buckets A k n) (ground arith),
        refl,
      )

  -- For a well formed table, strTableMap() has a result while twice the capacity can be allocated,
  -- keeps the table well formed and counts the association; strTableGet() then finds the new key and
  -- the keys that it found before, and no other.
  pub str_table_map_lem :
      (table : StringTable A) (key : Bytes) (value : A)
      → IsTable siphash table
      → table.capacity * 16 < 2 ^ 64
      → (table' : StringTable A) × (str_table_map siphash table key value ≡ ok table')
        × IsTable siphash table'
        × (table'.associations ≡ table.associations + 1)
        × ((k : Bytes)
            → is_some (str_table_get siphash table' k)
              ≡ (bytes_eq k key || is_some (str_table_get siphash table k)))
  unfolding str_table_map add_association
  str_table_map_lem table key value v b =
      let found =
        λ (t : StringTable A) (w : IsTable siphash t)
            (same : (k : Bytes) → anywhere k t.buckets ≡ anywhere k table.buckets) (k : Bytes).
          get-anywhere (add_association siphash t key value) k (add_association_lem t key value w).0
          ∙ (add_association_lem t key value w).1 k
          ∙ ap (λ x. bytes_eq k key || x) (same k ∙ sym (get-anywhere table k v)) in
      elim (Bool-cases (table.associations == table.capacity)) [
        | inl full ↦
            let (doubled, eq, w, same, count) =
              double_table_capacity_lem table v ((==_iff table.associations table.capacity).0 full)
                b in
            (
              add_association siphash doubled key value,
              rw full (rw eq refl),
              (add_association_lem doubled key value w).0,
              omega (arith, count),
              found doubled w same,
            )
        | inr room ↦ (
          add_association siphash table key value,
          rw room refl,
          (add_association_lem table key value v).0,
          refl,
          found table v (λ k. refl),
        )
      ]
