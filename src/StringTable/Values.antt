-- ===== src/StringTable/Values.antt =====
-- src/string-table.c: the values that a table gives back.
use nano_backup.Prelude.{
  ℕ, zero, suc, ◌%◌, ◌≡◌, sym, subst, Bool-cases, inl, inr, List, [], ◌∷◌, ◌==◌, some, bytes_eq,
  eq_of_bytes_eq, get_or, ok, ◌>>=◌, >>=-eq-ok, ok_injective,
}
use nano_backup.Str.{Bytes}
use nano_backup.SafeMath.{size_mul}
use nano_backup.StringTable.{
  Bucket, Chain, StringTable, empty_buckets, prepend, move_chain, move_chains,
  double_table_capacity, find, add_association, str_table_map, str_table_get,
}

some_injective : {A : Type 0} {a b : A} → some a ≡ some b → a ≡ b
some_injective e = cc

module _ {A : Type 0} (P : Bytes → A → Type 0) where
  abbrev pub AllChain : Chain A → Type 0
  AllChain [] = Unit
  AllChain (b ∷ chain) = P b.key b.value × AllChain chain

  -- Every key with its value has the property.
  abbrev pub AllChains : List (Chain A) → Type 0
  AllChains [] = Unit
  AllChains (chain ∷ rest) = AllChain chain × AllChains rest

  pub AllChains-empty_buckets : (n : ℕ) → AllChains (empty_buckets n)
  AllChains-empty_buckets zero = tt
  AllChains-empty_buckets (suc n) = (tt, AllChains-empty_buckets n)

  AllChains-prepend :
      (i : ℕ) (b : Bucket A) (l : List (Chain A))
      → P b.key b.value
      → AllChains l
      → AllChains (prepend i b l)
  unfolding prepend
  AllChains-prepend i b [] p h = tt
  AllChains-prepend zero b (chain ∷ rest) p (c, r) = ((p, c), r)
  AllChains-prepend (suc i) b (chain ∷ rest) p (c, r) = (c, AllChains-prepend i b rest p r)

  AllChains-move_chain :
      (n : ℕ) (chain : Chain A) (l : List (Chain A))
      → AllChain chain
      → AllChains l
      → AllChains (move_chain n chain l)
  unfolding move_chain
  AllChains-move_chain n [] l c h = h
  AllChains-move_chain n (b ∷ chain) l (p, c) h =
      AllChains-move_chain n chain (prepend (b.hash % n) b l) c
        (AllChains-prepend (b.hash % n) b l p h)

  AllChains-move_chains :
      (n : ℕ) (chains l : List (Chain A))
      → AllChains chains
      → AllChains l
      → AllChains (move_chains n chains l)
  unfolding move_chains
  AllChains-move_chains n [] l c h = h
  AllChains-move_chains n (chain ∷ rest) l (c, r) h =
      AllChains-move_chains n rest (move_chain n chain l) r (AllChains-move_chain n chain l c h)

  double_table_capacity-AllChains :
      (table doubled : StringTable A)
      → AllChains table.buckets
      → double_table_capacity table ≡ ok doubled
      → AllChains doubled.buckets
  unfolding double_table_capacity
  double_table_capacity-AllChains table doubled h e =
      let (n, e₁, rest) =
        >>=-eq-ok (size_mul table.capacity 2)
          (λ n. size_mul n 8 >>= λ _. ok (record table {
            buckets = move_chains n table.buckets (empty_buckets n);
            capacity = n;
          }))
          e in
      let (m, e₂, last) =
        >>=-eq-ok (size_mul n 8)
          (λ _. ok (record table {
            buckets = move_chains n table.buckets (empty_buckets n);
            capacity = n;
          }))
          rest in
      subst (λ t. AllChains t.buckets) (ok_injective last)
        (AllChains-move_chains n table.buckets (empty_buckets n) h (AllChains-empty_buckets n))

  find-AllChain :
      (key : Bytes) (chain : Chain A) (value : A)
      → AllChain chain
      → find key chain ≡ some value
      → P key value
  find-AllChain key [] value h e = cc
  find-AllChain key (b ∷ chain) value (p, h) e = elim (Bool-cases (bytes_eq key b.key)) [
    | inl same ↦
        let found : b.value ≡ value = some_injective (rw same at e) in
        subst (λ v. P key v) found
          (subst (λ k. P k b.value) (sym (eq_of_bytes_eq key b.key same)) p)
    | inr other ↦ find-AllChain key chain value h (rw other at e)
  ]

  get_or-AllChain : (i : ℕ) (l : List (Chain A)) → AllChains l → AllChain (get_or l i [])
  get_or-AllChain i [] h = tt
  get_or-AllChain zero (chain ∷ rest) h = h.0
  get_or-AllChain (suc i) (chain ∷ rest) h = get_or-AllChain i rest h.1

  module _ (siphash : Bytes → Bytes → ℕ) where
    add_association-AllChains :
        (table : StringTable A) (key : Bytes) (value : A)
        → AllChains table.buckets
        → P key value
        → AllChains (add_association siphash table key value).buckets
    unfolding add_association
    add_association-AllChains table key value h p =
        let hash = siphash key table.secret_key in
        AllChains-prepend (hash % table.capacity) (record { hash = hash; key = key; value = value })
          table.buckets p h

    -- strTableMap() keeps what holds of every key with its value, if it holds of the new pair.
    pub str_table_map-AllChains :
        (table table' : StringTable A) (key : Bytes) (value : A)
        → AllChains table.buckets
        → P key value
        → str_table_map siphash table key value ≡ ok table'
        → AllChains table'.buckets
    unfolding str_table_map
    str_table_map-AllChains table table' key value h p e =
        elim (Bool-cases (table.associations == table.capacity)) [
          | inl full ↦
              let (doubled, d, last) =
                >>=-eq-ok (double_table_capacity table)
                  (λ t. ok (add_association siphash t key value)) (rw full at e) in
              subst (λ t. AllChains t.buckets) (ok_injective last)
                (add_association-AllChains doubled key value
                  (double_table_capacity-AllChains table doubled h d) p)
          | inr room ↦
              subst (λ t. AllChains t.buckets) (ok_injective (rw room at e))
                (add_association-AllChains table key value h p)
        ]

    -- What strTableGet() finds is a value that stands in the table with this key.
    pub str_table_get-AllChains :
        (table : StringTable A) (key : Bytes) (value : A)
        → AllChains table.buckets
        → str_table_get siphash table key ≡ some value
        → P key value
    unfolding str_table_get
    str_table_get-AllChains table key value h e =
        let i = siphash key table.secret_key % table.capacity in
        find-AllChain key (get_or table.buckets i []) value (get_or-AllChain i table.buckets h) e
