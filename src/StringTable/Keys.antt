-- ===== src/StringTable/Keys.antt =====
-- src/string-table.c: the table as the set of its keys.
use nano_backup.Prelude.{ℕ, zero, suc, ◌%◌, ◌<◌, ◌≡◌, refl, ap, ◌∙◌, arith, Bool, true, false, ◌||◌}
use nano_backup.Prelude.{List, [], ◌∷◌, Option, none, some, bytes_eq, length}
use nano_backup.Str.{Bytes}
use nano_backup.StringTable.{Bucket, Chain, empty_buckets, prepend, move_chain, move_chains, find}

abbrev pub is_some : {A : Type 0} → Option A → Bool
is_some none = false
is_some (some a) = true

-- The key is in one of the chains.
abbrev pub anywhere : {A : Type 0} → Bytes → List (Chain A) → Bool
anywhere key [] = false
anywhere key (chain ∷ rest) = is_some (find key chain) || anywhere key rest

pub anywhere-prepend :
    {A : Type 0} (key : Bytes) (i : ℕ) (b : Bucket A) (l : List (Chain A))
    → i < length l
    → anywhere key (prepend i b l) ≡ (bytes_eq key b.key || anywhere key l)
unfolding prepend
anywhere-prepend key i b [] h = absurd (omega arith)
anywhere-prepend key zero b (chain ∷ rest) h = ground arith
anywhere-prepend key (suc i) b (chain ∷ rest) h = ground (arith, anywhere-prepend key i b rest)

pub length-prepend :
    {A : Type 0} (i : ℕ) (b : Bucket A) (l : List (Chain A)) → length (prepend i b l) ≡ length l
unfolding prepend
length-prepend i b [] = refl
length-prepend zero b (chain ∷ rest) = refl
length-prepend (suc i) b (chain ∷ rest) = ap suc (length-prepend i b rest)

length-move_chain :
    {A : Type 0} (n : ℕ) (chain : Chain A) (l : List (Chain A))
    → length (move_chain n chain l) ≡ length l
unfolding move_chain
length-move_chain n [] l = refl
length-move_chain n (b ∷ chain) l =
    length-move_chain n chain (prepend (b.hash % n) b l) ∙ length-prepend (b.hash % n) b l

pub length-move_chains :
    {A : Type 0} (n : ℕ) (chains l : List (Chain A)) → length (move_chains n chains l) ≡ length l
unfolding move_chains
length-move_chains n [] l = refl
length-move_chains n (chain ∷ rest) l =
    length-move_chains n rest (move_chain n chain l) ∙ length-move_chain n chain l

anywhere-move_chain :
    {A : Type 0} (key : Bytes) (n : ℕ) (chain : Chain A) (l : List (Chain A))
    → length l ≡ n
    → 0 < n
    → anywhere key (move_chain n chain l) ≡ (is_some (find key chain) || anywhere key l)
unfolding move_chain
anywhere-move_chain key n [] l h p = refl
anywhere-move_chain key n (b ∷ chain) l h p =
    let small : b.hash % n < length l = grind arith in
    let ih =
      anywhere-move_chain key n chain (prepend (b.hash % n) b l)
        (length-prepend (b.hash % n) b l ∙ h) p in
    let one = anywhere-prepend key (b.hash % n) b l small in ground (arith, ih, one)

pub anywhere-move_chains :
    {A : Type 0} (key : Bytes) (n : ℕ) (chains l : List (Chain A))
    → length l ≡ n
    → 0 < n
    → anywhere key (move_chains n chains l) ≡ (anywhere key chains || anywhere key l)
unfolding move_chains
anywhere-move_chains key n [] l h p = refl
anywhere-move_chains key n (chain ∷ rest) l h p =
    let ih =
      anywhere-move_chains key n rest (move_chain n chain l) (length-move_chain n chain l ∙ h) p in
    ground (arith, ih, anywhere-move_chain key n chain l h p)

pub anywhere-empty_buckets :
    (A : Type 0) (key : Bytes) (n : ℕ) → anywhere {A = A} key (empty_buckets n) ≡ false
anywhere-empty_buckets A key zero = refl
anywhere-empty_buckets A key (suc n) = anywhere-empty_buckets A key n

pub length-empty_buckets : (A : Type 0) (n : ℕ) → length (empty_buckets {A = A} n) ≡ n
length-empty_buckets A zero = refl
length-empty_buckets A (suc n) = ap suc (length-empty_buckets A n)
