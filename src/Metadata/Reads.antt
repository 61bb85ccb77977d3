-- ===== src/Metadata/Reads.antt =====
-- When a reading function of src/metadata.c takes given bytes and no more, whatever follows them.
-- The reference counts that it leaves are at most the number of bytes read, so the overflow test on
-- them does not fire in a file below 2 ^ 64 bytes.
use nano_backup.Prelude.{
  ℕ, zero, suc, ◌+◌, ◌*◌, ◌/◌, ◌^◌, ◌≤◌, ◌<◌, ◌≡◌, refl, arith, ap, subst, sym,
}
use nano_backup.Prelude.{List, [], ◌∷◌, ◌++◌, length, All, append_assoc, append-nil, length-append}
use nano_backup.Prelude.{take-append, drop-append, ok, get_or, ltb-false}
use nano_backup.Prelude.{leb, false}
use nano_backup.SafeMath.Bounds.{size_add-eq-ok}
use nano_backup.Str.{Bytes}
use nano_backup.Metadata.{Backup}
use nano_backup.Prelude.{◌%◌}
use nano_backup.Metadata.Codec.{le_bytes, write8, write32, write64}
use nano_backup.Metadata.Load.{
  Loader, Load, ◌>>=◌, ◌>>◌, pure, consume, assert_bytes_left, le_value, read8, read32, read64,
  read_bytes, add_reference, refer, read_backup,
}

pub record Env : Type 0 where
  pub backups : List Backup
  pub table : List Bytes

abbrev pub at : ℕ → Bytes → Env → Loader
at p rest e = record { position = p; rest = rest; backups = e.backups; table = e.table }

abbrev pub RefsLe : ℕ → List Backup → Type 0
RefsLe p = All (λ b. b.ref_count ≤ p)

-- `m` takes the bytes `bs` and gives `a`, changing `e` into `e'`.
pub record Reads {A : Type 0} (m : Load A) (bs : Bytes) (e : Env) (a : A) (e' : Env) : Type 0 where
  pub run :
      (p : ℕ) (rest : Bytes)
      → p + length bs + length rest < 2 ^ 64
      → RefsLe p e.backups
      → (m (at p (bs ++ rest) e) ≡ ok (a, at (p + length bs) rest e'))
        × RefsLe (p + length bs) e'.backups

RefsLe-mono : (p q : ℕ) (bs : List Backup) → p ≤ q → RefsLe p bs → RefsLe q bs
RefsLe-mono p q [] h r = tt
RefsLe-mono p q (b ∷ bs) h (r, rs) = (omega arith, RefsLe-mono p q bs h rs)

module _ {A B : Type 0} (m : Load A) (f : A → Load B) {bs cs : Bytes} {e e' e'' : Env} {a : A}
    {b : B} where
  pub Reads-bind : Reads m bs e a e' → Reads (f a) cs e' b e'' → Reads (m >>= f) (bs ++ cs) e b e''
  unfolding ◌>>=◌
  Reads-bind rm rf = record {
    run = λ p rest h r.
        let first =
          rm.run p (cs ++ rest) (omega (arith, length-append {0} bs cs, length-append {0} cs rest))
            r in
        let second = rf.run (p + length bs) rest (omega (arith, length-append {0} bs cs)) first.1 in
        let n : p + length bs + length cs ≡ p + length (bs ++ cs) =
          omega (arith, length-append {0} bs cs) in
        (
          rw (append_assoc bs cs rest)
              (rw first.0 (rw second.0 (ap (λ k. ok (b, at k rest e'')) n))),
          subst (λ k. RefsLe k e''.backups) n second.1,
        );
  }

module _ {A : Type 0} (a : A) (e : Env) where
  pub Reads-pure : Reads (pure a) [] e a e
  unfolding pure
  Reads-pure = record {
    run = λ p rest h r.
        let n : p ≡ p + 0 = omega arith in
        (ap (λ k. ok (a, at k rest e)) n, subst (λ k. RefsLe k e.backups) n r);
  }

module _ {A B : Type 0} (m : Load A) (g : A → B) {bs : Bytes} {e e' : Env} {a : A} where
  -- A last step that only builds the result
  pub Reads-map : Reads m bs e a e' → Reads (m >>= λ x. pure (g x)) bs e (g a) e'
  unfolding ◌>>=◌ pure
  Reads-map rm = record {
    run = λ p rest h r. let first = rm.run p rest h r in (rw first.0 refl, first.1);
  }

-- Steps that read nothing
module _ {A B : Type 0} (m : Load A) (f : A → Load B) {cs : Bytes} {e e' e'' : Env} {a : A}
    {b : B} where
  pub Reads-step : Reads m [] e a e' → Reads (f a) cs e' b e'' → Reads (m >>= f) cs e b e''
  Reads-step rm rf = Reads-bind m f rm rf

-- The rest reads nothing.
module _ {A B : Type 0} (m : Load A) (f : A → Load B) {bs : Bytes} {e e' e'' : Env} {a : A}
    {b : B} where
  pub Reads-last : Reads m bs e a e' → Reads (f a) [] e' b e'' → Reads (m >>= f) bs e b e''
  Reads-last rm rf = subst (λ c. Reads (m >>= f) c e b e'') (append-nil bs) (Reads-bind m f rm rf)

assert_bytes_left-eq-ok :
    (n p : ℕ) (bs rest : Bytes) (e : Env)
    → length bs ≡ n
    → p + n + length rest < 2 ^ 64
    → assert_bytes_left n (at p (bs ++ rest) e) ≡ ok (tt, at p (bs ++ rest) e)
unfolding assert_bytes_left
assert_bytes_left-eq-ok n p bs rest e h k = rw (size_add-eq-ok p n (omega arith)) (
    rw (ltb-false (p + length (bs ++ rest)) (p + n) (omega (arith, length-append {0} bs rest)))
      refl)

module _ (bs : Bytes) (e : Env) where
  -- The two steps of each reading function
  pub Reads-take :
      {A : Type 0} (g : Bytes → A) (n : ℕ)
      → length bs ≡ n
      → Reads (assert_bytes_left n >>= λ _. consume n >>= λ x. pure (g x)) bs e (g bs) e
  unfolding ◌>>=◌ pure consume
  Reads-take g n h = record {
    run = λ p rest b r. (
      rw (assert_bytes_left-eq-ok n p bs rest e h (omega arith)) (
          rw (take-append n bs rest h, drop-append n bs rest h)
            (ap (λ k. ok (g bs, at (p + k) rest e)) (sym h))),
      RefsLe-mono p (p + length bs) e.backups (omega arith) r,
    );
  }

  pub Reads-read_bytes : (n : ℕ) → length bs ≡ n → Reads (read_bytes n) bs e bs e
  unfolding read_bytes ◌>>=◌ consume
  Reads-read_bytes n h = record {
    run = λ p rest b r. (
      rw (assert_bytes_left-eq-ok n p bs rest e h (omega arith)) (
          rw (take-append n bs rest h, drop-append n bs rest h)
            (ap (λ k. ok (bs, at (p + k) rest e)) (sym h))),
      RefsLe-mono p (p + length bs) e.backups (omega arith) r,
    );
  }

abbrev pow256 : ℕ → ℕ
pow256 zero = 1
pow256 (suc k) = 256 * pow256 k

le_value-le_bytes : (k v : ℕ) → v < pow256 k → le_value (le_bytes k v) ≡ v
unfolding le_value le_bytes
le_value-le_bytes zero v h = omega arith
le_value-le_bytes (suc k) v h =
    let h' : v / 256 < pow256 k = grind arith in omega (arith, le_value-le_bytes k (v / 256) h')

length-le_bytes : (k v : ℕ) → length (le_bytes k v) ≡ k
unfolding le_bytes
length-le_bytes zero v = refl
length-le_bytes (suc k) v = ap suc (length-le_bytes k (v / 256))

pub length-write64 : (v : ℕ) → length (write64 v) ≡ 8
unfolding write64
length-write64 v = length-le_bytes 8 v

module _ (v : ℕ) (e : Env) where
  pub Reads-read8 : v < 256 → Reads read8 (write8 v) e v e
  unfolding read8 write8
  Reads-read8 h =
      let byte : v % 256 ≡ v = omega arith in
      rw byte (Reads-take (v ∷ []) e (λ b. get_or b 0 0) 1 refl)

  pub Reads-read32 : v < 2 ^ 32 → Reads read32 (write32 v) e v e
  unfolding read32 write32
  Reads-read32 h =
      subst
        (λ x.
          Reads (assert_bytes_left 4 >> (consume 4 >>= λ b. pure (le_value b))) (le_bytes 4 v) e x
            e)
        (le_value-le_bytes 4 v h) (Reads-take (le_bytes 4 v) e le_value 4 (length-le_bytes 4 v))

  pub Reads-read64 : v < 2 ^ 64 → Reads read64 (write64 v) e v e
  unfolding read64 write64
  Reads-read64 h =
      subst
        (λ x.
          Reads (assert_bytes_left 8 >> (consume 8 >>= λ b. pure (le_value b))) (le_bytes 8 v) e x
            e)
        (le_value-le_bytes 8 v h) (Reads-take (le_bytes 8 v) e le_value 8 (length-le_bytes 8 v))

-- The backups with one more reference to `id`
abbrev pub count_up : ℕ → List Backup → List Backup
count_up id [] = []
count_up zero (b ∷ rest) = (record b { ref_count = b.ref_count + 1 }) ∷ rest
count_up (suc id) (b ∷ rest) = b ∷ count_up id rest

pub length-count_up : (id : ℕ) (bs : List Backup) → length (count_up id bs) ≡ length bs
length-count_up id [] = refl
length-count_up zero (b ∷ rest) = refl
length-count_up (suc id) (b ∷ rest) = ap suc (length-count_up id rest)

add_reference-eq-ok :
    (id p : ℕ) (bs : List Backup)
    → p + 1 < 2 ^ 64
    → RefsLe p bs
    → add_reference id bs ≡ ok (count_up id bs)
unfolding add_reference
add_reference-eq-ok id p [] h r = refl
add_reference-eq-ok zero p (b ∷ bs) h (r, rs) = rw (size_add-eq-ok b.ref_count 1 (omega arith)) refl
add_reference-eq-ok (suc id) p (b ∷ bs) h (r, rs) = rw (add_reference-eq-ok id p bs h rs) refl

RefsLe-count_up : (id p : ℕ) (bs : List Backup) → RefsLe p bs → RefsLe (p + 1) (count_up id bs)
RefsLe-count_up id p [] r = tt
RefsLe-count_up zero p (b ∷ bs) (r, rs) = (omega arith, RefsLe-mono p (p + 1) bs (omega arith) rs)
RefsLe-count_up (suc id) p (b ∷ bs) (r, rs) = (omega arith, RefsLe-count_up id p bs rs)

pub Reads-read_backup :
    (id : ℕ) (e : Env)
    → id < 2 ^ 64
    → id < length e.backups
    → Reads read_backup (write64 id) e id (record e { backups = count_up id e.backups })
unfolding read_backup refer ◌>>=◌ pure
Reads-read_backup id e h k = record {
  run = λ p rest b r.
      let first = (Reads-read64 id e h).run p rest b r in
      let n : length (write64 id) ≡ 8 = length-write64 id in
      let inside : leb (length e.backups) id ≡ false = ground arith in
      (
        rw first.0 (rw inside (rw (add_reference-eq-ok id p e.backups (omega arith) r) refl)),
        RefsLe-mono (p + 1) (p + length (write64 id)) (count_up id e.backups) (omega arith)
            (RefsLe-count_up id p e.backups r),
      );
}
