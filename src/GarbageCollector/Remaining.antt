-- ===== src/GarbageCollector/Remaining.antt =====
-- sRemoveRecursivelyIf() of src/safe-wrappers.c: which items of a directory are left.
use nano_backup.Prelude.{
  ℕ, ◌+◌, ◌^◌, ◌<◌, ◌≡◌, refl, sym, ap, ◌∙◌, arith, Bool, true, false, not, Bool-cases, ◌⊎◌, inl,
  inr, List, [], ◌∷◌, ◌++◌, append_assoc, length, if◌then◌else◌, ok,
}
use nano_backup.SafeMath.Bounds.{size_add-eq-ok}
use nano_backup.Str.{Bytes, slash, str, append_path}
use nano_backup.GarbageCollector.{GcStatistics}
use nano_backup.GarbageCollector.Removed.{regular_size, asked}
use nano_backup.GarbageCollector.Collect.{
  Items, no_item, other_item, directory_item, ShouldRemove, remove_items,
}

abbrev pub is_no_item : Items → Bool
is_no_item no_item = true
is_no_item _ = false

-- The items, and the bytes of the regular files, in a tree
abbrev pub count_items : Items → ℕ
count_items no_item = 0
count_items (other_item name is_regular size next) = 1 + count_items next
count_items (directory_item name size items next) = 1 + (count_items items + count_items next)

abbrev pub size_items : Items → ℕ
size_items no_item = 0
size_items (other_item name is_regular size next) = regular_size is_regular size + size_items next
size_items (directory_item name size items next) = size_items items + size_items next

-- The paths of the items that are no directories
abbrev pub file_paths : Bytes → Items → List Bytes
file_paths dir no_item = []
file_paths dir (other_item name is_regular size next) =
    (dir ++ (slash ∷ name)) ∷ file_paths dir next
file_paths dir (directory_item name size items next) =
    file_paths (dir ++ (slash ∷ name)) items ++ file_paths dir next

abbrev pub filter : (Bytes → Bool) → List Bytes → List Bytes
filter test [] = []
filter test (path ∷ rest) = if test path then path ∷ filter test rest else filter test rest

filter-append :
    (test : Bytes → Bool) (xs ys : List Bytes)
    → filter test (xs ++ ys) ≡ filter test xs ++ filter test ys
filter-append test [] ys = refl
filter-append test (x ∷ xs) ys = elim (Bool-cases (test x)) [
  | inl e ↦ rw (e, filter-append test xs ys) refl
  | inr e ↦ rw (e, filter-append test xs ys) refl
]

-- The paths in a tree fit a string.
abbrev pub Short : Bytes → Items → Type 0
Short dir no_item = Unit
Short dir (other_item name is_regular size next) =
    (length dir + 1 + length name + 1 < 2 ^ 64) × Short dir next
Short dir (directory_item name size items next) =
    (length dir + 1 + length name + 1 < 2 ^ 64)
    × Short (dir ++ (slash ∷ name)) items
    × Short dir next

append_path-eq-ok :
    (dir name : Bytes)
    → length dir + 1 + length name + 1 < 2 ^ 64
    → append_path (str dir) (str name) ≡ ok (str (dir ++ (slash ∷ name)))
unfolding append_path
append_path-eq-ok dir name h =
    rw
      (
        size_add-eq-ok (length dir) 1 (omega arith),
        size_add-eq-ok (length dir + 1) (length name) (omega arith),
        size_add-eq-ok (length dir + 1 + length name) 1 h,
      )
      refl

-- The path is that of an item below the repository.
abbrev pub IsBelow : Bytes → Bytes → Type 0
IsBelow repo_path path = (p : Bytes) × (path ≡ repo_path ++ (slash ∷ p))

abbrev pub IsDirectory : Bytes → Bytes → Type 0
IsDirectory repo_path dir = (dir ≡ repo_path) ⊎ IsBelow repo_path dir

item-IsBelow :
    (repo_path dir name : Bytes)
    → IsDirectory repo_path dir
    → IsBelow repo_path (dir ++ (slash ∷ name))
item-IsBelow repo_path dir name (inl e) = (name, ap (λ d. d ++ (slash ∷ name)) e)
item-IsBelow repo_path dir name (inr (p, e)) = (
  p ++ (slash ∷ name),
  ap (λ d. d ++ (slash ∷ name)) e ∙ append_assoc repo_path (slash ∷ p) (slash ∷ name),
)

module _ (repo_path : Bytes) (needed : Bytes → Bool) where
  -- The callback removes what is not needed, and counts it.
  abbrev pub Decides : ShouldRemove → Type 0
  Decides should_remove =
      (s : GcStatistics) (path : Bytes) (is_regular : Bool) (size : ℕ)
      → IsBelow repo_path path
      → s.deleted_items_count + 1 < 2 ^ 64
      → s.deleted_items_total_size + regular_size is_regular size < 2 ^ 64
      → should_remove s path is_regular size
        ≡ ok (not (needed path), asked (needed path) s is_regular size)

  -- A directory that is left is needed, or something is left in it.
  abbrev pub IsTidy : Bytes → Items → Type 0
  IsTidy dir no_item = Unit
  IsTidy dir (other_item name is_regular size next) = IsTidy dir next
  IsTidy dir (directory_item name size items next) =
      (is_no_item items ≡ true → needed (dir ++ (slash ∷ name)) ≡ true)
      × IsTidy (dir ++ (slash ∷ name)) items
      × IsTidy dir next

  -- `items'` is what is left of `items`: of the files those that are needed, and no directory but
  -- for their sake or its own. The statistics have grown by what is missing.
  abbrev pub Remains : Bytes → Items → GcStatistics → Items → GcStatistics → Type 0
  Remains dir items s items' s' =
      (file_paths dir items' ≡ filter needed (file_paths dir items))
      × IsTidy dir items'
      × (s'.deleted_items_count + count_items items' ≡ s.deleted_items_count + count_items items)
      × (s'.deleted_items_total_size + size_items items'
          ≡ s.deleted_items_total_size + size_items items)

  no_file_paths :
      (dir : Bytes) (items : Items) → is_no_item items ≡ true → file_paths dir items ≡ []
  no_file_paths dir no_item e = refl
  no_file_paths dir (other_item name is_regular size next) e = cc
  no_file_paths dir (directory_item name size items next) e = cc

  no_count :
      (items : Items) → is_no_item items ≡ true → (count_items items ≡ 0) × (size_items items ≡ 0)
  no_count no_item e = (refl, refl)
  no_count (other_item name is_regular size next) e = cc
  no_count (directory_item name size items next) e = cc

  module _ (should_remove : ShouldRemove) (decides : Decides should_remove) where
    pub remove_items-Remains :
        (items : Items) (dir : Bytes) (s : GcStatistics)
        → IsDirectory repo_path dir
        → Short dir items
        → s.deleted_items_count + count_items items < 2 ^ 64
        → s.deleted_items_total_size + size_items items < 2 ^ 64
        → (items' : Items) × (s' : GcStatistics) × (remove_items should_remove dir items s
            ≡ ok (is_no_item items', items', s'))
          × Remains dir items s items' s'
    unfolding remove_items
    remove_items-Remains no_item dir s d h c t = (no_item, s, refl, (refl, tt, refl, refl))
    remove_items-Remains (other_item name is_regular size next) dir s d (h, hs) c t =
        let path = dir ++ (slash ∷ name) in
        let below = item-IsBelow repo_path dir name d in
        let joined = append_path-eq-ok dir name h in
        let answer = decides s path is_regular size below (omega arith) (omega arith) in
        elim (Bool-cases (needed path)) [
          | inl keep ↦
              let (next', s', e, (files, tidy, count, total)) =
                remove_items-Remains next dir s d hs (omega arith) (omega arith) in
              (
                other_item name is_regular size next',
                s',
                rw (joined, answer, keep, e) refl,
                (rw (keep, files) refl, tidy, omega arith, omega arith),
              )
          | inr gone ↦
              let s₁ = asked false s is_regular size in
              let (next', s', e, (files, tidy, count, total)) =
                remove_items-Remains next dir s₁ d hs (omega arith) (omega arith) in
              (
                next',
                s',
                rw (joined, answer, gone, e) refl,
                (rw (gone, files) refl, tidy, omega arith, omega arith),
              )
        ]
    remove_items-Remains (directory_item name size items next) dir s d (h, hi, hs) c t =
        let path = dir ++ (slash ∷ name) in
        let below = item-IsBelow repo_path dir name d in
        let joined = append_path-eq-ok dir name h in
        let (items', s₁, e₁, (files₁, tidy₁, count₁, total₁)) =
          remove_items-Remains items path s (inr below) hi (omega arith) (omega arith) in
        elim (Bool-cases (is_no_item items')) [
          | inl empty ↦
              let (none, nothing) = no_count items' empty in
              let no_file = no_file_paths path items' empty in
              let answer = decides s₁ path false size below (omega arith) (omega arith) in
              elim (Bool-cases (needed path)) [
                | inl keep ↦
                    let (next', s', e₂, (files, tidy, count, total)) =
                      remove_items-Remains next dir s₁ d hs (omega arith) (omega arith) in
                    (
                      directory_item name size items' next',
                      s',
                      rw (joined, e₁, empty, answer, keep, e₂) refl,
                      (
                        rw (files₁, files)
                            (sym
                              (filter-append needed (file_paths path items) (file_paths dir next))),
                        ((λ e. keep), tidy₁, tidy),
                        omega arith,
                        omega arith,
                      ),
                    )
                | inr gone ↦
                    let (next', s', e₂, (files, tidy, count, total)) =
                      remove_items-Remains next dir (asked false s₁ false size) d hs (omega arith)
                        (omega arith) in
                    (
                      next',
                      s',
                      rw (joined, e₁, empty, answer, gone, e₂) refl,
                      (
                        files
                            ∙ ap (λ l. l ++ filter needed (file_paths dir next))
                                (sym no_file ∙ files₁)
                            ∙ sym (
                                filter-append needed (file_paths path items) (file_paths dir next)),
                        tidy,
                        omega arith,
                        omega arith,
                      ),
                    )
              ]
          | inr some_left ↦
              let (next', s', e₂, (files, tidy, count, total)) =
                remove_items-Remains next dir s₁ d hs (omega arith) (omega arith) in
              (
                directory_item name size items' next',
                s',
                rw (joined, e₁, some_left, e₂) refl,
                (
                  rw (files₁, files)
                      (sym (filter-append needed (file_paths path items) (file_paths dir next))),
                  ((λ e. cc), tidy₁, tidy),
                  omega arith,
                  omega arith,
                ),
              )
        ]
