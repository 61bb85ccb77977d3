-- ===== src/Metadata/Trees.antt =====
-- The path tree of src/metadata.c: what readPathSubnodes() makes of the bytes that writePathList()
-- writes.
use Prim.Native.Nat.{max}
use nano_backup.Prelude.{ℕ, zero, suc, ◌+◌, ◌^◌, ◌≤◌, ◌<◌, ◌≡◌, refl, arith, ◌∙◌, subst, sym}
use nano_backup.Prelude.{[], ◌∷◌, ◌++◌, length, All, map, ok, Bool-cases, inl, inr, Result, Error}
use nano_backup.Prelude.{
  true, false, ◌==◌, Bool, if◌then◌else◌, take-length, length-append, not, ◌||◌,
}
use nano_backup.Str.{Bytes, slash, append_path, str, str_unterminated, is_dot_element, StringView}
use nano_backup.Str.Paths.{append_path-eq-ok}
use nano_backup.Hint.{bh_none}
use nano_backup.Metadata.{Point, PathHistory, Node, PathList, null, node, Metadata}
use nano_backup.Metadata.Codec.{
  write8, write64, write_path_history_list, is_kept, name_of, count_kept, write_node, write_nodes,
  write_path_list,
}
use nano_backup.Metadata.Load.{
  Load, pure, read_path, check, lift, map_path, read_node, read_nodes, has_byte, read_path_subnodes,
}
use nano_backup.Metadata.Reads.{
  Env, Reads, Reads-bind, Reads-map, Reads-step, Reads-last, Reads-pure, Reads-read_bytes,
  Reads-read8, Reads-read64, length-write64,
}
use nano_backup.Metadata.Histories.{
  IsPoint, stored_point, count_points, length-count_points, Reads-read_full_path_history,
}

-- A node whose path is that of the parent and a name that can stand in a file, and whose points
-- satisfy `P`.
pub record IsNode (P : Point → Type 0) (parent : Bytes) (nd : Node) : Type 0 where
  pub path : nd.path ≡ parent ++ (slash ∷ name_of nd)
  pub named : 0 < length (name_of nd)
  pub no_null : has_byte 0 (name_of nd) ≡ false
  pub no_slash : has_byte slash (name_of nd) ≡ false
  pub no_dot : is_dot_element (str_unterminated (name_of nd) (length (name_of nd))) ≡ false
  pub path_size : length parent + length (name_of nd) + 2 < 2 ^ 64
  pub history_size : length nd.history < 2 ^ 64
  pub history : All P nd.history
  pub policy : nd.policy < 256

-- The nodes that are written are nodes under `parent`, at every depth.
abbrev pub IsTree : (Point → Type 0) → Bytes → PathList → Type 0
IsTree P parent null = Unit
IsTree P parent (node nd subnodes next) =
    (is_kept nd ≡ true
      → IsNode P parent nd × (count_kept subnodes < 2 ^ 64) × IsTree P nd.path subnodes)
    × IsTree P parent next

module _ {P Q : Point → Type 0} (f : (point : Point) → P point → Q point) where
  pub All-map : (h : PathHistory) → All P h → All Q h
  All-map [] a = tt
  All-map (point ∷ h) (a, more) = (f point a, All-map h more)

  IsNode-map : (parent : Bytes) (nd : Node) → IsNode P parent nd → IsNode Q parent nd
  IsNode-map parent nd v = record {
    path = v.path;
    named = v.named;
    no_null = v.no_null;
    no_slash = v.no_slash;
    no_dot = v.no_dot;
    path_size = v.path_size;
    history_size = v.history_size;
    history = All-map nd.history v.history;
    policy = v.policy;
  }

  pub IsTree-map : (parent : Bytes) (l : PathList) → IsTree P parent l → IsTree Q parent l
  IsTree-map parent null v = tt
  IsTree-map parent (node nd subnodes next) (v, vs) = (
    λ kept. let v' = v kept in (IsNode-map parent nd v'.0, v'.1, IsTree-map nd.path subnodes v'.2),
    IsTree-map parent next vs,
  )

abbrev pub stored_node : Metadata → Node → Node
stored_node m nd = record nd { hint = bh_none; history = map (stored_point m) nd.history }

-- The nodes as they are read back in front of `tree`: without those that are not part of the
-- repository, each list in reverse order, and without hints.
unfoldable pub stored_onto : Metadata → PathList → PathList → PathList
stored_onto m null tree = tree
stored_onto m (node nd subnodes next) tree =
    stored_onto m next
      (if is_kept nd then node (stored_node m nd) (stored_onto m subnodes null) tree else tree)

-- The references and the mapped paths that the nodes add
unfoldable pub tree_env : Metadata → PathList → Env → Env
tree_env m null e = e
tree_env m (node nd subnodes next) e =
    let e' : Env = record {
      backups = count_points m nd.history e.backups;
      table = nd.path ∷ e.table;
    } in
    tree_env m next (if is_kept nd then tree_env m subnodes e' else e)

unfoldable pub depth : PathList → ℕ
depth null = 0
depth (node nd subnodes next) =
    if is_kept nd then max (suc (depth subnodes)) (depth next) else depth next

Reads-check : (b : Bool) (er : Error) (e : Env) → b ≡ true → Reads (check b er) [] e tt e
unfolding check pure
Reads-check b er e h = rw h (Reads-pure tt e)

Reads-lift : {A : Type 0} (r : Result A) (a : A) (e : Env) → r ≡ ok a → Reads (lift r) [] e a e
unfolding lift pure
Reads-lift r a e h = rw h (Reads-pure a e)

Reads-map_path :
    (p : Bytes) (e : Env) → Reads (map_path p) [] e tt (record e { table = p ∷ e.table })
unfolding map_path pure
Reads-map_path p e = record {
  run = λ q rest b r. (Reads-pure tt (record e { table = p ∷ e.table })).run q rest b r;
}

-- A name that can stand in a file, under a parent's path
Reads-read_name :
    (parent name : Bytes) (e : Env)
    → 0 < length name
    → has_byte 0 name ≡ false
    → has_byte slash name ≡ false
    → is_dot_element (str_unterminated name (length name)) ≡ false
    → length parent + length name + 2 < 2 ^ 64
    → Reads (read_path parent) (write64 (length name) ++ name) e (parent ++ (slash ∷ name)) e
unfolding read_path
Reads-read_name parent name e named no_null no_slash no_dot size =
    let joined : append_path (str parent) (str_unterminated name (length name))
        ≡ ok (str (parent ++ (slash ∷ name))) =
      rw (take-length name) (append_path-eq-ok parent name true false size) in
    Reads-bind _ _ (Reads-read64 (length name) e (omega arith)) (
      Reads-step _ _ (Reads-check (not (length name == 0)) _ e (ground arith)) (
        Reads-last _ _ (Reads-read_bytes name e (length name) refl) (
          Reads-step _ _ (Reads-check (not (has_byte 0 name)) _ e (rw no_null refl)) (
            Reads-step _ _
              (Reads-check
                (not (has_byte slash name || is_dot_element (str_unterminated name (length name))))
                _ e (rw (no_slash, no_dot) refl))
              (Reads-map _ (λ (p : StringView). p.content)
                (Reads-lift _ (str (parent ++ (slash ∷ name))) e joined))))))

Reads-read_path :
    (m : Metadata) (n : ℕ) (parent : Bytes) (nd : Node) (e : Env)
    → IsNode (IsPoint m n) parent nd
    → Reads (read_path parent) (write64 (length (name_of nd)) ++ name_of nd) e nd.path e
Reads-read_path m n parent nd e v =
    subst (λ p. Reads (read_path parent) (write64 (length (name_of nd)) ++ name_of nd) e p e)
      (sym v.path)
      (Reads-read_name parent (name_of nd) e v.named v.no_null v.no_slash v.no_dot v.path_size)

abbrev visit : Metadata → Node → Env → Env
visit m nd e = record { backups = count_points m nd.history e.backups; table = nd.path ∷ e.table }

length-tree_env :
    (m : Metadata) (l : PathList) (e : Env) → length (tree_env m l e).backups ≡ length e.backups
unfolding tree_env
length-tree_env m null e = refl
length-tree_env m (node nd subnodes next) e =
    length-tree_env m next (if is_kept nd then tree_env m subnodes (visit m nd e) else e)
    ∙ inner (length-tree_env m subnodes (visit m nd e))
  where
    inner :
        length (tree_env m subnodes (visit m nd e)).backups ≡ length (visit m nd e).backups
        → length (if is_kept nd then tree_env m subnodes (visit m nd e) else e).backups
          ≡ length e.backups
    inner ih = elim (Bool-cases (is_kept nd)) [
      | inl kept ↦ rw kept (ih ∙ length-count_points m nd.history e.backups)
      | inr skipped ↦ rw skipped refl
    ]

module _ (m : Metadata) where
  -- One node, for a function that reads its subnodes
  Reads-read_node :
      (nd : Node) (tree subtree : PathList) (parent written : Bytes) (rec : Bytes → Load PathList)
      (e e' : Env)
      → length e.backups < 2 ^ 64
      → IsNode (IsPoint m (length e.backups)) parent nd
      → Reads (rec nd.path) written (visit m nd e) subtree e'
      → Reads
          (read_node rec parent tree)
          (write_node m nd written)
          e
          (node (stored_node m nd) subtree tree)
          e'
  unfolding read_node write_node
  Reads-read_node nd tree subtree parent written rec e e' n v inner =
      let mapped : Env = record e { table = nd.path ∷ e.table } in
      Reads-bind _ _ (Reads-read_path m (length e.backups) parent nd e v) (
        Reads-step _ _ (Reads-map_path nd.path e) (
          Reads-bind _ _ (Reads-read8 nd.policy mapped v.policy) (
            Reads-bind _ _
              (Reads-read_full_path_history m nd.history mapped n v.history_size v.history)
              (Reads-map _ (λ subnodes. node (stored_node m nd) subnodes tree) inner))))

  -- The nodes of a list, for a fuel that is not below the depth of their subnodes
  Reads-read_nodes :
      (l : PathList) (tree : PathList) (parent : Bytes) (fuel : ℕ) (e : Env)
      → depth l ≤ fuel
      → length e.backups < 2 ^ 64
      → IsTree (IsPoint m (length e.backups)) parent l
      → Reads
          (read_nodes (read_path_subnodes fuel) parent (count_kept l) tree)
          (write_nodes m l)
          e
          (stored_onto m l tree)
          (tree_env m l e)
  unfolding depth count_kept write_nodes read_nodes stored_onto tree_env read_path_subnodes
  Reads-read_nodes null tree parent fuel e d n v = Reads-pure tree e
  Reads-read_nodes (node nd subnodes next) tree parent zero e d n (v, vs) =
      elim (Bool-cases (is_kept nd)) [
        | inr skipped ↦
            rw skipped (Reads-read_nodes next tree parent zero e (ground (arith, skipped)) n vs)
        | inl kept ↦ absurd (ground (arith, kept))
      ]
  Reads-read_nodes (node nd subnodes next) tree parent (suc fuel) e d n (v, vs) =
      elim (Bool-cases (is_kept nd)) [
        | inr skipped ↦
            rw skipped
              (Reads-read_nodes next tree parent (suc fuel) e (ground (arith, skipped)) n vs)
        | inl kept ↦
            let v' = v kept in
            let e' : Env = visit m nd e in
            let same : length e'.backups ≡ length e.backups =
              length-count_points m nd.history e.backups in
            let inner =
              Reads-read_nodes subnodes null nd.path fuel e' (ground (arith, kept)) (rw same n)
                (rw same v'.2) in
            let same' : length (tree_env m subnodes e').backups ≡ length e.backups =
              length-tree_env m subnodes e' ∙ same in
            rw kept (
              Reads-bind _ _
                (Reads-read_node nd tree (stored_onto m subnodes null) parent _
                  (read_path_subnodes (suc fuel)) e (tree_env m subnodes e') n v'.0
                  (Reads-bind _ _ (Reads-read64 (count_kept subnodes) e' v'.1) inner))
                (Reads-read_nodes next (node (stored_node m nd) (stored_onto m subnodes null) tree)
                  parent (suc fuel) (tree_env m subnodes e') (ground (arith, kept)) (rw same' n)
                  (rw same' vs)))
      ]

  length-write_node :
      (nd : Node) (written : Bytes) → length written ≤ length (write_node m nd written)
  unfolding write_node
  length-write_node nd written =
      let name = write64 (length (name_of nd)) ++ name_of nd in
      let history = write_path_history_list m nd.history in
      omega (
        arith,
        length-append {0} name (write8 nd.policy ++ (history ++ written)),
        length-append {0} (write8 nd.policy) (history ++ written),
        length-append {0} history written,
      )

  depth-le-length : (l : PathList) → depth l ≤ length (write_nodes m l)
  unfolding depth write_nodes
  depth-le-length null = omega arith
  depth-le-length (node nd subnodes next) = elim (Bool-cases (is_kept nd)) [
    | inr skipped ↦ rw skipped (depth-le-length next)
    | inl kept ↦
        let written = write64 (count_kept subnodes) ++ write_nodes m subnodes in
        rw kept (
          omega (
            arith,
            depth-le-length subnodes,
            depth-le-length next,
            length-append {0} (write_node m nd written) (write_nodes m next),
            length-append {0} (write64 (count_kept subnodes)) (write_nodes m subnodes),
            length-write64 (count_kept subnodes),
            length-write_node nd written,
          ))
  ]

  -- A written tree is read back as `stored_onto` says, with a fuel above the size of what is written.
  pub Reads-read_path_subnodes :
      (l : PathList) (parent : Bytes) (fuel : ℕ) (e : Env)
      → length (write_path_list m l) < fuel
      → length e.backups < 2 ^ 64
      → count_kept l < 2 ^ 64
      → IsTree (IsPoint m (length e.backups)) parent l
      → Reads
          (read_path_subnodes fuel parent)
          (write_path_list m l)
          e
          (stored_onto m l null)
          (tree_env m l e)
  unfolding read_path_subnodes write_path_list
  Reads-read_path_subnodes l parent zero e d n c v = absurd (omega arith)
  Reads-read_path_subnodes l parent (suc fuel) e d n c v =
      Reads-bind _ _ (Reads-read64 (count_kept l) e c) (
        Reads-read_nodes l null parent fuel e
          (omega (
            arith,
            depth-le-length l,
            length-append {0} (write64 (count_kept l)) (write_nodes m l),
          ))
          n v)
