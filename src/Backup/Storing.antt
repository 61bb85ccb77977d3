-- ===== src/Backup/Storing.antt =====
-- addFileToRepo() of src/backup.c: what it leaves in the repository.
use nano_backup.Prelude.{
  ℕ, ◌≤◌, ◌<◌, ◌≡◌, ◌≢◌, refl, ap, subst, sym, ◌∙◌, ◌+◌, arith, true, false, Bool-cases, [], ◌∷◌,
  take, drop, append_assoc, append-nil, All, get_or, take-length, drop-length, length, bytes_eq,
  bytes_eq_refl, eq_of_bytes_eq, none, some, Option-cases, ◌⊎◌, inl, inr, ok, unexpected_end,
}
use nano_backup.Str.{Bytes}
use nano_backup.Metadata.{RegularFileInfo, file_hash_size}
use nano_backup.Streams.Blocks.{IsAppending, read_blocks_lem}
use nano_backup.Repository.Store.{
  Store, directory_of, file, folder, with_item, s_fopen_write, path_with_info, RepoWriter, info,
  repo_writer_open, repo_writer_write,
}
use nano_backup.Repository.Parents.{IsDirectory, IsPlace, with_item-other}
use nano_backup.Repository.Writer.{
  IsTmp, IsPlace-with_item, longer-differs, Written, path_with_info-long, tmp-differs,
  repo_writer_close-Written,
}
use nano_backup.Repository.Paths.{IsByte, IsInfo, path_with_info_injective}
use nano_backup.Backup.Changes.{Stats}
use nano_backup.Backup.Finish.{Sources, with_slot, copy_file_into_repo}

-- The directory of the repository exists. Each file that is named after a hash, a size and a slot has
-- this size, where its two directories stand is nothing else, and no directory is in the way of the
-- temporary file.
pub record IsRepo (store : Store) (repo_path tmp : Bytes) : Type 0 where
  pub root : store repo_path ≡ some folder
  pub places :
      (i : RegularFileInfo) → IsInfo i → IsPlace store repo_path (path_with_info repo_path i)
  pub files :
      (i : RegularFileInfo)
      → IsInfo i
      → (store (path_with_info repo_path i) ≡ none)
        ⊎ ((stored : Bytes) × (store (path_with_info repo_path i) ≡ some (file stored))
            × (length stored ≡ i.size))
  pub free : store tmp ≢ some folder

differ : (p q : Bytes) → bytes_eq p q ≡ false → p ≢ q
differ p q e same = let bad : bytes_eq p q ≡ true = rw same (bytes_eq_refl q) in cc

pub with_slot-IsInfo :
    (i : RegularFileInfo) (slot : ℕ) → IsInfo i → slot ≤ 255 → IsInfo (with_slot i slot)
with_slot-IsInfo i slot h l = record {
  hash_length = h.hash_length;
  hash_bytes = h.hash_bytes;
  size_bound = h.size_bound;
  slot_bound = omega arith;
}

pub first_byte : (i : RegularFileInfo) → IsInfo i → get_or i.hash 0 0 < 256
first_byte i h = first i.hash h.hash_length h.hash_bytes
  where
    first : (hash : Bytes) → length hash ≡ file_hash_size → All IsByte hash → get_or hash 0 0 < 256
    first [] l b = omega arith
    first (c ∷ rest) l b = b.0

repo_writer_write-IsAppending : IsAppending repo_writer_write
unfolding repo_writer_write
repo_writer_write-IsAppending = record {
  nothing = λ w. rw (append-nil w.stream) refl;
  joined = λ w a b. rw (append_assoc w.stream a b) refl;
}

opened_for_writing :
    (store : Store) (tmp : Bytes)
    → store tmp ≢ some folder
    → store (directory_of tmp) ≡ some folder
    → s_fopen_write store tmp ≡ ok (with_item store tmp (some (file [])))
opened_for_writing store tmp h there = elim (Option-cases (store tmp)) [
  | inl e ↦ rw (there, e) refl
  | inr (file content, e) ↦ rw (there, e) refl
  | inr (folder, e) ↦ absurd (h e)
]

pub copy_file_into_repo-Written :
    (f : Sources) (store : Store) (repo_path tmp path content : Bytes) (i : RegularFileInfo)
    (stats : Stats)
    → IsRepo store repo_path tmp
    → IsTmp repo_path tmp
    → IsInfo i
    → f.open_read path ≡ ok content
    → length content ≡ i.size
    → 0 < stats.st_blksize
    → store (path_with_info repo_path i) ≡ none
    → (store' : Store) × (copy_file_into_repo f store repo_path tmp path i stats ≡ ok store')
      × Written store store' repo_path tmp (path_with_info repo_path i) content
unfolding copy_file_into_repo repo_writer_open repo_writer_write
copy_file_into_repo-Written f store repo_path tmp path content i stats r t h o l b free =
    let full = path_with_info repo_path i in
    let opened = with_item store tmp (some (file [])) in
    let d = (tmp-differs repo_path tmp i t (first_byte i h)).0 in
    let free' : opened full ≡ none =
      with_item-other store tmp full (some (file [])) (λ s. d (sym s)) ∙ free in
    let (store', e, w) =
      repo_writer_close-Written opened repo_path tmp content i t (first_byte i h) free' (
        IsPlace-with_item store repo_path tmp i (some (file [])) t (first_byte i h)
          (r.places i h)) in
    let there : store (directory_of tmp) ≡ some folder = ap store t.1 ∙ r.root in
    let writer : RepoWriter = record {
      repo_path = repo_path;
      repo_tmp_file_path = tmp;
      stream = [];
      rename_to = info i;
    } in
    let read =
      read_blocks_lem repo_writer_write (unexpected_end path) stats.st_blksize i.size i.size content
        writer repo_writer_write-IsAppending b (omega arith) (omega arith) in
    let whole : take i.size content ≡ content =
      subst (λ n. take n content ≡ content) l (take-length content) in
    let nothing : drop i.size content ≡ [] =
      subst (λ n. drop n content ≡ []) l (drop-length content) in
    (
      store',
      rw (o, opened_for_writing store tmp r.free there, read, whole, nothing) e,
      record {
        stored = w.stored;
        cleared = w.cleared;
        kept = λ p item n there.
            w.kept p item n (with_item-other store tmp p (some (file [])) n ∙ there);
        outer = w.outer;
        inner = w.inner;
        others = λ p o n a c. w.others p o n a c ∙ with_item-other store tmp p (some (file [])) c;
      },
    )

-- What was nothing or a directory is still one of these, but for the stored file.
IsDirectory-Written :
    (store store' : Store) (repo_path tmp full content p : Bytes)
    → Written store store' repo_path tmp full content
    → p ≢ full
    → p ≢ tmp
    → IsDirectory (store p)
    → IsDirectory (store' p)
IsDirectory-Written store store' repo_path tmp full content p w a c d =
    let outer = take (length repo_path + 2) full in
    let inner = take (length repo_path + 5) full in
    elim (Bool-cases (bytes_eq p outer)) [
      | inl e ↦ subst (λ q. IsDirectory (store' q)) (sym (eq_of_bytes_eq p outer e)) w.outer
      | inr o ↦ elim (Bool-cases (bytes_eq p inner)) [
        | inl e ↦ inr (ap store' (eq_of_bytes_eq p inner e) ∙ w.inner)
        | inr n ↦ subst IsDirectory (sym (w.others p (differ p outer o) (differ p inner n) a c)) d
      ]
    ]

-- A repository stays one when a file gets its place.
pub Written-IsRepo :
    (store store' : Store) (repo_path tmp content : Bytes) (i : RegularFileInfo)
    → IsRepo store repo_path tmp
    → IsTmp repo_path tmp
    → IsInfo i
    → length content ≡ i.size
    → Written store store' repo_path tmp (path_with_info repo_path i) content
    → IsRepo store' repo_path tmp
Written-IsRepo store store' repo_path tmp content i r t h l w = record {
  root = w.kept repo_path folder (λ s. t.2 (sym s)) r.root;
  places = λ j k.
      let full = path_with_info repo_path i in
      let other = path_with_info repo_path j in
      let long = path_with_info-long repo_path i in
      let long' = path_with_info-long repo_path j in
      let ds = (tmp-differs repo_path tmp j t (first_byte j k)).1 in
      let place = r.places j k in
      let still = λ (n : ℕ) (a : 1 < n) (b : n ≤ 5).
        IsDirectory-Written store store' repo_path tmp full content
          (take (length repo_path + n) other) w
          (λ s.
            longer-differs (length repo_path + n) full other (omega arith) (omega arith) (sym s))
          (λ s. ds n a (sym s)) in
      record {
        root = w.kept repo_path folder (λ s. t.2 (sym s)) r.root;
        outer = still 2 (omega arith) (omega arith) place.outer;
        inner = still 5 (omega arith) (omega arith) place.inner;
      };
  files = λ j k.
      let full = path_with_info repo_path i in
      let other = path_with_info repo_path j in
      let long = path_with_info-long repo_path i in
      let long' = path_with_info-long repo_path j in
      elim (Bool-cases (bytes_eq other full)) [
        | inl e ↦
            let same = eq_of_bytes_eq other full e in
            inr (
              content,
              ap store' same ∙ w.stored,
              l ∙ sym (path_with_info_injective repo_path j i k h same).1,
            )
        | inr e ↦
            let unchanged : store' other ≡ store other =
              w.others other
                (longer-differs (length repo_path + 2) other full (omega (arith, long'))
                  (omega (arith, long)))
                (longer-differs (length repo_path + 5) other full long' (omega (arith, long)))
                (differ other full e)
                (λ same. (tmp-differs repo_path tmp j t (first_byte j k)).0 (sym same)) in
            rw unchanged (r.files j k)
      ];
  free = λ e. let gone = w.cleared in cc;
}
