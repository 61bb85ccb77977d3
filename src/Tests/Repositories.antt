-- ===== src/Tests/Repositories.antt =====
-- Instances of the theorems on the files of a repository: a new file of 21 bytes, an empty repository
-- and a hash that is the length of the text.
use nano_backup.Prelude.{
  ℕ, zero, suc, ◌+◌, ◌<◌, ◌≢◌, ap, take, length-take, ◌%◌, ◌≡◌, refl, arith, [], ◌∷◌, ◌++◌,
  append-nil, append_assoc, All, length, bytes_eq, none, some, inl, ok,
}
use nano_backup.Str.{Bytes}
use nano_backup.Hint.{bh_added, bpol_track}
use nano_backup.Metadata.{Metadata, RegularFileInfo, regular_file, null, node, current}
use nano_backup.Streams.Blocks.{IsAppending}
use nano_backup.FileHash.{Blake2, file_hash, WholeHash, file_hash-WholeHash}
use nano_backup.Repository.Store.{Store, file, folder, with_item, path_with_info}
use nano_backup.Repository.Store
use nano_backup.Repository.Parents.{IsPlace, with_item-other, with_item-same}
use nano_backup.Repository.Writer.{IsTmp, path_with_info-long, Written, repo_writer_close-Written}
use nano_backup.Repository.Paths.{IsByte, IsInfo, build_file_path_injective}
use nano_backup.Backup.Changes.{Stats}
use nano_backup.Backup.Finish.{
  Sources, with_slot, equals_to_stored_file, search_file_duplicates, add_file_to_repo,
}
use nano_backup.Backup.Compare.{equals_to_stored_file-whole}
use nano_backup.Backup.Duplicates.{Searched, search_file_duplicates-Searched}
use nano_backup.Backup.Storing.{IsRepo}
use nano_backup.Backup.Adding.{
  IsHash, IsUnchanged, IsPrepared, Added, hashed, add_file_to_repo-Added,
}

abbrev pub zeros : ℕ → Bytes
zeros zero = []
zeros (suc n) = 0 ∷ zeros n

zeros-All : (n : ℕ) → All IsByte (zeros n)
zeros-All zero = tt
zeros-All (suc n) = (omega arith, zeros-All n)

abbrev pub length_blake : Blake2
length_blake = record {
  State = Bytes;
  init = [];
  update = λ xs ys. xs ++ ys;
  final = λ xs. (length xs % 256) ∷ zeros 19;
}

pub length_blake-IsAppending : IsAppending length_blake.update
length_blake-IsAppending = record { nothing = append-nil; joined = append_assoc }

pub length_blake-IsHash : IsHash length_blake
length_blake-IsHash = record {
  appending = length_blake-IsAppending;
  hash_length = λ s. refl;
  hash_bytes = λ s. (omega arith, zeros-All 19);
}

abbrev pub text : Bytes
text = b'x' ∷ zeros 20

abbrev pub text_path : Bytes
text_path = b'/' ∷ b'f' ∷ []

abbrev pub text_stats : Stats
text_stats = record {
  st_uid = 1;
  st_gid = 2;
  st_mode = 33188;
  st_mtime = 5;
  st_size = 21;
  st_blksize = 4;
}

abbrev pub text_info : RegularFileInfo
text_info = record {
  permission_bits = 33188;
  modification_time = 5;
  size = 21;
  hash = 21 ∷ zeros 19;
  slot = 0;
}

abbrev pub sources : Sources
sources = record { stat = λ path. ok text_stats; open_read = λ path. ok text; blake = length_blake }

abbrev pub repo : Bytes
repo = b'/' ∷ b'r' ∷ []

abbrev pub tmp_file : Bytes
tmp_file = repo ++ (b'/' ∷ b't' ∷ b'm' ∷ b'p' ∷ [])

-- The directory of the repository, and nothing else
abbrev pub empty_store : Store
empty_store = with_item (λ path. none) repo (some folder)

pub empty_store-root : empty_store repo ≡ some folder
empty_store-root = with_item-same (λ path. none) repo (some folder)

pub empty_store-other : (path : Bytes) → path ≢ repo → empty_store path ≡ none
empty_store-other path d = with_item-other (λ path. none) repo path (some folder) d

empty_store-free : (i : RegularFileInfo) → empty_store (path_with_info repo i) ≡ none
empty_store-free i =
    let long = path_with_info-long repo i in
    empty_store-other (path_with_info repo i)
      (λ s. let e : length (path_with_info repo i) ≡ length repo = ap length s in omega arith)

empty_store-IsPlace : (i : RegularFileInfo) → IsPlace empty_store repo (path_with_info repo i)
empty_store-IsPlace i =
    let full = path_with_info repo i in
    let long = path_with_info-long repo i in
    let above = λ (n : ℕ) (a : 2 + n < length full) (b : 0 < n).
      empty_store-other (take (2 + n) full) (λ s.
        let e : length (take (2 + n) full) ≡ length repo = ap length s in
        omega (arith, length-take (2 + n) full (omega arith))) in
    record {
      root = empty_store-root;
      outer = inl (above 2 (omega arith) (omega arith));
      inner = inl (above 5 (omega arith) (omega arith));
    }

pub empty_store-IsRepo : IsRepo empty_store repo tmp_file
empty_store-IsRepo = record {
  root = empty_store-root;
  places = λ i h. empty_store-IsPlace i;
  files = λ i h. inl (empty_store-free i);
  free = λ e. let no : empty_store tmp_file ≡ none = empty_store-other tmp_file (λ s. cc) in cc;
}

pub tmp_file-IsTmp : IsTmp repo tmp_file
unfolding Store.directory_of
tmp_file-IsTmp = (λ d l e. ground arith, refl, λ s. cc)

pub text_info-IsInfo : IsInfo text_info
text_info-IsInfo = record {
  hash_length = refl;
  hash_bytes = (omega arith, zeros-All 19);
  size_bound = omega arith;
  slot_bound = omega arith;
}

pub text_info-IsPrepared : IsPrepared bh_added text_info
text_info-IsPrepared = record {
  size_bound = omega arith;
  slot_bound = omega arith;
  fresh = λ e. text_info-IsInfo;
}

pub text-IsUnchanged : IsUnchanged sources text_path text text_info text_stats
text-IsUnchanged = record {
  stated = refl;
  read = refl;
  same_time = refl;
  size = refl;
  stat_size = refl;
  blocks = omega arith;
  memory = omega arith;
}

file_hash-WholeHash_example :
    WholeHash length_blake text_path text_stats text
      (file_hash length_blake sources.open_read text_path text_stats)
file_hash-WholeHash_example =
    file_hash-WholeHash length_blake sources.open_read text_path text text_stats
      length_blake-IsAppending refl (omega arith)

build_file_path_injective_example :
    (text_info.hash ≡ text_info.hash)
    × (text_info.size ≡ text_info.size)
    × (text_info.slot ≡ text_info.slot)
build_file_path_injective_example =
    build_file_path_injective text_info text_info text_info-IsInfo text_info-IsInfo refl

repo_writer_close-Written_example :
    (store' : Store) × (Store.repo_writer_close empty_store (record {
      repo_path = repo;
      repo_tmp_file_path = tmp_file;
      stream = text;
      rename_to = Store.info text_info;
    })
      ≡ ok store')
    × Written empty_store store' repo tmp_file (path_with_info repo text_info) text
repo_writer_close-Written_example =
    repo_writer_close-Written empty_store repo tmp_file text text_info tmp_file-IsTmp (omega arith)
      (empty_store-free text_info) (empty_store-IsPlace text_info)

-- A repository that holds the text
abbrev pub text_store : Store
text_store = with_item empty_store (path_with_info repo text_info) (some (file text))

pub text_stored : text_store (path_with_info repo text_info) ≡ some (file text)
text_stored = with_item-same empty_store (path_with_info repo text_info) (some (file text))

equals_to_stored_file-whole_example :
    equals_to_stored_file sources text_store repo text_path text_info text_stats
    ≡ ok (bytes_eq text text)
equals_to_stored_file-whole_example =
    equals_to_stored_file-whole sources text_store repo text_path text_info text_stats text text
      refl text_stored refl refl (omega arith) (omega arith)

search_file_duplicates-Searched_example :
    Searched empty_store repo text_info text
      (search_file_duplicates sources empty_store repo text_path text_info text_stats)
search_file_duplicates-Searched_example =
    search_file_duplicates-Searched sources empty_store repo text_path text text_info text_stats
      refl (λ slot l. inl (empty_store-free (with_slot text_info slot))) refl (omega arith)
      (omega arith)

add_file_to_repo-Added_example :
    Added empty_store repo tmp_file
      (hashed length_blake bh_added text_info text)
      text
      (add_file_to_repo sources empty_store repo tmp_file bh_added text_path text_info)
add_file_to_repo-Added_example =
    add_file_to_repo-Added sources empty_store repo tmp_file bh_added text_path text text_info
      text_stats length_blake-IsHash empty_store-IsRepo tmp_file-IsTmp text_info-IsPrepared
      text-IsUnchanged (omega arith)

-- The metadata of a backup that has found the text as a new file
abbrev text_metadata : Metadata
text_metadata = record {
  current_backup = record { id = 0; completion_time = 0; ref_count = 1 };
  backup_history = [];
  config_history = [];
  total_path_count = 1;
  path_table = [];
  paths =
      node
        (record {
          path = text_path;
          hint = bh_added;
          policy = bpol_track;
          history = (record { backup = current; state = regular_file 1 2 text_info }) ∷ [];
        })
        null null;
}
