-- ===== src/Tests/Stored.antt =====
-- A small repository: one file that was tracked over two backups, in a directory, and a node that
-- is no longer part of the repository.
use nano_backup.Prelude.{ℕ, ◌≡◌, refl, arith, [], ◌∷◌, ok}
use nano_backup.Str.{Bytes, split_path, is_dot_element}
use nano_backup.Metadata.Trees.{IsTree}
use nano_backup.Hint.{
  hint_no_pol, bpol_track, bpol_none, bpol_mirror, bh_added, bh_none, bh_not_part_of_repository,
}
use nano_backup.Metadata.{
  Metadata, Point, null, node, current, past, regular_file, directory, non_existing,
}
use nano_backup.Metadata.Codec.{
  metadata_write, count_kept, is_kept, name_of, write8, write32, write64, le_bytes,
}
use nano_backup.Metadata.Load.{metadata_load, has_byte, c_string}
use nano_backup.Metadata.Numbers.{IsMetadata, IsWritable, stored}
use nano_backup.Metadata.RoundTrip.{metadata_load-metadata_write}

abbrev etc : Bytes
etc = b'/' ∷ b'e' ∷ []

abbrev conf : Bytes
conf = b'/' ∷ b'e' ∷ b'/' ∷ b'c' ∷ []

abbrev gone : Bytes
gone = b'/' ∷ b'e' ∷ b'/' ∷ b'g' ∷ []

abbrev small_file : ℕ → Point
small_file mtime = record {
  backup = current;
  state = regular_file 1000 1000 (record {
    permission_bits = 420;
    modification_time = mtime;
    size = 3;
    hash = 7 ∷ 8 ∷ 9 ∷ [];
    slot = 0;
  });
}

abbrev pub sample : Metadata
sample = record {
  current_backup = record { id = 0; completion_time = 1234; ref_count = 2 };
  backup_history =
      (record { id = 0; completion_time = 55; ref_count = 0 })
      ∷ (record { id = 1; completion_time = 44; ref_count = 1 })
      ∷ [];
  config_history = [];
  total_path_count = 2;
  path_table = [];
  paths =
      node
        (record {
          path = etc;
          hint = bh_none;
          policy = bpol_none;
          history =
              (record {
                backup = current;
                state = directory 0 0 (record { permission_bits = 493; modification_time = 77 });
              })
              ∷ [];
        })
        (node
          (record {
            path = gone;
            hint = bh_not_part_of_repository;
            policy = bpol_mirror;
            history = small_file 1 ∷ [];
          })
          null
          (node
            (record {
              path = conf;
              hint = bh_added;
              policy = bpol_track;
              history = small_file 99 ∷ (record { backup = past 1; state = non_existing }) ∷ [];
            })
            null null))
        null;
}

sample-IsTree : IsTree (IsWritable sample) [] sample.paths
unfolding is_kept hint_no_pol name_of split_path has_byte is_dot_element c_string count_kept
sample-IsTree = (
  λ _. (
    record {
      path = refl;
      named = omega arith;
      no_null = refl;
      no_slash = refl;
      no_dot = refl;
      path_size = omega arith;
      history_size = omega arith;
      history = omega arith;
      policy = omega arith;
    },
    omega arith,
    (
      λ gone_is_kept. cc,
      (
        λ _. (
          record {
            path = refl;
            named = omega arith;
            no_null = refl;
            no_slash = refl;
            no_dot = refl;
            path_size = omega arith;
            history_size = omega arith;
            history = omega arith;
            policy = omega arith;
          },
          omega arith,
          tt,
        ),
        tt,
      ),
    ),
  ),
  tt,
)

pub sample-IsMetadata : IsMetadata sample
unfolding metadata_write is_kept hint_no_pol write8 write32 write64 le_bytes name_of split_path
sample-IsMetadata = record {
  current_id = refl;
  times = omega arith;
  backups_size = omega arith;
  config_size = omega arith;
  config = tt;
  path_count = omega arith;
  tree_size = omega arith;
  tree = sample-IsTree;
  file_size = omega arith;
}

metadata_load-metadata_write_example : metadata_load (metadata_write sample) ≡ ok (stored sample)
metadata_load-metadata_write_example = metadata_load-metadata_write sample sample-IsMetadata
