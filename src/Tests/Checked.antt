-- ===== src/Tests/Checked.antt =====
-- Instances of the theorems on the integrity check: a repository that holds one file of 21 bytes.
use nano_backup.Prelude.{ℕ, ◌≡◌, arith, [], ◌∷◌, ok, length}
use nano_backup.Str.{Bytes}
use nano_backup.Hint.{bh_none, bpol_track}
use nano_backup.Metadata.{Metadata, null, node, past, regular_file}
use nano_backup.Repository.{build_file_path}
use nano_backup.GarbageCollector.Referenced.{count_all_points}
use nano_backup.Integrity.{check_integrity, stored_file_is_healthy}
use nano_backup.Integrity.Files.{is_intact_in, stored_file_is_healthy-is_intact}
use nano_backup.Integrity.Points.{broken_nodes}
use nano_backup.Integrity.Outcome.{check_integrity-broken_nodes}
use nano_backup.Tests.Repositories.{
  length_blake, length_blake-IsAppending, repo, text_path, text_info, text_info-IsInfo, text_store,
}

abbrev length_hash : Bytes → Bytes → ℕ
length_hash key secret_key = length key

abbrev stored_metadata : Metadata
stored_metadata = record {
  current_backup = record { id = 0; completion_time = 0; ref_count = 0 };
  backup_history = (record { id = 1; completion_time = 9; ref_count = 1 }) ∷ [];
  config_history = [];
  total_path_count = 1;
  path_table = [];
  paths =
      node
        (record {
          path = text_path;
          hint = bh_none;
          policy = bpol_track;
          history = (record { backup = past 0; state = regular_file 1 2 text_info }) ∷ [];
        })
        null null;
}

stored_file_is_healthy-is_intact_example :
    stored_file_is_healthy length_blake 4 text_store repo text_info (build_file_path text_info)
    ≡ ok (is_intact_in length_blake text_store repo text_info)
stored_file_is_healthy-is_intact_example =
    stored_file_is_healthy-is_intact length_blake 4 text_store repo text_info
      length_blake-IsAppending (omega arith) (omega arith) text_info-IsInfo

check_integrity-broken_nodes_example :
    check_integrity length_hash length_blake 4 text_store repo (1 ∷ []) (2 ∷ []) stored_metadata
    ≡ ok (broken_nodes (is_intact_in length_blake text_store repo) stored_metadata.paths [])
unfolding count_all_points
check_integrity-broken_nodes_example =
    check_integrity-broken_nodes length_hash length_blake 4 text_store repo (1 ∷ []) (2 ∷ [])
      stored_metadata length_blake-IsAppending (omega arith) (omega arith)
      ((text_info-IsInfo, tt), tt, tt) (omega arith) (omega arith)
