-- ===== src/Examples/Directory.antt =====
-- The theorems on Create and CleanTemps of internal/storage/log.go, in an empty directory and in one
-- with a log, a temporary and a folder.
use queuemaxxing.Base.{◌≡◌, refl, false, true, none, some, List, [], ◌∷◌, ◌+◌, length, ℕ, ok}
use queuemaxxing.Storage.Record.{header, encode_frame, encode_file_header}
use queuemaxxing.Storage.Disk.{Disk}
use queuemaxxing.Storage.Log.{Log, AppendEnv, append, write_frame}
use queuemaxxing.Storage.Recovery.{open_log}
use queuemaxxing.Storage.Recovery.Torn.{no_faults}
use queuemaxxing.Storage.Recovery.Durability.{Restored, collect, run_appends}
use queuemaxxing.Storage.Create.{
  CreateEnv, Created, create_opened, create_log, create_log-Created, created_log_survives,
}
use queuemaxxing.Storage.Directory.{Entry, log_ext, tmp_ext, DirEnv, log_names, clean_temps}
use queuemaxxing.Storage.Directory.Cleanup.{NoTemps, clean_temps-keeps_logs}
use queuemaxxing.Examples.Samples.{sample_codec, sample_header, sample_message}

abbrev free_disk : Disk
free_disk = record { inode = λ _. []; entry = none; temp = none; fresh = 0 }

abbrev fine_append : AppendEnv
fine_append = record {
  written = 10;
  write_fails = false;
  sync_fails = false;
  truncate_fails = false;
  resync_fails = false;
}

abbrev fine_create : CreateEnv
fine_create = record {
  open_fails = false;
  header_fails = false;
  laid = 0;
  append = fine_append;
  sync_dir_fails = false;
  remove_fails = false;
}

-- the file's sync, and then the removal of the file, fail
abbrev failing_create : CreateEnv
failing_create = record fine_create {
  append = record fine_append { sync_fails = true };
  remove_fails = true;
}

create_log-Created_example :
    Created sample_codec failing_create sample_header free_disk
      (create_log sample_codec failing_create sample_header free_disk)
create_log-Created_example = create_log-Created sample_codec failing_create sample_header free_disk

abbrev created_disk : Disk
created_disk = (create_log sample_codec fine_create sample_header free_disk).1

abbrev created_log : Log
created_log = record {
  f = some 0;
  size = length encode_file_header + 10;
  records = 1;
  broken = none;
}

created_fine :
    create_log sample_codec fine_create sample_header free_disk ≡ (ok created_log, created_disk)
unfolding create_log create_opened append write_frame encode_frame encode_file_header
created_fine = refl

created_log_survives_example :
    (i : ℕ) × Restored sample_codec
      (run_appends sample_codec ((fine_append, sample_message) ∷ []) created_log created_disk).2
      i
      (header sample_header
        ∷ (run_appends sample_codec
            ((fine_append, sample_message) ∷ [])
            created_log
            created_disk).0)
      (open_log sample_codec collect no_faults
        (run_appends sample_codec ((fine_append, sample_message) ∷ []) created_log created_disk).2
        [])
created_log_survives_example =
    created_log_survives sample_codec fine_create sample_header free_disk created_log created_disk
      ((fine_append, sample_message) ∷ []) created_fine

abbrev entries : List Entry
entries =
    record { name = b'a' ∷ log_ext; is_dir = false }
    ∷ record { name = b'a' ∷ tmp_ext; is_dir = false }
    ∷ record { name = b'b' ∷ tmp_ext; is_dir = true }
    ∷ []

abbrev dir_env : DirEnv
dir_env = record {
  make_fails = false;
  read_fails = false;
  remove_fails = λ _. false;
  sync_fails = true;
}

clean_temps-keeps_logs_example :
    (log_names (clean_temps dir_env entries).1 ≡ log_names entries)
    × ((clean_temps dir_env entries).0 ≡ none → NoTemps (clean_temps dir_env entries).1)
clean_temps-keeps_logs_example = clean_temps-keeps_logs dir_env entries
