-- ===== src/Examples/Storage.antt =====
-- The theorems on internal/storage at the sample log.
use queuemaxxing.Base.{
  ℕ, ◌<◌, ◌≡◌, ◌≢◌, ◌⊎◌, refl, true, false, none, some, List, [], ◌∷◌, ◌++◌, replicate, take, drop,
  length, ok, err, arith,
}
use queuemaxxing.Storage.Record.{Record, header, encode_frame, frame, encode_file_header}
use queuemaxxing.Storage.Record.Bytes.{uint32}
use queuemaxxing.Storage.Disk.{Disk}
use queuemaxxing.Storage.Log.{os_error, Log, AppendEnv, append}
use queuemaxxing.Storage.Log.Append.{Appended, append-Appended}
use queuemaxxing.Storage.Log.Footprint.{clean}
use queuemaxxing.Storage.Scanner.{checksum_mismatch}
use queuemaxxing.Storage.Scanner.Tail.{next-take-lay_out}
use queuemaxxing.Storage.Recovery.{out_of_fuel, corrupt_log, open_log}
use queuemaxxing.Storage.Recovery.Replay.{apply_all}
use queuemaxxing.Storage.Recovery.Torn.{no_faults, reads, IsTorn, Recovered, open-Recovered}
use queuemaxxing.Storage.Recovery.Durability.{collect, run_appends, Restored, acked_records_survive}
use queuemaxxing.Storage.Recovery.Damage.{open-zero_fill, open-corrupt}
use queuemaxxing.Storage.Recovery.ReadFailure.{open-read_failure}
use queuemaxxing.Storage.Recovery.Fuel.{open-ne-out_of_fuel}
use queuemaxxing.Storage.Compaction.{join_frames, encode_live, build, compact}
use queuemaxxing.Storage.Compaction.Commit.{snapshot, IsReplaced, Compacted, compact-Compacted}
use queuemaxxing.Storage.Compaction.StaleHandle.{unsynced_dir, unsynced_rename_loses_append}
use queuemaxxing.Storage.Compaction.Reopen.{Reopens, compact-Reopens}
use queuemaxxing.Examples.Samples.{
  sample_codec, sample_header, sample_enqueue, sample_message, header_frame, message_frame,
  message_framed, sample-Framed, sample_disk, sample_log, sample_IsLogOf,
}

-- a write of three bytes that fails, with a failing truncation behind it
abbrev unrolled_back : AppendEnv
unrolled_back = record {
  written = 3;
  write_fails = true;
  sync_fails = false;
  truncate_fails = true;
  resync_fails = false;
}

abbrev sample_steps : List (AppendEnv × Record)
sample_steps =
    (clean 10, sample_message) ∷ (unrolled_back, sample_message) ∷ (clean 10, sample_message) ∷ []

abbrev sample_run : List Record × Log × Disk
sample_run = run_appends sample_codec sample_steps sample_log (sample_disk [])

acked_records_survive_example :
    Restored sample_codec sample_run.2 0
      (header sample_header ∷ ([] ++ sample_run.0))
      (open_log sample_codec collect no_faults sample_run.2 [])
acked_records_survive_example =
    acked_records_survive sample_codec sample_steps sample_log (sample_disk []) 0 sample_header []
      sample_IsLogOf refl

append-Appended_example :
    Appended sample_codec
      (header sample_header ∷ [])
      sample_message
      0
      (append sample_codec unrolled_back sample_message sample_log (sample_disk []))
append-Appended_example =
    append-Appended sample_codec unrolled_back sample_message sample_log (sample_disk []) 0
      (header sample_header ∷ []) sample_IsLogOf

abbrev six_bytes : List ℕ
six_bytes = take 6 message_frame

six_are_fewer : 6 < length message_frame
six_are_fewer = omega arith

six_bytes-IsTorn : IsTorn sample_codec six_bytes
six_bytes-IsTorn offset =
    next-take-lay_out sample_codec 2 (9 ∷ []) (omega arith) (omega arith) 6 offset six_are_fewer

sample_replay : apply_all collect (header sample_header ∷ []) [] ≡ ok (header sample_header ∷ [])
unfolding apply_all collect
sample_replay = refl

open-Recovered_example :
    Recovered sample_codec collect
      (sample_disk six_bytes)
      0
      (header sample_header ∷ [])
      (header_frame ++ [])
      (header sample_header ∷ [])
      (open_log sample_codec collect no_faults (sample_disk six_bytes) [])
open-Recovered_example =
    open-Recovered sample_codec collect (sample_disk six_bytes) 0 sample_header []
      (header_frame ++ []) six_bytes [] (header sample_header ∷ []) refl sample-Framed
      six_bytes-IsTorn sample_replay refl

open-zero_fill_example :
    Recovered sample_codec collect
      (sample_disk (replicate 5 0))
      0
      (header sample_header ∷ [])
      (header_frame ++ [])
      (header sample_header ∷ [])
      (open_log sample_codec collect no_faults (sample_disk (replicate 5 0)) [])
open-zero_fill_example =
    open-zero_fill sample_codec collect (sample_disk (replicate 5 0)) 0 sample_header []
      (header_frame ++ []) [] (header sample_header ∷ []) sample-Framed sample_replay refl 5 refl

-- a frame with the sum 13 for 12, and one byte behind it
abbrev damaged_length : List ℕ
damaged_length = 0 ∷ 0 ∷ 0 ∷ 1 ∷ []

abbrev damaged_rest : List ℕ
damaged_rest = 2 ∷ 9 ∷ 0 ∷ 0 ∷ 0 ∷ 13 ∷ []

abbrev damaged_disk : Disk
damaged_disk = sample_disk (damaged_length ++ (damaged_rest ++ 7 ∷ []))

damaged_length-uint32 : uint32 damaged_length ≡ 1
damaged_length-uint32 = refl

damaged_sum : 12 ≢ uint32 (drop 2 damaged_rest)
damaged_sum e = omega (arith, e)

open-corrupt_example :
    open_log sample_codec collect no_faults damaged_disk []
    ≡ (damaged_disk, err (corrupt_log 26 (checksum_mismatch 12 (uint32 (drop 2 damaged_rest)))))
open-corrupt_example =
    open-corrupt sample_codec collect damaged_disk 0 sample_header [] (header_frame ++ []) []
      (header sample_header ∷ []) sample-Framed sample_replay refl damaged_length damaged_rest
      (7 ∷ []) 1 refl refl refl damaged_length-uint32 (omega arith) (omega arith) damaged_sum
      (omega arith)

open-read_failure_example :
    Recovered sample_codec collect
      (sample_disk message_frame)
      0
      (header sample_header ∷ [])
      (header_frame ++ [])
      (header sample_header ∷ [])
      (open_log sample_codec collect (reads (some 26)) (sample_disk message_frame) [])
open-read_failure_example =
    open-read_failure sample_codec collect (sample_disk message_frame) 0 sample_header []
      (header_frame ++ []) message_frame [] (header sample_header ∷ []) refl sample-Framed
      sample_replay refl

open-ne-out_of_fuel_example :
    (open_log sample_codec collect no_faults (sample_disk six_bytes) []).1 ≢ err out_of_fuel
open-ne-out_of_fuel_example =
    open-ne-out_of_fuel sample_codec collect no_faults (sample_disk six_bytes) []

-- The new name of the log is not durable, and nothing else fails.
compact-Compacted_example :
    Compacted sample_codec 0
      (header sample_header ∷ [])
      1
      (snapshot sample_header (sample_enqueue (9 ∷ []) ∷ []))
      (compact sample_codec unsynced_dir sample_header
        (sample_enqueue (9 ∷ []) ∷ [])
        sample_log
        (sample_disk []))
compact-Compacted_example =
    compact-Compacted sample_codec unsynced_dir sample_header (sample_enqueue (9 ∷ []) ∷ [])
      sample_log (sample_disk []) 0 (header sample_header ∷ []) (λ e. omega (arith, e)) refl
      sample_IsLogOf

compact-Reopens_example :
    let d =
      (compact sample_codec unsynced_dir sample_header
        (sample_enqueue (9 ∷ []) ∷ [])
        sample_log
        (sample_disk [])).2 in
    Reopens sample_codec d 0 (header sample_header ∷ [])
    ⊎ Reopens sample_codec d 1 (snapshot sample_header (sample_enqueue (9 ∷ []) ∷ []))
compact-Reopens_example =
    compact-Reopens sample_codec unsynced_dir sample_header (sample_enqueue (9 ∷ []) ∷ [])
      sample_log (sample_disk []) 0 sample_header [] (λ e. omega (arith, e)) refl sample_IsLogOf

abbrev sample_snapshot : List ℕ
sample_snapshot = encode_file_header ++ (header_frame ++ (message_frame ++ []))

sample_build :
    build sample_codec sample_header (sample_enqueue (9 ∷ []) ∷ []) ≡ frame sample_snapshot
unfolding build join_frames encode_live encode_frame
sample_build = refl

unsynced_rename_loses_append_example :
    let o =
      compact sample_codec unsynced_dir sample_header
        (sample_enqueue (9 ∷ []) ∷ [])
        sample_log
        (sample_disk []) in
    let a = append sample_codec (clean 10) sample_message o.1 o.2 in
    (o.0 ≡ some os_error)
    × IsReplaced sample_codec o.2 1 (snapshot sample_header (sample_enqueue (9 ∷ []) ∷ []))
    × (a.0 ≡ none)
    × (a.2.entry ≡ some 1)
    × (a.2.inode 1 ≡ o.2.inode 1)
unsynced_rename_loses_append_example =
    unsynced_rename_loses_append sample_codec sample_header (sample_enqueue (9 ∷ []) ∷ [])
      sample_snapshot sample_log (sample_disk []) 0 (header sample_header ∷ []) sample_build
      (λ e. omega (arith, e)) refl sample_IsLogOf sample_message message_frame message_framed
