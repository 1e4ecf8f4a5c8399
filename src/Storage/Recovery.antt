-- ===== src/Storage/Recovery.antt =====
-- internal/storage/recovery.go: Open, which replays a log and cuts off a torn tail.
pub mod Replay
pub mod Fuel
pub mod Torn
pub mod Durability
pub mod Damage
pub mod ReadFailure
use queuemaxxing.Base.{
  ℕ, zero, suc, ◌+◌, Bool, true, false, not, ◌&&◌, ◌||◌, Option, none, some, List, [], ◌∷◌, length,
  take, ltb, ◌==◌, if◌then◌else◌, Result, ok, err,
}
use queuemaxxing.Storage.Record.{
  Codec, Record, RecordType, type_header, HeaderError, decode_payload, check_file_header,
  file_header_size,
}
use queuemaxxing.Storage.Disk.{Disk, truncate_to, set_inode}
use queuemaxxing.Storage.Log.{Log}
use queuemaxxing.Storage.Scanner.{
  Reader, filled, at_end, cut_after, read_full, Reason, undecodable, not_header, Scanner,
  end_of_log, torn, corrupt, scanned, next,
}

-- How the operating system answers Open. `delivers` is the number of bytes that reading yields
-- before an I/O error, or `none` where reading goes to the end of the file.
pub record OpenEnv : Type 0 where
  pub open_fails : Bool
  pub stat_fails : Bool
  pub delivers : Option ℕ
  pub truncate_fails : Bool
  pub sync_fails : Bool
  pub sync_dir_fails : Bool

-- `incomplete` and `no_header_record` wrap ErrIncompleteLog; `apply_failed` has the callback's
-- error. `out_of_fuel` is the model's own, and `open` never returns it.
pub data OpenError (E : Type 0) : Type 0 where
  os_failure truncate_failed no_header_record read_header_failed out_of_fuel : OpenError E
  incomplete : ℕ → OpenError E
  bad_file_header : HeaderError → OpenError E
  corrupt_log : ℕ → Reason → OpenError E
  apply_failed : E → OpenError E

-- How the loop of Open ends: at the end of the file or at a torn tail, with the number of records
-- and the callback's state, or with an error.
pub data Scan (E S : Type 0) : Type 0 where
  finished : ℕ → S → Scan E S
  torn_at : ℕ → ℕ → S → Scan E S
  failed : OpenError E → Scan E S

abbrev pub wrap_apply : {E S : Type 0} → Result E S → Result (OpenError E) S
wrap_apply (ok st) = ok st
wrap_apply (err e) = err (apply_failed e)

unfoldable pub reader_of : OpenEnv → List ℕ → Reader
reader_of env contents = elim env.delivers [
  | none ↦ record { rest = contents; fails = false }
  | some n ↦ record { rest = take n contents; fails = true }
]

abbrev pub Opened : Type 0 → Type 0 → Type 0
Opened E S = Disk × Result (OpenError E) (Log × S)

module _ {E S : Type 0} where
  unfoldable pub opened : Disk → ℕ → ℕ → ℕ → S → Opened E S
  opened d i size records st =
      if records == 0
      then (d, err no_header_record)
      else (d, ok (record { f = some i; size = size; records = records; broken = none }, st))

  -- truncate, which also syncs the file and the directory
  unfoldable pub open_torn : OpenEnv → Disk → ℕ → ℕ → ℕ → S → Opened E S
  unfolding opened
  open_torn env d i at records st =
      let shorter = set_inode d i (truncate_to (d.inode i) at) in
      if env.truncate_fails
      then (d, err truncate_failed)
      else if env.sync_fails || env.sync_dir_fails
      then (shorter, err truncate_failed)
      else opened shorter i at records st

  unfoldable pub open_scanned : OpenEnv → Disk → ℕ → Scan E S → Opened E S
  open_scanned env d i (finished records st) = opened d i (length (d.inode i)) records st
  open_scanned env d i (torn_at at records st) = open_torn env d i at records st
  open_scanned env d i (failed e) = (d, err e)

module _ (codec : Codec) {E S : Type 0} (apply : Record → S → Result E S) where
  -- the body of the loop, once a frame is there
  unfoldable pub visit : ℕ → RecordType → List ℕ → ℕ → S → Result (OpenError E) S
  visit frame_start t payload records st = elim (decode_payload codec t payload) [
    | none ↦ err (corrupt_log frame_start (undecodable t))
    | some r ↦
        if records == 0 && not (t == type_header)
        then err (corrupt_log frame_start (not_header t))
        else wrap_apply (apply r st)
  ]

  unfoldable pub scan : ℕ → Scanner → ℕ → S → Scan E S
  scan zero s records st = failed out_of_fuel
  scan (suc fuel) s records st = elim (next codec s) [
    | end_of_log ↦ finished records st
    | torn at _ ↦ torn_at at records st
    | corrupt at why ↦ failed (corrupt_log at why)
    | scanned t payload s' ↦ elim (visit s.offset t payload records st) [
      | ok st' ↦ scan fuel s' (records + 1) st'
      | err e ↦ failed e
    ]
  ]

  unfoldable pub open_header : OpenEnv → Disk → ℕ → S → List ℕ → Reader → Opened E S
  open_header env d i st hdr r =
      let size = length (d.inode i) in
      elim (check_file_header hdr) [
        | some e ↦ (d, err (bad_file_header e))
        | none ↦
            open_scanned env d i
              (scan (size + 1) (record { r = r; offset = file_header_size; size = size }) 0 st)
      ]

  unfoldable pub open_inode : OpenEnv → Disk → ℕ → S → Opened E S
  open_inode env d i st =
      if env.stat_fails
      then (d, err os_failure)
      else if ltb (length (d.inode i)) file_header_size
      then (d, err (incomplete (length (d.inode i))))
      else elim (read_full file_header_size (reader_of env (d.inode i))) [
        | filled hdr r ↦ open_header env d i st hdr r
        | at_end ↦ (d, err read_header_failed)
        | cut_after _ ↦ (d, err read_header_failed)
      ]

  unfoldable pub open_log : OpenEnv → Disk → S → Opened E S
  open_log env d st = elim d.entry [
    | none ↦ (d, err os_failure)
    | some i ↦ if env.open_fails then (d, err os_failure) else open_inode env d i st
  ]
