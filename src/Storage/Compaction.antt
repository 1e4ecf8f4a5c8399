-- ===== src/Storage/Compaction.antt =====
-- internal/storage/compaction.go: Compact, which rewrites the log through a temporary file.
pub mod Commit
pub mod StaleHandle
pub mod Reopen
use queuemaxxing.Base.{
  ℕ, suc, ◌+◌, Bool, true, false, Option, none, some, List, [], ◌∷◌, ◌++◌, length, if◌then◌else◌,
}
use queuemaxxing.Storage.Record.{
  Codec, Record, Header, Enqueue, header, enqueue, EncodeError, Encoded, encode_frame, frame,
  refused, encode_file_header,
}
use queuemaxxing.Storage.Disk.{Disk, set_inode, write_at}
use queuemaxxing.Storage.Log.{LogError, closed, log_broken, encode_error, os_error, Log, Outcome}

-- Which calls of one Compact fail.
pub record CompactEnv : Type 0 where
  pub open_temp_fails : Bool
  pub write_fails : Bool
  pub sync_fails : Bool
  pub close_fails : Bool
  pub rename_fails : Bool
  pub sync_dir_fails : Bool
  pub reopen_fails : Bool
  pub remove_fails : Bool

-- the temporary's inode: the one that the name has, or a new one
abbrev pub temp_inode : Disk → ℕ
temp_inode d = elim d.temp [ some j ↦ j | none ↦ d.fresh ]

-- os.OpenFile with O_CREATE and O_TRUNC
unfoldable pub open_temp : Disk → ℕ → Disk
open_temp d j = record (set_inode d j []) {
  temp = some j;
  fresh = elim d.temp [ some _ ↦ d.fresh | none ↦ d.fresh + 1 ];
}

-- os.Remove of the temporary, whose error is ignored
abbrev pub remove_temp : CompactEnv → Disk → Disk
remove_temp env d = record d { temp = if env.remove_fails then d.temp else none }

-- os.Rename of the temporary to the log's path
abbrev pub rename_temp : Disk → ℕ → Disk
rename_temp d j = record d { entry = some j; temp = none }

-- a frame before the bytes that are still to come; the first error of encodeFrame ends it
unfoldable pub join_frames : Encoded → Encoded → Encoded
join_frames (refused why) rest = refused why
join_frames (frame f) (refused why) = refused why
join_frames (frame f) (frame bytes) = frame (f ++ bytes)

module _ (codec : Codec) where
  -- the frames of the live messages
  unfoldable pub encode_live : List Enqueue → Encoded
  encode_live [] = frame []
  encode_live (e ∷ live) = join_frames (encode_frame codec (enqueue e)) (encode_live live)

  -- the whole replacement: the file header, the header record's frame, and the live messages
  unfoldable pub build : Header → List Enqueue → Encoded
  build hdr live =
      join_frames (frame encode_file_header)
        (join_frames (encode_frame codec (header hdr)) (encode_live live))

-- steps 5 and 6, behind the rename
unfoldable pub adopt : CompactEnv → ℕ → List ℕ → ℕ → Log → Disk → Outcome
adopt env j buf live_count l d =
    if env.sync_dir_fails
    then (some os_error, l, d)
    else if env.reopen_fails
    then (some log_broken, record l { broken = some log_broken }, d)
    else (none, record l { f = some j; size = length buf; records = 1 + live_count }, d)

-- steps 1 to 4, once the replacement's bytes are there
unfoldable pub install : CompactEnv → ℕ → List ℕ → ℕ → Log → Disk → Outcome
install env j buf live_count l d =
    let written = set_inode d j (write_at (d.inode j) 0 buf) in
    if env.write_fails
    then (some os_error, l, remove_temp env d)
    else if env.sync_fails
    then (some os_error, l, remove_temp env written)
    else if env.close_fails
    then (some os_error, l, remove_temp env written)
    else if env.rename_fails
    then (some os_error, l, remove_temp env written)
    else adopt env j buf live_count l (rename_temp written j)

module _ (codec : Codec) where
  compact_open : CompactEnv → Header → List Enqueue → Log → Disk → Option ℕ → Outcome
  compact_open env hdr live l d none = (some closed, l, d)
  compact_open env hdr live l d (some _) =
      let j = temp_inode d in
      let opened = open_temp d j in
      if env.open_temp_fails then (some os_error, l, d) else elim (build codec hdr live) [
        | refused why ↦ (some (encode_error why), l, remove_temp env opened)
        | frame buf ↦ install env j buf (length live) l opened
      ]

  compact_unbroken : CompactEnv → Header → List Enqueue → Log → Disk → Option LogError → Outcome
  unfolding compact_open
  compact_unbroken env hdr live l d (some e) = (some e, l, d)
  compact_unbroken env hdr live l d none = compact_open env hdr live l d l.f

  unfoldable pub compact : CompactEnv → Header → List Enqueue → Log → Disk → Outcome
  unfolding compact_unbroken
  compact env hdr live l d = compact_unbroken env hdr live l d l.broken
