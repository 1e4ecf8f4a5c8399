-- ===== src/Storage/Log.antt =====
-- internal/storage/log.go: the append-only log. The operating system's answers to the calls of an
-- operation are an argument of the operation.
pub mod Append
pub mod Footprint
use queuemaxxing.Base.{
  ℕ, suc, ◌+◌, ◌||◌, Bool, true, false, not, Option, none, some, List, [], length, take, ltb, ◌==◌,
  if◌then◌else◌,
}
use queuemaxxing.Storage.Record.{
  Codec, Record, Header, header, EncodeError, encode_frame, frame, refused, encode_file_header,
  file_header_size,
}
use queuemaxxing.Storage.Disk.{Disk, write_at, truncate_to, set_inode}

pub data LogError : Type 0 where
  -- ErrExists, ErrClosed, ErrLogBroken
  exists closed log_broken : LogError
  encode_error : EncodeError → LogError
  -- an error of the operating system, and io.ErrShortWrite
  os_error short_write : LogError

-- The handle is an inode; `none` is the nil file of a closed log.
pub record Log : Type 0 where
  pub f : Option ℕ
  pub size : ℕ
  pub records : ℕ
  pub broken : Option LogError

-- How the calls of one Append end: how many bytes the write lays down, and which calls fail.
pub record AppendEnv : Type 0 where
  pub written : ℕ
  pub write_fails : Bool
  pub sync_fails : Bool
  pub truncate_fails : Bool
  pub resync_fails : Bool

-- An operation's error (`none` is Go's nil), the log and the disk after it.
abbrev pub Outcome : Type 0
Outcome = Option LogError × Log × Disk

abbrev pub fail_broken : Log → Disk → Outcome
fail_broken l d = (some log_broken, record l { broken = some log_broken }, d)

unfoldable pub rollback : AppendEnv → ℕ → ℕ → LogError → Log → Disk → Outcome
rollback env i to cause l d =
    let shorter = set_inode d i (truncate_to (d.inode i) to) in
    if env.truncate_fails
    then fail_broken l d
    else if env.resync_fails
    then fail_broken l shorter
    else (some cause, l, shorter)

-- Close, which syncs the file and closes it, and drops the handle whatever fails
unfoldable pub close_log : Bool → Bool → Log → Option LogError × Log
close_log sync_fails close_fails l = elim l.f as (λ _. Option LogError × Log) [
  | none ↦ (none, l)
  | some _ ↦ (if sync_fails || close_fails then some os_error else none, record l { f = none })
]

unfoldable pub write_frame : AppendEnv → ℕ → List ℕ → Log → Disk → Outcome
write_frame env i bytes l d =
    let at = l.size in
    let written = set_inode d i (write_at (d.inode i) at (take env.written bytes)) in
    if env.write_fails
    then rollback env i at os_error l written
    else if ltb env.written (length bytes)
    then rollback env i at short_write l written
    else if env.sync_fails
    then rollback env i at os_error l written
    else (none, record l { size = at + length bytes; records = l.records + 1 }, written)

module _ (codec : Codec) where
  append_open : AppendEnv → Record → Log → Disk → Option ℕ → Outcome
  append_open env rec l d none = (some closed, l, d)
  append_open env rec l d (some i) = elim (encode_frame codec rec) [
    | refused e ↦ (some (encode_error e), l, d)
    | frame bytes ↦ write_frame env i bytes l d
  ]

  append_unbroken : AppendEnv → Record → Log → Disk → Option LogError → Outcome
  unfolding append_open
  append_unbroken env rec l d (some e) = (some e, l, d)
  append_unbroken env rec l d none = append_open env rec l d l.f

  unfoldable pub append : AppendEnv → Record → Log → Disk → Outcome
  unfolding append_unbroken
  append env rec l d = append_unbroken env rec l d l.broken
