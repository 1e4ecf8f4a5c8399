-- ===== src/Storage/Log/Footprint.antt =====
-- What an Append leaves alone, and where it succeeds.
use queuemaxxing.Base.{
  ℕ, ◌≡◌, ◌≢◌, refl, false, Option, none, some, List, length, take, arith, le→ltb,
}
use queuemaxxing.Storage.Record.{Codec, Record, Encoded, encode_frame, frame, refused}
use queuemaxxing.Storage.Disk.{Disk, write_at, truncate_to, set_inode, inode-set_inode_ne}
use queuemaxxing.Storage.Log.{
  LogError, Log, AppendEnv, rollback, write_frame, append_open, append_unbroken, append,
}

-- Every call succeeds, and the write lays down `n` bytes.
abbrev pub clean : ℕ → AppendEnv
clean n = record {
  written = n;
  write_fails = false;
  sync_fails = false;
  truncate_fails = false;
  resync_fails = false;
}

module _ (codec : Codec) where
  write_frame-entry :
      (env : AppendEnv) (i : ℕ) (bytes : List ℕ) (l : Log) (d : Disk)
      → (write_frame env i bytes l d).2.entry ≡ d.entry
  unfolding write_frame rollback set_inode
  write_frame-entry env i bytes l d = ground arith

  append_open-entry :
      (env : AppendEnv) (r : Record) (l : Log) (d : Disk) (f : Option ℕ) (x : Encoded)
      → encode_frame codec r ≡ x
      → (append_open codec env r l d f).2.entry ≡ d.entry
  unfolding append_open
  append_open-entry env r l d none x e = refl
  append_open-entry env r l d (some i) (refused why) e = rw (e, append_open)
  append_open-entry env r l d (some i) (frame bytes) e =
      rw (e, append_open) (write_frame-entry env i bytes l d)

  append_unbroken-entry :
      (env : AppendEnv) (r : Record) (l : Log) (d : Disk) (broken : Option LogError)
      → (append_unbroken codec env r l d broken).2.entry ≡ d.entry
  unfolding append_unbroken
  append_unbroken-entry env r l d (some e) = refl
  append_unbroken-entry env r l d none = append_open-entry env r l d l.f (encode_frame codec r) refl

  -- An Append leaves the file at its name.
  pub append-entry :
      (env : AppendEnv) (r : Record) (l : Log) (d : Disk)
      → (append codec env r l d).2.entry ≡ d.entry
  unfolding append
  append-entry env r l d = append_unbroken-entry env r l d l.broken

  write_frame-elsewhere :
      (env : AppendEnv) (i j : ℕ) (bytes : List ℕ) (l : Log) (d : Disk)
      → i ≢ j
      → (write_frame env i bytes l d).2.inode j ≡ d.inode j
  unfolding write_frame rollback
  write_frame-elsewhere env i j bytes l d apart =
      let once =
        inode-set_inode_ne d i j (write_at (d.inode i) l.size (take env.written bytes)) apart in
      ground (
        arith,
        once,
        inode-set_inode_ne (set_inode d i (write_at (d.inode i) l.size (take env.written bytes))) i
            j
            (truncate_to
              ((set_inode d i (write_at (d.inode i) l.size (take env.written bytes))).inode i)
              l.size)
            apart,
      )

  open_append-elsewhere :
      (env : AppendEnv) (r : Record) (l : Log) (d : Disk) (i j : ℕ) (x : Encoded)
      → encode_frame codec r ≡ x
      → i ≢ j
      → (append_open codec env r l d (some i)).2.inode j ≡ d.inode j
  unfolding append_open
  open_append-elsewhere env r l d i j (refused why) e apart = rw (e, append_open)
  open_append-elsewhere env r l d i j (frame bytes) e apart =
      rw (e, append_open) (write_frame-elsewhere env i j bytes l d apart)

  -- An Append writes to the log's own file alone.
  pub append-elsewhere :
      (env : AppendEnv) (r : Record) (l : Log) (d : Disk) (i j : ℕ)
      → l.f ≡ some i
      → l.broken ≡ none
      → i ≢ j
      → (append codec env r l d).2.inode j ≡ d.inode j
  unfolding append
  append-elsewhere env r l d i j handle unbroken apart =
      simp (unbroken, append_unbroken, handle)
        (open_append-elsewhere env r l d i j (encode_frame codec r) refl apart)

  -- Where nothing fails, an encodable record is appended.
  pub append-none :
      (r : Record) (l : Log) (d : Disk) (i : ℕ) (fr : List ℕ)
      → l.f ≡ some i
      → l.broken ≡ none
      → encode_frame codec r ≡ frame fr
      → (append codec (clean (length fr)) r l d).0 ≡ none
  unfolding append write_frame
  append-none r l d i fr handle unbroken encoded = simp (
    unbroken,
    append_unbroken,
    handle,
    append_open,
    encoded,
    le→ltb (length fr) (length fr) (omega arith),
  )
