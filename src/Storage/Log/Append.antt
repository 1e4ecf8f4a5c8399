-- ===== src/Storage/Log/Append.antt =====
-- What Append does to the log and to the file.
use queuemaxxing.Base.{
  ℕ, ◌+◌, ◌≤◌, ◌≡◌, refl, sym, ap, ◌∙◌, ◌⊎◌, inl, inr, Bool-cases, none, some, List, [], ◌∷◌, ◌++◌,
  append_assoc, append-nil, length, length-append, take, take-all, arith, ltb,
}
use queuemaxxing.Storage.Record.{
  Codec, Record, Encoded, encode_frame, frame, refused, encode_file_header,
}
use queuemaxxing.Storage.Record.Sequence.{Framed, Framed-concat}
use queuemaxxing.Storage.Disk.{
  Disk, write_at, truncate_to, set_inode, inode-set_inode, write_at-length, truncate_to-append,
}
use queuemaxxing.Storage.Log.{
  LogError, log_broken, os_error, short_write, Log, AppendEnv, Outcome, rollback, write_frame,
  append_open, append_unbroken, append,
}

module _ (codec : Codec) where
  -- A log that is open and not broken, whose file holds the header and the frames of `rs`.
  pub record IsLogOf (l : Log) (d : Disk) (i : ℕ) (rs : List Record) : Type 0 where
    pub handle : l.f ≡ some i
    pub unbroken : l.broken ≡ none
    pub bytes : List ℕ
    pub framed : Framed codec rs bytes
    pub contents : d.inode i ≡ encode_file_header ++ bytes
    pub sized : l.size ≡ length (d.inode i)
    pub counted : l.records ≡ length rs

  -- A log that refuses writes, whose file still holds the frames of `rs` and then at most one frame.
  pub record IsBrokenLogOf (l : Log) (d : Disk) (i : ℕ) (rs : List Record) : Type 0 where
    pub broken : l.broken ≡ some log_broken
    pub bytes : List ℕ
    pub framed : Framed codec rs bytes
    pub last : Record
    pub last_frame : List ℕ
    pub encoded : encode_frame codec last ≡ frame last_frame
    pub laid : ℕ
    pub contents : d.inode i ≡ encode_file_header ++ (bytes ++ take laid last_frame)

  -- What one Append may come to, from a log of `rs`.
  abbrev pub Appended : List Record → Record → ℕ → Outcome → Type 0
  Appended rs r i (none, l, d) = IsLogOf l d i (rs ++ r ∷ [])
  Appended rs r i (some e, l, d) = IsLogOf l d i rs ⊎ ((e ≡ log_broken) × IsBrokenLogOf l d i rs)

  module _ (env : AppendEnv) (r : Record) (l : Log) (d : Disk) (i : ℕ) (rs : List Record)
      (fr : List ℕ) (encoded : encode_frame codec r ≡ frame fr) (log : IsLogOf l d i rs) where
    abbrev partial : Disk
    partial = set_inode d i (write_at (d.inode i) l.size (take env.written fr))

    partial_contents : partial.inode i ≡ d.inode i ++ take env.written fr
    partial_contents =
        inode-set_inode d i _ ∙ write_at-length (d.inode i) (take env.written fr) l.size log.sized

    abbrev shorter : Disk
    shorter = set_inode partial i (truncate_to (partial.inode i) l.size)

    shorter_contents : shorter.inode i ≡ d.inode i
    shorter_contents =
        inode-set_inode partial i _
        ∙ (rw partial_contents
            (truncate_to-append (d.inode i) (take env.written fr) l.size log.sized))

    broken_partial : IsBrokenLogOf (record l { broken = some log_broken }) partial i rs
    broken_partial = record {
      broken = refl;
      bytes = log.bytes;
      framed = log.framed;
      last = r;
      last_frame = fr;
      encoded = encoded;
      laid = env.written;
      contents =
          partial_contents
          ∙ ap (λ x. x ++ take env.written fr) log.contents
          ∙ append_assoc encode_file_header log.bytes (take env.written fr);
    }

    broken_shorter : IsBrokenLogOf (record l { broken = some log_broken }) shorter i rs
    broken_shorter = record {
      broken = refl;
      bytes = log.bytes;
      framed = log.framed;
      last = r;
      last_frame = fr;
      encoded = encoded;
      laid = 0;
      contents =
          shorter_contents
          ∙ log.contents
          ∙ ap (λ x. encode_file_header ++ x) (sym (append-nil log.bytes));
    }

    restored : IsLogOf l shorter i rs
    restored = record {
      handle = log.handle;
      unbroken = log.unbroken;
      bytes = log.bytes;
      framed = log.framed;
      contents = shorter_contents ∙ log.contents;
      sized = log.sized ∙ ap length (sym shorter_contents);
      counted = log.counted;
    }

    rollback-Appended : (cause : LogError) → Appended rs r i (rollback env i l.size cause l partial)
    unfolding rollback
    rollback-Appended cause = elim (Bool-cases env.truncate_fails) [
      | inl stuck ↦ simp stuck (inr (refl, broken_partial))
      | inr cut ↦ simp cut (elim (Bool-cases env.resync_fails) [
        | inl lost ↦ simp lost (inr (refl, broken_shorter))
        | inr flushed ↦ simp flushed (inl restored)
      ])
    ]

    extended :
        length fr ≤ env.written
        → IsLogOf
            (record l { size = l.size + length fr; records = l.records + 1 })
            partial
            i
            (rs ++ r ∷ [])
    extended whole = record {
      handle = log.handle;
      unbroken = log.unbroken;
      bytes = log.bytes ++ fr;
      framed = Framed-concat codec r log.framed encoded;
      contents =
          all ∙ ap (λ x. x ++ fr) log.contents ∙ append_assoc encode_file_header log.bytes fr;
      sized = omega (arith, log.sized, ap length all, length-append (d.inode i) fr);
      counted = omega (arith, log.counted, length-append rs (r ∷ []));
    }
      where
        all : partial.inode i ≡ d.inode i ++ fr
        all = partial_contents ∙ ap (λ x. d.inode i ++ x) (take-all env.written fr whole)

    write_frame-Appended : Appended rs r i (write_frame env i fr l d)
    unfolding write_frame
    write_frame-Appended = elim (Bool-cases env.write_fails) [
      | inl failed ↦ simp failed (rollback-Appended os_error)
      | inr wrote ↦ simp wrote (elim (Bool-cases (ltb env.written (length fr))) [
        | inl short ↦ simp short (rollback-Appended short_write)
        | inr whole ↦ simp whole (elim (Bool-cases env.sync_fails) [
          | inl unsynced ↦ simp unsynced (rollback-Appended os_error)
          | inr synced ↦ simp synced (extended (ground arith))
        ])
      ])
    ]

  encoded-Appended :
      (env : AppendEnv) (r : Record) (l : Log) (d : Disk) (i : ℕ) (rs : List Record) (x : Encoded)
      → encode_frame codec r ≡ x
      → IsLogOf l d i rs
      → Appended rs r i (append codec env r l d)
  unfolding append
  encoded-Appended env r l d i rs (frame fr) e log =
      rw (log.unbroken, append_unbroken, log.handle, append_open, e)
        (write_frame-Appended env r l d i rs fr e log)
  encoded-Appended env r l d i rs (refused x) e log =
      rw (log.unbroken, append_unbroken, log.handle, append_open, e) (inl log)

  -- From an open log of `rs`, whatever the operating system answers: an Append that returns nil
  -- leaves an open log of `rs` and the record; one that returns an error leaves an open log of
  -- exactly `rs`, or it returns ErrLogBroken and the log is broken, with the frames of `rs` intact
  -- in the file and at most a prefix of one frame behind them.
  pub append-Appended :
      (env : AppendEnv) (r : Record) (l : Log) (d : Disk) (i : ℕ) (rs : List Record)
      → IsLogOf l d i rs
      → Appended rs r i (append codec env r l d)
  append-Appended env r l d i rs log =
      encoded-Appended env r l d i rs (encode_frame codec r) refl log

  -- A broken log refuses every Append with its error, and changes nothing.
  pub append-broken :
      (env : AppendEnv) (r : Record) (l : Log) (d : Disk) (e : LogError)
      → l.broken ≡ some e
      → append codec env r l d ≡ (some e, l, d)
  unfolding append
  append-broken env r l d e h = simp (h, append_unbroken)
