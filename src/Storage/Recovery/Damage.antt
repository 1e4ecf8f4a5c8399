-- ===== src/Storage/Recovery/Damage.antt =====
-- Open on zero fill, and on a frame in the middle of the log whose checksum does not match.
use queuemaxxing.Base.{
  ℕ, suc, ◌+◌, ◌-◌, ◌<◌, ◌≤◌, ◌≡◌, ◌≢◌, sym, ap, ◌∙◌, false, some, List, ◌∷◌, ◌++◌, map, length,
  length-append, replicate, take, drop, arith, le→ltb, ◌==◌, Result, ok, err,
}
use queuemaxxing.Storage.Record.{
  Codec, Record, Header, header, encode_file_header, file_header_size, frame_overhead, length_size,
  type_size, crc_size, max_record_size,
}
use queuemaxxing.Storage.Record.Bytes.{uint32}
use queuemaxxing.Storage.Record.Frame.{check_file_header-encode, length-encode_file_header}
use queuemaxxing.Storage.Record.Sequence.{Framed}
use queuemaxxing.Storage.Disk.{Disk}
use queuemaxxing.Storage.Scanner.{Reason, Scanner, corrupt, next, filled, read_full}
use queuemaxxing.Storage.Scanner.Frames.{read_full-append}
use queuemaxxing.Storage.Scanner.Tail.{scanner_at, next-zeros, next-mismatch, why_mismatch}
use queuemaxxing.Storage.Recovery.{
  corrupt_log, failed, reader_of, scan, open_scanned, open_header, open_inode, open_log,
}
use queuemaxxing.Storage.Recovery.Replay.{apply_all, rounds, rounds-eq}
use queuemaxxing.Storage.Recovery.Torn.{
  no_faults, Recovered, open-Recovered, scan-headed, length-Framed,
}

module _ (codec : Codec) {E S : Type 0} (apply : Record → S → Result E S) (d : Disk) (i : ℕ)
    (x : Header) (rs : List Record) (bytes : List ℕ) (st st' : S)
    (framed : Framed codec (header x ∷ rs) bytes)
    (run : apply_all apply (map codec.stored (header x ∷ rs)) st ≡ ok st')
    (named : d.entry ≡ some i) where
  -- Zeros behind the last frame, however many, are cut off, and every record is applied.
  pub open-zero_fill :
      (n : ℕ)
      → d.inode i ≡ encode_file_header ++ (bytes ++ replicate n 0)
      → Recovered codec apply d i (header x ∷ rs) bytes st' (open_log codec apply no_faults d st)
  open-zero_fill n contents =
      open-Recovered codec apply d i x rs bytes (replicate n 0) st st' contents framed
        (λ offset. next-zeros codec n offset (offset + length (replicate n 0))) run named

  module _ (buf rest more : List ℕ) (n : ℕ)
      (contents : d.inode i ≡ encode_file_header ++ (bytes ++ (buf ++ (rest ++ more))))
      (four : length_size ≡ length buf) (whole : type_size + n + crc_size ≡ length rest)
      (len : uint32 buf ≡ n) (pos : 0 < n) (small : n ≤ max_record_size)
      (mismatch : codec.update (codec.update 0 buf) (take (type_size + n) rest)
        ≢ uint32 (drop (type_size + n) rest))
      (followed : 0 < length more) where
    abbrev end : ℕ
    end = file_header_size + length bytes

    abbrev tail : List ℕ
    tail = buf ++ (rest ++ more)

    abbrev why : Reason
    why = why_mismatch codec buf rest n four whole len pos small mismatch

    tail_size : length tail ≡ frame_overhead + n + length more
    tail_size = omega (arith, length-append buf (rest ++ more), length-append rest more)

    size-eq : length (d.inode i) ≡ end + (frame_overhead + n) + length more
    size-eq = omega (
      arith,
      ap length contents,
      length-append encode_file_header (bytes ++ tail),
      length-encode_file_header,
      length-append bytes tail,
      tail_size,
    )

    next-tail : next codec (scanner_at tail end (length (d.inode i))) ≡ corrupt end why
    next-tail =
        rw size-eq (
          next-mismatch codec buf rest n four whole len pos small mismatch more end ∙ (rw nonempty))
      where
        nonempty : (length more == 0) ≡ false
        nonempty = ground arith

    scan-corrupt :
        (k records : ℕ) (s : Scanner)
        → next codec s ≡ corrupt end why
        → scan codec apply (suc k) s records st' ≡ failed (corrupt_log end why)
    unfolding scan
    scan-corrupt k records s e = rw (e, scan)

    spare : ℕ
    spare = length (d.inode i) - length (header x ∷ rs)

    fuel-eq : length (d.inode i) + 1 ≡ rounds (header x ∷ rs) (suc spare)
    unfolding spare
    fuel-eq = omega (
      arith,
      rounds-eq (header x ∷ rs) (suc (length (d.inode i) - length (header x ∷ rs))),
      size-eq,
      length-Framed codec framed,
    )

    scan-eq :
        scan codec apply
          (length (d.inode i) + 1)
          (scanner_at (bytes ++ tail) file_header_size (length (d.inode i)))
          0
          st
        ≡ failed (corrupt_log end why)
    scan-eq =
        ap
          (λ k.
            scan codec apply k (scanner_at (bytes ++ tail) file_header_size (length (d.inode i))) 0
              st)
          fuel-eq
        ∙ scan-headed codec apply false x rs bytes tail (suc spare) file_header_size
            (length (d.inode i)) st st' framed (omega (arith, size-eq)) run
        ∙ scan-corrupt spare _ _ next-tail

    header_read :
        read_full file_header_size (record { rest = d.inode i; fails = false })
        ≡ filled encode_file_header (record { rest = bytes ++ tail; fails = false })
    header_read =
        ap (λ c. read_full file_header_size (record { rest = c; fails = false })) contents
        ∙ read_full-append file_header_size encode_file_header (bytes ++ tail) false
            (sym length-encode_file_header)

    open_header-corrupt :
        open_header codec apply no_faults d i st encode_file_header
          (record { rest = bytes ++ tail; fails = false })
        ≡ (d, err (corrupt_log end why))
    unfolding open_header open_scanned
    open_header-corrupt = rw (check_file_header-encode, open_header, scan-eq, open_scanned)

    open_inode-corrupt : open_inode codec apply no_faults d i st ≡ (d, err (corrupt_log end why))
    unfolding open_inode reader_of
    open_inode-corrupt =
        rw (le→ltb (length (d.inode i)) file_header_size (omega (arith, size-eq)), header_read)
          open_header-corrupt

    -- Open refuses a log in which a frame of valid length has the wrong checksum and bytes follow
    -- it: it reports the frame's offset and the two checksums, and leaves the disk as it was.
    pub open-corrupt : open_log codec apply no_faults d st ≡ (d, err (corrupt_log end why))
    unfolding open_log
    open-corrupt = simp (named, open_log) open_inode-corrupt
