-- ===== src/Storage/Recovery/Torn.antt =====
-- Open on a log file whose last frame may be torn.
use mathlib.Core.Path.{ap₂}
use queuemaxxing.Base.{
  ℕ, suc, ◌+◌, ◌-◌, ◌≤◌, ◌≡◌, refl, sym, ap, ◌∙◌, inl, inr, Bool, false, Option, none, some, List,
  [], ◌∷◌, ◌++◌, map, append_assoc, append-nil, length, length-append, arith, ◌==◌, le→ltb, Result,
  ok, inl, inr,
}
use queuemaxxing.Storage.Record.{
  Codec, Record, Header, header, encode_file_header, file_header_size,
}
use queuemaxxing.Storage.Record.Frame.{
  frame-inv, length-frame, check_file_header-encode, length-encode_file_header,
}
use queuemaxxing.Storage.Record.Sequence.{Framed, no_frames, next_frame}
use queuemaxxing.Storage.Disk.{
  Disk, truncate_to, inode-set_inode, entry-set_inode, truncate_to-append,
}
use queuemaxxing.Storage.Log.{Log}
use queuemaxxing.Storage.Scanner.{Reason, Scanner, end_of_log, torn, next, filled, read_full}
use queuemaxxing.Storage.Scanner.Frames.{read_full-append}
use queuemaxxing.Storage.Scanner.Tail.{EndsAt, scanner_at, scanner_on}
use queuemaxxing.Storage.Recovery.{
  OpenEnv, finished, torn_at, reader_of, scan, Opened, opened, open_torn, open_scanned, open_header,
  open_inode, open_log,
}
use queuemaxxing.Storage.Recovery.Replay.{
  apply_all, apply_all-cons, rounds, rounds-eq, visit-header, next-frame, scan-scanned, scan-Framed,
}

-- The operating system refuses nothing.
abbrev pub no_faults : OpenEnv
no_faults = record {
  open_fails = false;
  stat_fails = false;
  delivers = none;
  truncate_fails = false;
  sync_fails = false;
  sync_dir_fails = false;
}

-- Reading ends with an I/O error after `given` bytes, or goes to the end of the file.
abbrev pub reads : Option ℕ → OpenEnv
reads given = record no_faults { delivers = given }

-- every frame has at least ten bytes
pub length-Framed :
    (codec : Codec) {rs : List Record} {bytes : List ℕ}
    → Framed codec rs bytes
    → length rs ≤ length bytes
length-Framed codec no_frames = omega arith
length-Framed codec (next_frame {r = r} {f = f} {bytes = b} e q) =
    let (p, framed) = frame-inv codec r f e in
    omega (arith, length-Framed codec q, length-frame codec r p f framed, length-append f b)

module _ (codec : Codec) where
  -- Where the frames end with these bytes, the scan ends: they are none, or a torn tail.
  abbrev pub IsTorn : List ℕ → Type 0
  IsTorn tail =
      (offset : ℕ) → EndsAt tail offset (next codec (scanner_at tail offset (offset + length tail)))

module _ (codec : Codec) {E S : Type 0} (apply : Record → S → Result E S) where
  pub scan-headed :
      (fails : Bool) (x : Header) (rs : List Record) (bytes tail : List ℕ) (k offset size : ℕ)
      (st st' : S)
      → Framed codec (header x ∷ rs) bytes
      → offset + length bytes ≤ size
      → apply_all apply (map codec.stored (header x ∷ rs)) st ≡ ok st'
      → scan codec apply
          (rounds (header x ∷ rs) k)
          (scanner_on fails (bytes ++ tail) offset size)
          0
          st
        ≡ scan codec apply k
            (scanner_on fails tail (offset + length bytes) size)
            (length (header x ∷ rs))
            st'
  scan-headed fails x rs bytes tail k offset size st st' (next_frame {f = f} {bytes = b} e q) fits
        run =
      let (p, framed) = frame-inv codec (header x) f e in
      let (mid, one, others) =
        apply_all-cons apply (codec.stored (header x)) (map codec.stored rs) st st' run in
      let room : offset + length f + length b ≤ size = omega (arith, length-append f b) in
      ap (λ y. scan codec apply (suc (rounds rs k)) (scanner_on fails y offset size) 0 st)
        (append_assoc f b tail)
      ∙ scan-scanned codec apply fails _ p (rounds rs k) 0 _ _ st mid
          (next-frame codec apply fails (header x) p f (b ++ tail) offset size framed (omega arith))
          (visit-header codec apply x p f offset st mid framed one)
      ∙ scan-Framed codec apply fails tail k (offset + length f) size 1 mid st' q room (omega arith)
          others
      ∙ ap₂ (λ o n. scan codec apply k (scanner_on fails tail o size) n st')
          (omega (arith, length-append f b)) (omega arith)

  -- What Open makes of the records: a log positioned behind the last whole frame.
  abbrev pub recovered_log : ℕ → List Record → List ℕ → Log
  recovered_log i rs bytes = record {
    f = some i;
    size = file_header_size + length bytes;
    records = length rs;
    broken = none;
  }

  abbrev pub Recovered : Disk → ℕ → List Record → List ℕ → S → Opened E S → Type 0
  Recovered d i rs bytes st' (d', result) =
      (result ≡ ok (recovered_log i rs bytes, st'))
      × (d'.inode i ≡ encode_file_header ++ bytes)
      × (d'.entry ≡ d.entry)

  scan-end :
      (k records : ℕ) (s : Scanner) (st : S)
      → next codec s ≡ end_of_log
      → scan codec apply (suc k) s records st ≡ finished records st
  unfolding scan
  scan-end k records s st e = rw (e, scan)

  pub scan-torn :
      (k records at : ℕ) (why : Reason) (s : Scanner) (st : S)
      → next codec s ≡ torn at why
      → scan codec apply (suc k) s records st ≡ torn_at at records st
  unfolding scan
  scan-torn k records at why s st e = rw (e, scan)

module _ (codec : Codec) {E S : Type 0} (apply : Record → S → Result E S) (d : Disk) (i : ℕ)
    (x : Header) (rs : List Record) (bytes tail : List ℕ) (st st' : S)
    (contents : d.inode i ≡ encode_file_header ++ (bytes ++ tail)) where
  abbrev all : List Record
  all = header x ∷ rs

  abbrev end : ℕ
  end = file_header_size + length bytes

  regrouped : d.inode i ≡ (encode_file_header ++ bytes) ++ tail
  regrouped = contents ∙ sym (append_assoc encode_file_header bytes tail)

  end-eq : end ≡ length (encode_file_header ++ bytes)
  end-eq = omega (arith, length-append encode_file_header bytes, length-encode_file_header)

  size-eq : length (d.inode i) ≡ end + length tail
  size-eq =
      omega (arith, ap length regrouped, end-eq, length-append (encode_file_header ++ bytes) tail)

  opened-Recovered :
      (d' : Disk)
      → d'.inode i ≡ encode_file_header ++ bytes
      → d'.entry ≡ d.entry
      → Recovered codec {E = E} apply d i all bytes st' (opened d' i end (length all) st')
  unfolding opened
  opened-Recovered d' kept named = rw some_record (refl, kept, named)
    where
      some_record : (suc (length rs) == 0) ≡ false
      some_record = ground arith

  finished-Recovered :
      (given : Option ℕ)
      → tail ≡ []
      → Recovered codec {E = E} apply d i all bytes st'
          (open_scanned (reads given) d i (finished (length all) st'))
  unfolding open_scanned
  finished-Recovered given e = rw full (
      opened-Recovered d
        (contents ∙ ap (λ y. encode_file_header ++ y) (ap (λ y. bytes ++ y) e ∙ append-nil bytes))
        refl)
    where
      full : length (d.inode i) ≡ end
      full = omega (arith, size-eq, ap length e)

  pub torn-Recovered :
      (given : Option ℕ)
      → Recovered codec {E = E} apply d i all bytes st'
          (open_scanned (reads given) d i (torn_at end (length all) st'))
  unfolding open_scanned open_torn
  torn-Recovered given =
      opened-Recovered _
        (inode-set_inode d i _
          ∙ ap (λ y. truncate_to y end) regrouped
          ∙ truncate_to-append (encode_file_header ++ bytes) tail end end-eq)
        (entry-set_inode d i _)

  tail-Recovered :
      (k size : ℕ)
      → EndsAt tail end (next codec (scanner_at tail end size))
      → Recovered codec apply d i all bytes st' (
          open_scanned no_faults d i
            (scan codec apply (suc k) (scanner_at tail end size) (length all) st'))
  tail-Recovered k size (inl (ended, none_left)) =
      rw (scan-end codec apply k (length all) _ st' ended) (finished-Recovered none none_left)
  tail-Recovered k size (inr (why, cut)) =
      rw (scan-torn codec apply k (length all) end why _ st' cut) (torn-Recovered none)

  module _ (framed : Framed codec all bytes) (torn_tail : IsTorn codec tail)
      (run : apply_all apply (map codec.stored all) st ≡ ok st') where
    spare : ℕ
    spare = length (d.inode i) - length all

    fuel-eq : length (d.inode i) + 1 ≡ rounds all (suc spare)
    unfolding spare
    fuel-eq = omega (
      arith,
      rounds-eq all (suc (length (d.inode i) - length all)),
      size-eq,
      length-Framed codec framed,
    )

    scanned-Recovered : Recovered codec apply d i all bytes st' (
        open_scanned no_faults d i (
          scan codec apply
            (length (d.inode i) + 1)
            (scanner_at (bytes ++ tail) file_header_size (length (d.inode i)))
            0
            st))
    scanned-Recovered =
        rw
          (
            fuel-eq,
            scan-headed codec apply false x rs bytes tail (suc spare) file_header_size
                (length (d.inode i)) st st' framed (omega (arith, size-eq)) run,
          )
          (tail-Recovered spare (length (d.inode i)) (rw size-eq (torn_tail end)))

    header_read :
        read_full file_header_size (record { rest = d.inode i; fails = false })
        ≡ filled encode_file_header (record { rest = bytes ++ tail; fails = false })
    header_read =
        ap (λ c. read_full file_header_size (record { rest = c; fails = false })) contents
        ∙ read_full-append file_header_size encode_file_header (bytes ++ tail) false
            (sym length-encode_file_header)

    open_header-Recovered : Recovered codec apply d i all bytes st' (
        open_header codec apply no_faults d i st encode_file_header
          (record { rest = bytes ++ tail; fails = false }))
    unfolding open_header
    open_header-Recovered = rw (check_file_header-encode, open_header) scanned-Recovered

    open_inode-Recovered :
        Recovered codec apply d i all bytes st' (open_inode codec apply no_faults d i st)
    unfolding open_inode reader_of
    open_inode-Recovered =
        rw (le→ltb (length (d.inode i)) file_header_size (omega (arith, size-eq)), header_read)
          open_header-Recovered

    -- Open on the file header, whole frames and a torn tail (or none), where no call of the
    -- operating system fails and the callback accepts every record.
    pub open-Recovered :
        d.entry ≡ some i
        → Recovered codec apply d i all bytes st' (open_log codec apply no_faults d st)
    unfolding open_log
    open-Recovered named = simp (named, open_log) (simp named at open_inode-Recovered)
