-- ===== src/Storage/Recovery/ReadFailure.antt =====
-- Open where reading the file fails before its end.
use mathlib.Core.Path.{ap₂}
use queuemaxxing.Base.{
  ℕ, suc, ◌+◌, ◌-◌, ◌≡◌, refl, sym, ap, ◌∙◌, true, Option, some, List, [], ◌∷◌, ◌++◌, map,
  append_assoc, append-nil, length, length-append, take-append_length, take, arith, le→ltb, Result,
  ok,
}
use queuemaxxing.Storage.Record.{
  Codec, Record, Header, header, encode_file_header, file_header_size,
}
use queuemaxxing.Storage.Record.Frame.{check_file_header-encode, length-encode_file_header}
use queuemaxxing.Storage.Record.Sequence.{Framed}
use queuemaxxing.Storage.Disk.{Disk}
use queuemaxxing.Storage.Scanner.{length_truncated, torn, next, filled, read_full}
use queuemaxxing.Storage.Scanner.Frames.{read_full-append}
use queuemaxxing.Storage.Scanner.Tail.{scanner_on}
use queuemaxxing.Storage.Recovery.{torn_at, reader_of, scan, open_header, open_inode, open_log}
use queuemaxxing.Storage.Recovery.Replay.{apply_all, rounds, rounds-eq}
use queuemaxxing.Storage.Recovery.Torn.{
  reads, Recovered, torn-Recovered, scan-headed, scan-torn, length-Framed,
}

next-failed :
    (codec : Codec) (offset size : ℕ)
    → next codec (scanner_on true [] offset size) ≡ torn offset length_truncated
unfolding next read_full
next-failed codec offset size = refl

module _ (codec : Codec) {E S : Type 0} (apply : Record → S → Result E S) (d : Disk) (i : ℕ)
    (x : Header) (rs : List Record) (bytes lost : List ℕ) (st st' : S)
    (contents : d.inode i ≡ encode_file_header ++ (bytes ++ lost))
    (framed : Framed codec (header x ∷ rs) bytes)
    (run : apply_all apply (map codec.stored (header x ∷ rs)) st ≡ ok st') where
  abbrev end : ℕ
  end = file_header_size + length bytes

  abbrev cut : Option ℕ
  cut = some end

  size-eq : length (d.inode i) ≡ end + length lost
  size-eq = omega (
    arith,
    ap length contents,
    length-append encode_file_header (bytes ++ lost),
    length-encode_file_header,
    length-append bytes lost,
  )

  delivered : take end (d.inode i) ≡ encode_file_header ++ bytes
  delivered =
      ap (take end) (contents ∙ sym (append_assoc encode_file_header bytes lost))
      ∙ take-append_length (encode_file_header ++ bytes) lost end
          (omega (arith, length-append encode_file_header bytes, length-encode_file_header))

  spare : ℕ
  spare = length (d.inode i) - length (header x ∷ rs)

  fuel-eq : length (d.inode i) + 1 ≡ rounds (header x ∷ rs) (suc spare)
  unfolding spare
  fuel-eq = omega (
    arith,
    rounds-eq (header x ∷ rs) (suc (length (d.inode i) - length (header x ∷ rs))),
    size-eq,
    length-Framed codec framed,
  )

  scan-eq :
      scan codec apply
        (length (d.inode i) + 1)
        (scanner_on true bytes file_header_size (length (d.inode i)))
        0
        st
      ≡ torn_at end (length (header x ∷ rs)) st'
  scan-eq =
      ap₂ (λ k b. scan codec apply k (scanner_on true b file_header_size (length (d.inode i))) 0 st)
        fuel-eq (sym (append-nil bytes))
      ∙ scan-headed codec apply true x rs bytes [] (suc spare) file_header_size (length (d.inode i))
          st st' framed (omega (arith, size-eq)) run
      ∙ scan-torn codec apply spare _ end length_truncated _ st'
          (next-failed codec end (length (d.inode i)))

  header_read :
      read_full file_header_size (record { rest = take end (d.inode i); fails = true })
      ≡ filled encode_file_header (record { rest = bytes; fails = true })
  header_read =
      ap (λ c. read_full file_header_size (record { rest = c; fails = true })) delivered
      ∙ read_full-append file_header_size encode_file_header bytes true
          (sym length-encode_file_header)

  open_header-Recovered : Recovered codec apply d i (header x ∷ rs) bytes st' (
      open_header codec apply
        (reads cut)
        d
        i
        st
        encode_file_header
        (record { rest = bytes; fails = true }))
  unfolding open_header
  open_header-Recovered =
      rw (check_file_header-encode, open_header, scan-eq)
        (torn-Recovered codec apply d i x rs bytes lost st st' contents cut)

  open_inode-Recovered :
      Recovered codec apply d i
        (header x ∷ rs)
        bytes
        st'
        (open_inode codec apply (reads cut) d i st)
  unfolding open_inode reader_of
  open_inode-Recovered =
      rw (le→ltb (length (d.inode i)) file_header_size (omega (arith, size-eq)), header_read)
        open_header-Recovered

  -- An I/O error that Open meets while reading, behind the frames of `header x ∷ rs`, is taken for a
  -- torn tail: Open succeeds with those records alone and cuts the file off there, so that the
  -- bytes behind them, whole frames or not, are gone.
  pub open-read_failure :
      d.entry ≡ some i
      → Recovered codec apply d i (header x ∷ rs) bytes st' (open_log codec apply (reads cut) d st)
  unfolding open_log
  open-read_failure named = simp (named, open_log) (simp named at open_inode-Recovered)
