-- ===== src/Storage/Compaction/Reopen.antt =====
-- A restart after Compact of compaction.go: Open of recovery.go on the disk that it leaves.
use queuemaxxing.Base.{ℕ, ◌≡◌, ◌≢◌, ◌⊎◌, inl, inr, none, some, List, [], ◌∷◌, ◌++◌, map, append-nil}
use queuemaxxing.Storage.Record.{
  Codec, Record, Header, Enqueue, header, enqueue, encode_file_header,
}
use queuemaxxing.Storage.Record.Sequence.{Framed}
use queuemaxxing.Storage.Disk.{Disk}
use queuemaxxing.Storage.Log.{Log, Outcome}
use queuemaxxing.Storage.Log.Append.{IsLogOf}
use queuemaxxing.Storage.Recovery.{open_log}
use queuemaxxing.Storage.Recovery.Torn.{no_faults, Recovered, open-Recovered}
use queuemaxxing.Storage.Recovery.Durability.{collect, apply_all-collect, nil-IsTorn}
use queuemaxxing.Storage.Compaction.{CompactEnv, temp_inode, compact}
use queuemaxxing.Storage.Compaction.Commit.{snapshot, Compacted, compact-Compacted}

module _ (codec : Codec) where
  -- Open succeeds on the file of inode `i`, and hands over exactly `rs`.
  abbrev pub Reopens : Disk → ℕ → List Record → Type 0
  Reopens d i rs =
      (bytes : List ℕ) × Framed codec rs bytes
      × Recovered codec collect d i rs bytes (map codec.stored rs)
          (open_log codec collect no_faults d [])

  file-Reopens :
      (d : Disk) (i : ℕ) (x : Header) (rs : List Record) (bytes : List ℕ)
      → d.entry ≡ some i
      → Framed codec (header x ∷ rs) bytes
      → d.inode i ≡ encode_file_header ++ bytes
      → Reopens d i (header x ∷ rs)
  file-Reopens d i x rs bytes named framed contents = (
    bytes,
    framed,
    open-Recovered codec collect d i x rs bytes [] [] (map codec.stored (header x ∷ rs))
        (rw (append-nil bytes) contents) framed (nil-IsTorn codec)
        (apply_all-collect (map codec.stored (header x ∷ rs)) []) named,
  )

  Compacted-Reopens :
      (i j : ℕ) (x : Header) (rs : List Record) (hdr : Header) (live : List Enqueue) (o : Outcome)
      → Compacted codec i (header x ∷ rs) j (snapshot hdr live) o
      → Reopens o.2 i (header x ∷ rs) ⊎ Reopens o.2 j (snapshot hdr live)
  Compacted-Reopens i j x rs hdr live (none, l, d) (log, named) =
      inr (file-Reopens d j hdr (map enqueue live) log.bytes named log.framed log.contents)
  Compacted-Reopens i j x rs hdr live (some e, l, d) (inl kept) =
      inl (file-Reopens d i x rs kept.log.bytes kept.entry kept.log.framed kept.log.contents)
  Compacted-Reopens i j x rs hdr live (some e, l, d) (inr (new, _)) =
      inr (file-Reopens d j hdr (map enqueue live) new.bytes new.entry new.framed new.contents)

  -- Whatever Compact returns and whichever of its calls fail, Open on the disk that it leaves, with
  -- no failure of its own, succeeds: it hands over either exactly the records of before or exactly
  -- the snapshot, never a mixture and never less.
  pub compact-Reopens :
      (env : CompactEnv) (hdr : Header) (live : List Enqueue) (l : Log) (d : Disk) (i : ℕ)
      (x : Header) (rs : List Record)
      → temp_inode d ≢ i
      → d.entry ≡ some i
      → IsLogOf codec l d i (header x ∷ rs)
      → Reopens (compact codec env hdr live l d).2 i (header x ∷ rs)
        ⊎ Reopens (compact codec env hdr live l d).2 (temp_inode d) (snapshot hdr live)
  compact-Reopens env hdr live l d i x rs apart named log =
      Compacted-Reopens i (temp_inode d) x rs hdr live (compact codec env hdr live l d)
        (compact-Compacted codec env hdr live l d i (header x ∷ rs) apart named log)
