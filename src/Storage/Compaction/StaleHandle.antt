-- ===== src/Storage/Compaction/StaleHandle.antt =====
-- Compact where only the sync of the directory fails, behind the rename.
use queuemaxxing.Base.{ℕ, ◌≡◌, ◌≢◌, refl, sym, ◌∙◌, true, false, none, some, List, length}
use queuemaxxing.Storage.Record.{Codec, Record, Header, Enqueue, encode_frame, frame}
use queuemaxxing.Storage.Disk.{Disk, set_inode, write_at}
use queuemaxxing.Storage.Log.{os_error, Log, append}
use queuemaxxing.Storage.Log.Append.{IsLogOf}
use queuemaxxing.Storage.Log.Footprint.{clean, append-elsewhere, append-entry, append-none}
use queuemaxxing.Storage.Compaction.{
  CompactEnv, temp_inode, open_temp, rename_temp, build, adopt, install, compact_open,
  compact_unbroken, compact,
}
use queuemaxxing.Storage.Compaction.Commit.{
  snapshot, IsReplaced, replaced, opened_new, opened_entry, opened_log,
}

-- Of Compact's calls, the directory's sync fails.
abbrev pub unsynced_dir : CompactEnv
unsynced_dir = record {
  open_temp_fails = false;
  write_fails = false;
  sync_fails = false;
  close_fails = false;
  rename_fails = false;
  sync_dir_fails = true;
  reopen_fails = false;
  remove_fails = false;
}

module _ (codec : Codec) (hdr : Header) (live : List Enqueue) (buf : List ℕ) (l : Log) (d : Disk)
    (i : ℕ) (rs : List Record) (built : build codec hdr live ≡ frame buf) (apart : temp_inode d ≢ i)
    (named : d.entry ≡ some i) (log : IsLogOf codec l d i rs) where
  abbrev j : ℕ
  j = temp_inode d

  abbrev opened : Disk
  opened = open_temp d j

  abbrev after : Disk
  after = rename_temp (set_inode opened j (write_at (opened.inode j) 0 buf)) j

  compact-unsynced : compact codec unsynced_dir hdr live l d ≡ (some os_error, l, after)
  unfolding compact install adopt
  compact-unsynced = simp (log.unbroken, compact_unbroken, log.handle, compact_open, built)

  -- Compact reports the failed sync, with the path naming the new file; the log is not broken and
  -- keeps the old file's handle. An Append that then returns nil has changed nothing in the file
  -- that the path names, so the next Open does not see its record.
  pub unsynced_rename_loses_append :
      (r : Record) (fr : List ℕ)
      → encode_frame codec r ≡ frame fr
      → let o = compact codec unsynced_dir hdr live l d in
        let a = append codec (clean (length fr)) r o.1 o.2 in
        (o.0 ≡ some os_error)
        × IsReplaced codec o.2 j (snapshot hdr live)
        × (a.0 ≡ none)
        × (a.2.entry ≡ some j)
        × (a.2.inode j ≡ o.2.inode j)
  unsynced_rename_loses_append r fr encoded = rw compact-unsynced (
    refl,
    new_file,
    append-none codec r l after i fr log.handle log.unbroken encoded,
    append-entry codec (clean (length fr)) r l after ∙ new_file.entry,
    append-elsewhere codec (clean (length fr)) r l after i j log.handle log.unbroken
        (λ e. apart (sym e)),
  )
    where
      new_file : IsReplaced codec after j (snapshot hdr live)
      new_file =
          replaced codec unsynced_dir hdr live buf l opened i j rs built apart
            (opened_new codec unsynced_dir hdr live l d i rs apart named log)
            (opened_entry codec unsynced_dir hdr live l d i rs apart named log)
            (opened_log codec unsynced_dir hdr live l d i rs apart named log)
