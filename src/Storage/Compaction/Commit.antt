-- ===== src/Storage/Compaction/Commit.antt =====
-- The rename is the single commit point of Compact.
use queuemaxxing.Base.{
  ℕ, ◌+◌, ◌≡◌, ◌≢◌, refl, sym, ap, ◌∙◌, ◌⊎◌, inl, inr, Bool, true, false, none, some, List, [], ◌∷◌,
  ◌++◌, map, length, length-map, arith, if◌then◌else◌,
}
use queuemaxxing.Storage.Record.{
  Codec, Record, Header, Enqueue, header, enqueue, Encoded, encode_frame, frame, refused,
  encode_file_header,
}
use queuemaxxing.Storage.Record.Sequence.{Framed, no_frames, next_frame}
use queuemaxxing.Storage.Disk.{
  Disk, set_inode, write_at, inode-set_inode, inode-set_inode_ne, entry-set_inode, write_at-length,
}
use queuemaxxing.Storage.Log.{log_broken, os_error, encode_error, Log, Outcome}
use queuemaxxing.Storage.Log.Append.{IsLogOf}
use queuemaxxing.Storage.Compaction.{
  CompactEnv, temp_inode, join_frames, open_temp, remove_temp, rename_temp, encode_live, build,
  adopt, install, compact_open, compact_unbroken, compact,
}

abbrev pub snapshot : Header → List Enqueue → List Record
snapshot hdr live = header hdr ∷ map enqueue live

join_frames-inv :
    (x y : Encoded) (bytes : List ℕ)
    → join_frames x y ≡ frame bytes
    → (f : List ℕ) × (b : List ℕ) × (x ≡ frame f) × (y ≡ frame b) × (bytes ≡ f ++ b)
unfolding join_frames
join_frames-inv (refused why) y bytes h = cc
join_frames-inv (frame f) (refused why) bytes h = cc
join_frames-inv (frame f) (frame b) bytes h = (f, b, refl, refl, cc)

module _ (codec : Codec) where
  live-Framed :
      (live : List Enqueue) (bytes : List ℕ)
      → encode_live codec live ≡ frame bytes
      → Framed codec (map enqueue live) bytes
  unfolding encode_live
  live-Framed [] bytes h = let e : [] ≡ bytes = cc in rw (← e) no_frames
  live-Framed (e ∷ live) bytes h =
      let (f, b, first, rest, whole) =
        join_frames-inv (encode_frame codec (enqueue e)) (encode_live codec live) bytes h in
      rw whole (next_frame first (live-Framed live b rest))

  -- the replacement is the file header and the frames of the snapshot
  build-Framed :
      (hdr : Header) (live : List Enqueue) (buf : List ℕ)
      → build codec hdr live ≡ frame buf
      → (bytes : List ℕ) × Framed codec (snapshot hdr live) bytes
        × (buf ≡ encode_file_header ++ bytes)
  unfolding build
  build-Framed hdr live buf h =
      let (a, bytes, first, rest, whole) =
        join_frames-inv (frame encode_file_header)
          (join_frames (encode_frame codec (header hdr)) (encode_live codec live)) buf h in
      let (f, b, second, others, records) =
        join_frames-inv (encode_frame codec (header hdr)) (encode_live codec live) bytes rest in
      let same : a ≡ encode_file_header = cc in
      (bytes, rw records (next_frame second (live-Framed live b others)), rw same at whole)

  -- the path still names the old file, and the log is what it was
  pub record IsKept (l : Log) (d : Disk) (i : ℕ) (rs : List Record) : Type 0 where
    pub log : IsLogOf codec l d i rs
    pub entry : d.entry ≡ some i

  -- the path names a file that holds exactly the snapshot
  pub record IsReplaced (d : Disk) (j : ℕ) (rs : List Record) : Type 0 where
    pub entry : d.entry ≡ some j
    pub bytes : List ℕ
    pub framed : Framed codec rs bytes
    pub contents : d.inode j ≡ encode_file_header ++ bytes

  -- What Compact may come to, from a log of `rs` in the inode `i`, with the temporary in `j`.
  abbrev pub Compacted : ℕ → List Record → ℕ → List Record → Outcome → Type 0
  Compacted i rs j snap (none, l, d) = IsLogOf codec l d j snap × (d.entry ≡ some j)
  Compacted i rs j snap (some e, l, d) =
      IsKept l d i rs
      ⊎ (IsReplaced d j snap × ((l.broken ≡ some log_broken) ⊎ IsLogOf codec l d i rs))

  moved :
      (l : Log) (d d' : Disk) (i : ℕ) (rs : List Record)
      → d'.inode i ≡ d.inode i
      → IsLogOf codec l d i rs
      → IsLogOf codec l d' i rs
  moved l d d' i rs same log = record {
    handle = log.handle;
    unbroken = log.unbroken;
    bytes = log.bytes;
    framed = log.framed;
    contents = same ∙ log.contents;
    sized = log.sized ∙ ap length (sym same);
    counted = log.counted;
  }

  Compacted-if :
      (i j : ℕ) (rs snap : List Record) (b : Bool) (x y : Outcome)
      → Compacted i rs j snap x
      → Compacted i rs j snap y
      → Compacted i rs j snap (if b then x else y)
  Compacted-if i j rs snap true x y p q = p
  Compacted-if i j rs snap false x y p q = q

  module _ (env : CompactEnv) (hdr : Header) (live : List Enqueue) (buf : List ℕ) (l : Log)
      (d : Disk) (i j : ℕ) (rs : List Record) (built : build codec hdr live ≡ frame buf)
      (apart : j ≢ i) (empty : d.inode j ≡ []) (named : d.entry ≡ some i)
      (log : IsLogOf codec l d i rs) where
    abbrev written : Disk
    written = set_inode d j (write_at (d.inode j) 0 buf)

    abbrev renamed : Disk
    renamed = rename_temp written j

    written_old : written.inode i ≡ d.inode i
    written_old = inode-set_inode_ne d j i _ apart

    written_new : written.inode j ≡ buf
    written_new =
        inode-set_inode d j _ ∙ ap (λ c. write_at c 0 buf) empty ∙ write_at-length [] buf 0 refl

    pub replaced : IsReplaced renamed j (snapshot hdr live)
    replaced =
        let (bytes, framed, laid) = build-Framed hdr live buf built in
        record { entry = refl; bytes = bytes; framed = framed; contents = written_new ∙ laid }

    adopted :
        IsLogOf codec
          (record l { f = some j; size = length buf; records = 1 + length live })
          renamed
          j
          (snapshot hdr live)
    adopted =
        let (bytes, framed, laid) = build-Framed hdr live buf built in
        record {
          handle = refl;
          unbroken = log.unbroken;
          bytes = bytes;
          framed = framed;
          contents = written_new ∙ laid;
          sized = ap length (sym written_new);
          counted = omega (arith, length-map live enqueue);
        }

    IsKept-open : IsKept l (remove_temp env d) i rs
    IsKept-open = record { log = moved l d (remove_temp env d) i rs refl log; entry = named }

    IsKept-written : IsKept l (remove_temp env written) i rs
    IsKept-written = record {
      log = moved l d (remove_temp env written) i rs written_old log;
      entry = entry-set_inode d j _ ∙ named;
    }

    adopt-Compacted : Compacted i rs j (snapshot hdr live) (adopt env j buf (length live) l renamed)
    unfolding adopt
    adopt-Compacted =
        Compacted-if i j rs (snapshot hdr live) env.sync_dir_fails (some os_error, l, renamed) _
          (inr (replaced, inr (moved l d renamed i rs written_old log)))
          (Compacted-if i j rs (snapshot hdr live) env.reopen_fails
            (some log_broken, record l { broken = some log_broken }, renamed) (none, _, renamed)
            (inr (replaced, inl refl)) (adopted, refl))

    install-Compacted : Compacted i rs j (snapshot hdr live) (install env j buf (length live) l d)
    unfolding install
    install-Compacted =
        Compacted-if i j rs (snapshot hdr live) env.write_fails
          (some os_error, l, remove_temp env d) _ (inl IsKept-open)
          (Compacted-if i j rs (snapshot hdr live) env.sync_fails
            (some os_error, l, remove_temp env written) _ (inl IsKept-written)
            (Compacted-if i j rs (snapshot hdr live) env.close_fails
              (some os_error, l, remove_temp env written) _ (inl IsKept-written)
              (Compacted-if i j rs (snapshot hdr live) env.rename_fails
                (some os_error, l, remove_temp env written) _ (inl IsKept-written)
                adopt-Compacted)))

  module _ (env : CompactEnv) (hdr : Header) (live : List Enqueue) (l : Log) (d : Disk) (i : ℕ)
      (rs : List Record) (apart : temp_inode d ≢ i) (named : d.entry ≡ some i)
      (log : IsLogOf codec l d i rs) where
    abbrev temp_opened : Disk
    temp_opened = open_temp d (temp_inode d)

    pub opened_entry : temp_opened.entry ≡ some i
    unfolding open_temp
    opened_entry = entry-set_inode d (temp_inode d) [] ∙ named

    pub opened_new : temp_opened.inode (temp_inode d) ≡ []
    unfolding open_temp
    opened_new = inode-set_inode d (temp_inode d) []

    pub opened_log : IsLogOf codec l temp_opened i rs
    unfolding open_temp
    opened_log = moved l d temp_opened i rs (inode-set_inode_ne d (temp_inode d) i [] apart) log

    opened-Compacted :
        (x : Encoded)
        → build codec hdr live ≡ x
        → Compacted i rs (temp_inode d) (snapshot hdr live) (elim x as (λ _. Outcome) [
          | refused why ↦ (some (encode_error why), l, remove_temp env temp_opened)
          | frame buf ↦ install env (temp_inode d) buf (length live) l temp_opened
        ])
    opened-Compacted (refused why) e = inl (record {
      log = moved l temp_opened (remove_temp env temp_opened) i rs refl opened_log;
      entry = opened_entry;
    })
    opened-Compacted (frame buf) e =
        install-Compacted env hdr live buf l temp_opened i (temp_inode d) rs e apart opened_new
          opened_entry opened_log

    -- From an open log of `rs` in the inode that the log's path names, and a temporary file that
    -- is another inode, Compact comes to one of three ends. It returns nil, and the path names a
    -- file of exactly the snapshot, which the log continues. It returns an error, and path, file and
    -- log are as they were. Or it returns an error with the path naming a file of exactly the
    -- snapshot, while the log is broken or still stands on the old file.
    pub compact-Compacted :
        Compacted i rs (temp_inode d) (snapshot hdr live) (compact codec env hdr live l d)
    unfolding compact
    compact-Compacted =
        simp (log.unbroken, compact_unbroken, log.handle, compact_open)
          (Compacted-if i (temp_inode d) rs (snapshot hdr live) env.open_temp_fails
            (some os_error, l, d) _ (inl (record { log = log; entry = named }))
            (opened-Compacted (build codec hdr live) refl))
