-- ===== src/Storage/Recovery/Durability.antt =====
-- What Open brings back after any run of Appends, whatever failed on the way.
use queuemaxxing.Base.{
  ℕ, ◌+◌, ◌<◌, ◌≤◌, ◌≡◌, refl, sym, ap, ◌∙◌, ◌⊎◌, inl, inr, Option, none, some, List, [], ◌∷◌, ◌++◌,
  map, append_assoc, append-nil, length, length-take, take, take-all, arith, ltb, Bool-cases,
  Result, ok,
}
use queuemaxxing.Storage.Record.{
  Codec, Record, Header, header, record_type, encode_frame, frame, encode_file_header,
}
use queuemaxxing.Storage.Record.Frame.{frame-inv}
use queuemaxxing.Storage.Record.Sequence.{Framed, Framed-concat}
use queuemaxxing.Storage.Disk.{Disk}
use queuemaxxing.Storage.Log.{LogError, log_broken, Log, AppendEnv, Outcome, append}
use queuemaxxing.Storage.Log.Append.{
  IsLogOf, IsBrokenLogOf, Appended, append-Appended, append-broken,
}
use queuemaxxing.Storage.Log.Footprint.{append-entry}
use queuemaxxing.Storage.Scanner.Tail.{next-take-lay_out, next-zeros}
use queuemaxxing.Storage.Recovery.{Opened, open_log}
use queuemaxxing.Storage.Recovery.Replay.{apply_all}
use queuemaxxing.Storage.Recovery.Torn.{no_faults, IsTorn, Recovered, open-Recovered}

-- the record, if its Append returned nil
abbrev pub acked_by : Record → Option LogError → List Record
acked_by r none = r ∷ []
acked_by r (some e) = []

-- A callback that keeps every record that Open hands it.
unfoldable pub collect : Record → List Record → Result (Unit {0}) (List Record)
collect r seen = ok (seen ++ r ∷ [])

pub apply_all-collect : (rs seen : List Record) → apply_all collect rs seen ≡ ok (seen ++ rs)
unfolding apply_all collect
apply_all-collect [] seen = ap ok (sym (append-nil seen))
apply_all-collect (r ∷ rs) seen =
    apply_all-collect rs (seen ++ r ∷ []) ∙ ap ok (append_assoc seen (r ∷ []) rs)

module _ (codec : Codec) where
  -- One Append after another; the records whose Append returned nil, and the log and disk at the end.
  pub run_appends : List (AppendEnv × Record) → Log → Disk → List Record × Log × Disk
  run_appends [] l d = ([], l, d)
  run_appends ((env, r) ∷ rest) l d =
      let o = append codec env r l d in
      let (acked, l', d') = run_appends rest o.1 o.2 in (acked_by r o.0 ++ acked, l', d')

  abbrev pub IsDurable : Log → Disk → ℕ → List Record → Type 0
  IsDurable l d i rs = IsLogOf codec l d i rs ⊎ IsBrokenLogOf codec l d i rs

  Appended-IsDurable :
      (rs : List Record) (r : Record) (i : ℕ) (o : Outcome)
      → Appended codec rs r i o
      → IsDurable o.1 o.2 i (rs ++ acked_by r o.0)
  Appended-IsDurable rs r i (none, l, d) h = inl h
  Appended-IsDurable rs r i (some e, l, d) (inl h) = inl (rw (append-nil rs) h)
  Appended-IsDurable rs r i (some e, l, d) (inr (_, h)) = inr (rw (append-nil rs) h)

  append-IsDurable :
      (env : AppendEnv) (r : Record) (l : Log) (d : Disk) (i : ℕ) (rs : List Record)
      → IsDurable l d i rs
      → IsDurable
          (append codec env r l d).1
          (append codec env r l d).2
          i
          (rs ++ acked_by r (append codec env r l d).0)
  append-IsDurable env r l d i rs (inl log) =
      Appended-IsDurable rs r i _ (append-Appended codec env r l d i rs log)
  append-IsDurable env r l d i rs (inr log) =
      rw (append-broken codec env r l d log_broken log.broken, append-nil rs) (inr log)

  run_appends-IsDurable :
      (steps : List (AppendEnv × Record)) (l : Log) (d : Disk) (i : ℕ) (rs : List Record)
      → IsDurable l d i rs
      → IsDurable
          (run_appends steps l d).1
          (run_appends steps l d).2
          i
          (rs ++ (run_appends steps l d).0)
  unfolding run_appends
  run_appends-IsDurable [] l d i rs h = rw (append-nil rs) h
  run_appends-IsDurable ((env, r) ∷ rest) l d i rs h =
      let o = append codec env r l d in
      rw (append_assoc rs (acked_by r o.0) (run_appends rest o.1 o.2).0) at
        (run_appends-IsDurable rest o.1 o.2 i _ (append-IsDurable env r l d i rs h))

  run_appends-entry :
      (steps : List (AppendEnv × Record)) (l : Log) (d : Disk)
      → (run_appends steps l d).2.entry ≡ d.entry
  unfolding run_appends
  run_appends-entry [] l d = refl
  run_appends-entry ((env, r) ∷ rest) l d =
      let o = append codec env r l d in
      run_appends-entry rest o.1 o.2 ∙ append-entry codec env r l d

  take-frame-IsTorn :
      (r : Record) (f : List ℕ) (n : ℕ)
      → encode_frame codec r ≡ frame f
      → n < length f
      → IsTorn codec (take n f)
  take-frame-IsTorn r f n e short offset =
      let (p, framed) = frame-inv codec r f e in
      rw (length-take n f (omega arith), framed.laid_out)
        (next-take-lay_out codec (record_type r) p framed.nonempty framed.bounded n offset
          (rw framed.laid_out at short))

  pub nil-IsTorn : IsTorn codec []
  nil-IsTorn offset = next-zeros codec 0 offset (offset + 0)

  -- What Open is to bring back: the log of `acked`, and at most one record more.
  abbrev pub Restored : Disk → ℕ → List Record → Opened (Unit {0}) (List Record) → Type 0
  Restored d i acked o =
      (extra : List Record) × (bytes : List ℕ) × (length extra ≤ 1)
      × Framed codec (acked ++ extra) bytes
      × Recovered codec collect d i (acked ++ extra) bytes (map codec.stored (acked ++ extra)) o

  Restored-with :
      (d : Disk) (i : ℕ) (x : Header) (rs extra : List Record) (bytes tail : List ℕ)
      → d.entry ≡ some i
      → length extra ≤ 1
      → Framed codec (header x ∷ (rs ++ extra)) bytes
      → d.inode i ≡ encode_file_header ++ (bytes ++ tail)
      → IsTorn codec tail
      → Restored d i (header x ∷ rs) (open_log codec collect no_faults d [])
  Restored-with d i x rs extra bytes tail named few framed contents torn_tail = (
    extra,
    bytes,
    few,
    framed,
    open-Recovered codec collect d i x (rs ++ extra) bytes tail [] _ contents framed torn_tail
        (apply_all-collect (map codec.stored (header x ∷ (rs ++ extra))) []) named,
  )

  log-Restored :
      (l : Log) (d : Disk) (i : ℕ) (x : Header) (rs : List Record)
      → d.entry ≡ some i
      → IsDurable l d i (header x ∷ rs)
      → Restored d i (header x ∷ rs) (open_log codec collect no_faults d [])
  log-Restored l d i x rs named (inl log) =
      Restored-with d i x rs [] log.bytes [] named (omega arith) (rw (append-nil rs) log.framed)
        (rw (append-nil log.bytes) log.contents) nil-IsTorn
  log-Restored l d i x rs named (inr log) =
      elim (Bool-cases (ltb log.laid (length log.last_frame))) [
        | inl short ↦
            Restored-with d i x rs [] log.bytes (take log.laid log.last_frame) named (omega arith)
              (rw (append-nil rs) log.framed) log.contents
              (take-frame-IsTorn log.last log.last_frame log.laid log.encoded (ground arith))
        | inr whole ↦
            let all : length log.last_frame ≤ log.laid = ground arith in
            Restored-with d i x rs (log.last ∷ []) (log.bytes ++ log.last_frame) [] named
              (omega arith) (Framed-concat codec log.last log.framed log.encoded)
              (rw (append-nil (log.bytes ++ log.last_frame))
                (rw (take-all log.laid log.last_frame all) at log.contents))
              nil-IsTorn
      ]

  -- From an open log of `header x ∷ rs`, let Appends follow one another, each with whatever write,
  -- sync and rollback failures. Then Open, with no failure of its own, succeeds, and hands over
  -- every record that was there and every record whose Append returned nil, in order, and behind
  -- them at most one record more; what the file holds then are exactly the frames of those.
  pub acked_records_survive :
      (steps : List (AppendEnv × Record)) (l : Log) (d : Disk) (i : ℕ) (x : Header)
      (rs : List Record)
      → IsLogOf codec l d i (header x ∷ rs)
      → d.entry ≡ some i
      → Restored
          (run_appends steps l d).2
          i
          (header x ∷ (rs ++ (run_appends steps l d).0))
          (open_log codec collect no_faults (run_appends steps l d).2 [])
  acked_records_survive steps l d i x rs log named =
      log-Restored _ (run_appends steps l d).2 i x (rs ++ (run_appends steps l d).0)
        (run_appends-entry steps l d ∙ named)
        (run_appends-IsDurable steps l d i (header x ∷ rs) (inl log))
