-- ===== src/Storage/Create.antt =====
-- Create and discard of internal/storage/log.go.
use queuemaxxing.Base.{
  ℕ, ◌+◌, ◌≡◌, refl, sym, ◌∙◌, ◌⊎◌, inl, inr, Bool, true, false, Bool-cases, Option, none, some,
  List, [], ◌∷◌, append-nil, take, Result, ok, err, if◌then◌else◌,
}
use queuemaxxing.Storage.Record.{
  Codec, Record, Header, header, encode_file_header, file_header_size,
}
use queuemaxxing.Storage.Record.Sequence.{no_frames}
use queuemaxxing.Storage.Disk.{
  Disk, write_at, set_inode, inode-set_inode, entry-set_inode, write_at-length,
}
use queuemaxxing.Storage.Log.{LogError, exists, os_error, Log, AppendEnv, Outcome, append}
use queuemaxxing.Storage.Log.Append.{IsLogOf, Appended, append-Appended}
use queuemaxxing.Storage.Log.Footprint.{append-entry}
use queuemaxxing.Storage.Recovery.{open_log}
use queuemaxxing.Storage.Recovery.Torn.{no_faults}
use queuemaxxing.Storage.Recovery.Durability.{Restored, collect, run_appends, acked_records_survive}

-- How the calls of one Create end: `laid` bytes of the file header are written where that write fails.
pub record CreateEnv : Type 0 where
  pub open_fails : Bool
  pub header_fails : Bool
  pub laid : ℕ
  pub append : AppendEnv
  pub sync_dir_fails : Bool
  pub remove_fails : Bool

abbrev pub CreateEnd : Type 0
CreateEnd = Result LogError Log × Disk

-- discard, and the error that Create then returns
unfoldable pub discard : CreateEnv → LogError → Disk → CreateEnd
discard env e d = (err e, if env.remove_fails then d else record d { entry = none })

-- the new file's directory entry, under O_CREATE and O_EXCL
unfoldable pub new_file : Disk → Disk
new_file d = record (set_inode d d.fresh []) { entry = some d.fresh; fresh = d.fresh + 1 }

unfoldable pub write_file_header : CreateEnv → ℕ → Disk → Disk
write_file_header env i d = set_inode d i (
    write_at (d.inode i) 0
      (if env.header_fails then take env.laid encode_file_header else encode_file_header))

abbrev pub first_log : ℕ → Log
first_log i = record { f = some i; size = file_header_size; records = 0; broken = none }

-- Create behind the Append of the header
abbrev pub create_appended : CreateEnv → Outcome → CreateEnd
create_appended env (some e, l, d) = discard env e d
create_appended env (none, l, d) = if env.sync_dir_fails then discard env os_error d else (ok l, d)

module _ (codec : Codec) where
  -- Create behind the opening of the file
  unfoldable pub create_opened : CreateEnv → Header → ℕ → Disk → CreateEnd
  create_opened env hdr i d =
      if env.header_fails
      then discard env os_error (write_file_header env i d)
      else create_appended env
          (append codec env.append (header hdr) (first_log i) (write_file_header env i d))

  unfoldable pub create_log : CreateEnv → Header → Disk → CreateEnd
  create_log env hdr d =
      if env.open_fails then (err os_error, d) else elim d.entry as (λ _. CreateEnd) [
        | some _ ↦ (err exists, d)
        | none ↦ create_opened env hdr d.fresh (new_file d)
      ]

  -- What Create may come to.
  abbrev pub Created : CreateEnv → Header → Disk → CreateEnd → Type 0
  Created env hdr d (ok l, d') =
      (i : ℕ) × (d'.entry ≡ some i) × IsLogOf codec l d' i (header hdr ∷ [])
  Created env hdr d (err e, d') =
      (d' ≡ d) ⊎ ((d.entry ≡ none) × ((d'.entry ≡ none) ⊎ (env.remove_fails ≡ true)))

  module _ (env : CreateEnv) (hdr : Header) (d : Disk) where
    abbrev started : Disk
    started = write_file_header env d.fresh (new_file d)

    started_contents : env.header_fails ≡ false → started.inode d.fresh ≡ encode_file_header
    unfolding write_file_header new_file
    started_contents fine =
        inode-set_inode (new_file d) d.fresh _
        ∙ (rw (inode-set_inode d d.fresh [], fine) (write_at-length [] encode_file_header 0 refl))

    started_entry : started.entry ≡ some d.fresh
    unfolding write_file_header new_file
    started_entry = entry-set_inode (new_file d) d.fresh _

    started-IsLogOf :
        env.header_fails ≡ false → IsLogOf codec (first_log d.fresh) started d.fresh []
    unfolding encode_file_header
    started-IsLogOf fine = record {
      handle = refl;
      unbroken = refl;
      bytes = [];
      framed = no_frames;
      contents = started_contents fine ∙ sym (append-nil encode_file_header);
      sized = rw (started_contents fine) refl;
      counted = refl;
    }

    branch-Created :
        (b : Bool) (x y : CreateEnd)
        → Created env hdr d x
        → (b ≡ false → Created env hdr d y)
        → Created env hdr d (if b then x else y)
    branch-Created true x y f g = f
    branch-Created false x y f g = g refl

    discard-Created :
        d.entry ≡ none → (e : LogError) (d' : Disk) → Created env hdr d (discard env e d')
    unfolding discard
    discard-Created free e d' = elim (Bool-cases env.remove_fails) [
      | inl stays ↦ inr (free, inr stays)
      | inr gone ↦ inr (free, inl (rw gone refl))
    ]

    create_appended-Created :
        (x : Outcome)
        → d.entry ≡ none
        → x.2.entry ≡ some d.fresh
        → Appended codec [] (header hdr) d.fresh x
        → Created env hdr d (create_appended env x)
    create_appended-Created (some e, l, d') free named a = discard-Created free e d'
    create_appended-Created (none, l, d') free named a =
        branch-Created env.sync_dir_fails (discard env os_error d') (ok l, d')
          (discard-Created free os_error d') (λ kept. (d.fresh, named, a))

    create_opened-Created :
        d.entry ≡ none → Created env hdr d (create_opened env hdr d.fresh (new_file d))
    unfolding create_opened
    create_opened-Created free =
        let run = append codec env.append (header hdr) (first_log d.fresh) started in
        branch-Created env.header_fails (discard env os_error started) (create_appended env run)
          (discard-Created free os_error started)
          (λ fine.
            create_appended-Created run free
              (append-entry codec env.append (header hdr) (first_log d.fresh) started
                ∙ started_entry)
              (append-Appended codec env.append (header hdr) (first_log d.fresh) started d.fresh []
                (started-IsLogOf fine)))

    -- Whatever fails, a Create that returns nil has put under the log's name a well-formed log of
    -- exactly the header. One that returns an error has changed nothing, or was on a free name, and
    -- then has left it free unless removing the file failed, too.
    pub create_log-Created : Created env hdr d (create_log env hdr d)
    unfolding create_log
    create_log-Created = elim (Bool-cases env.open_fails) [
      | inl shut ↦ rw shut (inl refl)
      | inr opens ↦ rw opens (on_entry d.entry refl)
    ]
      where
        on_entry :
            (o : Option ℕ)
            → d.entry ≡ o
            → Created env hdr d (elim o as (λ _. CreateEnd) [
              | some _ ↦ (err exists, d)
              | none ↦ create_opened env hdr d.fresh (new_file d)
            ])
        on_entry (some i) e = inl refl
        on_entry none e = create_opened-Created e

    -- From a Create that returned nil, let Appends follow one another with whatever failures. Then Open
    -- succeeds, and hands over the header and every record whose Append returned nil, in order, and
    -- behind them at most one record more.
    pub created_log_survives :
        (l : Log) (d' : Disk) (steps : List (AppendEnv × Record))
        → create_log env hdr d ≡ (ok l, d')
        → (i : ℕ) × Restored codec
            (run_appends codec steps l d').2
            i
            (header hdr ∷ (run_appends codec steps l d').0)
            (open_log codec collect no_faults (run_appends codec steps l d').2 [])
    created_log_survives l d' steps e =
        let (i, named, log) : Created env hdr d (ok l, d') = rw e at create_log-Created in
        (i, acked_records_survive codec steps l d' i hdr [] log named)
