-- ===== src/Storage/Recovery/Fuel.antt =====
-- The scan ends within the rounds that Open gives it.
use queuemaxxing.Base.{
  ℕ, zero, suc, ◌+◌, ◌<◌, ◌≤◌, ◌≡◌, ◌≢◌, refl, ap, Bool, true, false, Option, none, some, List,
  length, length-take_le, take, arith, ltb, ◌&&◌, Bool-cases, ◌==◌, ◌||◌, not, if◌then◌else◌,
  Result, ok, err, inl, inr,
}
use queuemaxxing.Storage.Record.{
  Codec, Record, HeaderError, RecordType, file_header_size, check_file_header, decode_payload,
  type_header,
}
use queuemaxxing.Storage.Disk.{Disk, set_inode, truncate_to}
use queuemaxxing.Storage.Scanner.{
  Reader, ReadFull, filled, at_end, cut_after, Scanner, Next, end_of_log, torn, corrupt, scanned,
  next,
}
use queuemaxxing.Storage.Recovery.{
  OpenEnv, OpenError, out_of_fuel, corrupt_log, bad_file_header, read_header_failed, os_failure,
  truncate_failed, incomplete, Scan, finished, torn_at, failed, wrap_apply, reader_of, visit, scan,
  Opened, opened, open_torn, open_scanned, open_header, open_inode, open_log,
}
use queuemaxxing.Storage.Scanner.Progress.{
  Shrinks, smaller, Consumes, read_full-Consumes, next-Shrinks,
}

module _ (codec : Codec) {E S : Type 0} (apply : Record → S → Result E S) where
  abbrev Visited : Type 0
  Visited = Result (OpenError E) S

  wrap_apply-fueled : (x : Result E S) → wrap_apply x ≢ err out_of_fuel
  wrap_apply-fueled (ok st) = λ h. cc
  wrap_apply-fueled (err e) = λ h. cc

  visit-fueled :
      (offset : ℕ) (t : RecordType) (p : List ℕ) (records : ℕ) (st : S) (o : Option Record)
      → decode_payload codec t p ≡ o
      → visit codec apply offset t p records st ≢ err out_of_fuel
  unfolding visit
  visit-fueled offset t p records st none e h = let h' = rw (e, visit) at h in cc
  visit-fueled offset t p records st (some r) e h =
      elim (Bool-cases (records == 0 && not (t == type_header))) [
        | inl bad ↦ let h' = rw (e, visit, bad) at h in cc
        | inr fine ↦ wrap_apply-fueled (apply r st) (rw (e, visit, fine) at h)
      ]

  visited-fueled :
      (fuel records : ℕ) (s' : Scanner) (v : Visited)
      → v ≢ err out_of_fuel
      → ((st' : S) → scan codec apply fuel s' (records + 1) st' ≢ failed out_of_fuel)
      → (elim v as (λ _. Scan E S) [
        | ok st' ↦ scan codec apply fuel s' (records + 1) st'
        | err e ↦ failed e
      ])
        ≢ failed out_of_fuel
  visited-fueled fuel records s' (ok st') ne rest = rest st'
  visited-fueled fuel records s' (err e) ne rest = λ q. ne (cc)

  -- With more rounds than bytes to read, the scan ends by itself.
  pub scan-fueled :
      (fuel : ℕ) (s : Scanner) (records : ℕ) (st : S)
      → length s.r.rest < fuel
      → scan codec apply fuel s records st ≢ failed out_of_fuel
  unfolding scan
  scan-fueled zero s records st h = absurd (omega arith)
  scan-fueled (suc fuel) s records st h =
      step (next codec s) (λ s' less st'. scan-fueled fuel s' (records + 1) st' (omega arith))
        (next-Shrinks codec s)
    where
      step :
          (x : Next)
          → ((s' : Scanner)
              → length s'.r.rest < length s.r.rest
              → (st' : S) → scan codec apply fuel s' (records + 1) st' ≢ failed out_of_fuel)
          → Shrinks (length s.r.rest) x
          → (elim x as (λ _. Scan E S) [
            | end_of_log ↦ finished records st
            | torn at _ ↦ torn_at at records st
            | corrupt at why ↦ failed (corrupt_log at why)
            | scanned t payload s' ↦
                elim (visit codec apply s.offset t payload records st) as (λ _. Scan E S) [
                  | ok st' ↦ scan codec apply fuel s' (records + 1) st'
                  | err e ↦ failed e
                ]
          ])
            ≢ failed out_of_fuel
      step end_of_log rest less = λ q. cc
      step (torn at _) rest less = λ q. cc
      step (corrupt at why) rest less = λ q. cc
      step (scanned t p s') rest (smaller less) =
          visited-fueled fuel records s' _ (visit-fueled s.offset t p records st _ refl)
            (rest s' less)

module _ (codec : Codec) {E S : Type 0} (apply : Record → S → Result E S) where
  abbrev Answers : Opened E S → Type 0
  Answers o = o.1 ≢ err out_of_fuel

  Answers-if : (b : Bool) (x y : Opened E S) → Answers x → Answers y → Answers (if b then x else y)
  Answers-if true x y p q = p
  Answers-if false x y p q = q

  opened-Answers :
      (d : Disk) (i size records : ℕ) (st : S) → Answers (opened {E = E} d i size records st)
  unfolding opened
  opened-Answers d i size records st = ground arith

  open_torn-Answers :
      (env : OpenEnv) (d : Disk) (i at records : ℕ) (st : S)
      → Answers (open_torn {E = E} env d i at records st)
  unfolding open_torn
  open_torn-Answers env d i at records st =
      Answers-if env.truncate_fails (d, err truncate_failed) _ (λ q. cc)
        (Answers-if (env.sync_fails || env.sync_dir_fails)
          (set_inode d i (truncate_to (d.inode i) at), err truncate_failed) _ (λ q. cc)
          (opened-Answers _ i at records st))

  open_scanned-Answers :
      (env : OpenEnv) (d : Disk) (i : ℕ) (x : Scan E S)
      → x ≢ failed out_of_fuel
      → Answers (open_scanned env d i x)
  unfolding open_scanned
  open_scanned-Answers env d i (finished records st) ne = opened-Answers d i _ records st
  open_scanned-Answers env d i (torn_at at records st) ne = open_torn-Answers env d i at records st
  open_scanned-Answers env d i (failed e) ne = λ q. ne (ap failed (cc))

  header_checked-Answers :
      (env : OpenEnv) (d : Disk) (i : ℕ) (st : S) (r : Reader) (o : Option HeaderError)
      → length r.rest ≤ length (d.inode i)
      → Answers (elim o as (λ _. Opened E S) [
        | some e ↦ (d, err (bad_file_header e))
        | none ↦ open_scanned env d i (
            scan codec apply
              (length (d.inode i) + 1)
              (record { r = r; offset = file_header_size; size = length (d.inode i) })
              0
              st)
      ])
  header_checked-Answers env d i st r (some e) h = λ q. cc
  header_checked-Answers env d i st r none h = open_scanned-Answers env d i _ (
      scan-fueled codec apply _
        (record { r = r; offset = file_header_size; size = length (d.inode i) }) 0 st (omega arith))

  header_read-Answers :
      (env : OpenEnv) (d : Disk) (i m : ℕ) (st : S) (x : ReadFull)
      → Consumes file_header_size m x
      → m ≤ length (d.inode i)
      → Answers (elim x as (λ _. Opened E S) [
        | filled hdr r ↦ open_header codec apply env d i st hdr r
        | at_end ↦ (d, err read_header_failed)
        | cut_after _ ↦ (d, err read_header_failed)
      ])
  unfolding open_header
  header_read-Answers env d i m st (filled hdr r) c h =
      header_checked-Answers env d i st r (check_file_header hdr) (omega arith)
  header_read-Answers env d i m st at_end c h = λ q. cc
  header_read-Answers env d i m st (cut_after _) c h = λ q. cc

  length-reader_of :
      (env : OpenEnv) (contents : List ℕ) → length (reader_of env contents).rest ≤ length contents
  unfolding reader_of
  length-reader_of env contents = reads (env.delivers)
    where
      reads :
          (o : Option ℕ)
          → length
              (elim o as (λ _. Reader) [
                | none ↦ record { rest = contents; fails = false }
                | some n ↦ record { rest = take n contents; fails = true }
              ]).rest
            ≤ length contents
      reads none = omega arith
      reads (some n) = length-take_le n contents

  open_inode-Answers :
      (env : OpenEnv) (d : Disk) (i : ℕ) (st : S) → Answers (open_inode codec apply env d i st)
  unfolding open_inode
  open_inode-Answers env d i st =
      Answers-if env.stat_fails (d, err os_failure) _ (λ q. cc)
        (Answers-if (ltb (length (d.inode i)) file_header_size)
          (d, err (incomplete (length (d.inode i)))) _ (λ q. cc)
          (header_read-Answers env d i _ st _
            (read_full-Consumes file_header_size (reader_of env (d.inode i)))
            (length-reader_of env (d.inode i))))

  -- Open always comes to an answer of the program, whatever the file holds and whatever fails.
  pub open-ne-out_of_fuel :
      (env : OpenEnv) (d : Disk) (st : S) → (open_log codec apply env d st).1 ≢ err out_of_fuel
  unfolding open_log
  open-ne-out_of_fuel env d st = named d.entry
    where
      named :
          (o : Option ℕ)
          → Answers (elim o as (λ _. Opened E S) [
            | none ↦ (d, err os_failure)
            | some i ↦
                if env.open_fails then (d, err os_failure) else open_inode codec apply env d i st
          ])
      named none = λ q. cc
      named (some i) =
          Answers-if env.open_fails (d, err os_failure) _ (λ q. cc) (open_inode-Answers env d i st)
