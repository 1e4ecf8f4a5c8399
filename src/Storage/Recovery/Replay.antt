-- ===== src/Storage/Recovery/Replay.antt =====
-- Open on a file of whole frames, with a torn tail or none.
use queuemaxxing.Base.{
  ℕ, suc, ◌+◌, ◌<◌, ◌≤◌, ◌≡◌, refl, ap, ◌∙◌, Bool, false, List, [], ◌∷◌, ◌++◌, map, append_assoc,
  length, length-append, arith, ◌==◌, Result, ok, err,
}
use mathlib.Core.Path.{ap₂}
use queuemaxxing.Storage.Record.{Codec, Record, RecordType, Header, header, record_type}
use queuemaxxing.Storage.Record.Frame.{
  IsFrameOf, frame-inv, length-frame, valid-record_type, decode_payload-marshal,
}
use queuemaxxing.Storage.Record.Sequence.{Framed, no_frames, next_frame}
use queuemaxxing.Storage.Scanner.{Scanner, scanned, next}
use queuemaxxing.Storage.Scanner.Frames.{next-lay_out}
use queuemaxxing.Storage.Scanner.Tail.{scanner_on}
use queuemaxxing.Storage.Recovery.{visit, scan}

module _ {E S : Type 0} (apply : Record → S → Result E S) where
  -- The callback, on one record after another.
  unfoldable pub apply_all : List Record → S → Result E S
  apply_all [] st = ok st
  apply_all (r ∷ rs) st = elim (apply r st) [ ok st' ↦ apply_all rs st' | err e ↦ err e ]

  then_apply_all :
      (x : Result E S) (rs : List Record) (st' : S)
      → (elim x as (λ _. Result E S) [ ok mid ↦ apply_all rs mid | err e ↦ err e ]) ≡ ok st'
      → (mid : S) × (x ≡ ok mid) × (apply_all rs mid ≡ ok st')
  then_apply_all (ok mid) rs st' h = (mid, refl, h)
  then_apply_all (err e) rs st' h = cc

  pub apply_all-cons :
      (r : Record) (rs : List Record) (st st' : S)
      → apply_all (r ∷ rs) st ≡ ok st'
      → (mid : S) × (apply r st ≡ ok mid) × (apply_all rs mid ≡ ok st')
  unfolding apply_all
  apply_all-cons r rs st st' h = then_apply_all (apply r st) rs st' h

  pub apply_all-concat :
      (rs : List Record) (r : Record) (st mid st' : S)
      → apply_all rs st ≡ ok mid
      → apply r mid ≡ ok st'
      → apply_all (rs ++ r ∷ []) st ≡ ok st'
  unfolding apply_all
  apply_all-concat [] r st mid st' h one = let e : st ≡ mid = cc in rw (e, one, apply_all)
  apply_all-concat (s ∷ rs) r st mid st' h one =
      let (next, first, rest) = apply_all-cons s rs st mid h in
      rw (first, apply_all) (apply_all-concat rs r next mid st' rest one)

  pub apply_all-nil : (st st' : S) → apply_all [] st ≡ ok st' → st ≡ st'
  unfolding apply_all
  apply_all-nil st st' h = cc

-- one more round for each record
abbrev pub rounds : List Record → ℕ → ℕ
rounds [] k = k
rounds (r ∷ rs) k = suc (rounds rs k)

pub rounds-eq : (rs : List Record) (k : ℕ) → rounds rs k ≡ length rs + k
rounds-eq [] k = omega arith
rounds-eq (r ∷ rs) k = omega (arith, rounds-eq rs k)

module _ (codec : Codec) {E S : Type 0} (apply : Record → S → Result E S) where
  visit-frame :
      (r : Record) (p f : List ℕ) (offset records : ℕ) (st st' : S)
      → IsFrameOf codec r p f
      → (0 < records)
      → apply (codec.stored r) st ≡ ok st'
      → visit codec apply offset (record_type r) p records st ≡ ok st'
  unfolding visit
  visit-frame r p f offset records st st' framed later h =
      rw (decode_payload-marshal codec r p framed.marshalled, visit, ne, h)
    where
      ne : (records == 0) ≡ false
      ne = ground arith

  pub visit-header :
      (x : Header) (p f : List ℕ) (offset : ℕ) (st st' : S)
      → IsFrameOf codec (header x) p f
      → apply (codec.stored (header x)) st ≡ ok st'
      → visit codec apply offset (record_type (header x)) p 0 st ≡ ok st'
  unfolding visit
  visit-header x p f offset st st' framed h =
      rw (decode_payload-marshal codec (header x) p framed.marshalled, visit, h)

module _ (codec : Codec) {E S : Type 0} (apply : Record → S → Result E S) (fails : Bool) where
  pub next-frame :
      (r : Record) (p f rest : List ℕ) (offset size : ℕ)
      → IsFrameOf codec r p f
      → offset + length f ≤ size
      → next codec (scanner_on fails (f ++ rest) offset size)
        ≡ scanned (record_type r) p (scanner_on fails rest (offset + length f) size)
  next-frame r p f rest offset size framed fits =
      rw (length-frame codec r p f framed, framed.laid_out)
        (next-lay_out codec (record_type r) p framed.bounded rest fails offset size
          (valid-record_type codec r) framed.nonempty
          (omega (arith, length-frame codec r p f framed)))

  pub scan-scanned :
      (t : RecordType) (p : List ℕ) (k records : ℕ) (s s' : Scanner) (st st' : S)
      → next codec s ≡ scanned t p s'
      → visit codec apply s.offset t p records st ≡ ok st'
      → scan codec apply (suc k) s records st ≡ scan codec apply k s' (records + 1) st'
  unfolding scan
  scan-scanned t p k records s s' st st' e v = rw (e, scan, v)

  -- Whole frames behind the first record are all applied, in order, and counted.
  pub scan-Framed :
      {rs : List Record} {bytes : List ℕ} (tail : List ℕ) (k offset size records : ℕ) (st st' : S)
      → Framed codec rs bytes
      → offset + length bytes ≤ size
      → 0 < records
      → apply_all apply (map codec.stored rs) st ≡ ok st'
      → scan codec apply (rounds rs k) (scanner_on fails (bytes ++ tail) offset size) records st
        ≡ scan codec apply k
            (scanner_on fails tail (offset + length bytes) size)
            (records + length rs)
            st'
  scan-Framed tail k offset size records st st' no_frames fits later run =
      rw (apply_all-nil apply st st' run, no_bytes, no_records)
    where
      no_bytes : offset + 0 ≡ offset
      no_bytes = omega arith

      no_records : records + 0 ≡ records
      no_records = omega arith
  scan-Framed tail k offset size records st st'
        (next_frame {r = r} {rs = rs} {f = f} {bytes = b} e q) fits later run =
      let (p, framed) = frame-inv codec r f e in
      let (mid, one, others) =
        apply_all-cons apply (codec.stored r) (map codec.stored rs) st st' run in
      let room : offset + length f + length b ≤ size = omega (arith, length-append f b) in
      ap (λ x. scan codec apply (suc (rounds rs k)) (scanner_on fails x offset size) records st)
        (append_assoc f b tail)
      ∙ scan-scanned (record_type r) p (rounds rs k) records _ _ st mid
          (next-frame r p f (b ++ tail) offset size framed (omega arith))
          (visit-frame codec apply r p f offset records st mid framed later one)
      ∙ scan-Framed tail k (offset + length f) size (records + 1) mid st' q room (omega arith)
          others
      ∙ ap₂ (λ o n. scan codec apply k (scanner_on fails tail o size) n st')
          (omega (arith, length-append f b)) (omega arith)
