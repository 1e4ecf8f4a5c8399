-- ===== src/Storage/Scanner/Progress.antt =====
-- Each frame that scanner.next of recovery.go reads takes bytes off the file.
use queuemaxxing.Base.{
  ℕ, ◌+◌, ◌<◌, ◌≤◌, ◌≡◌, Bool, true, false, List, length, length-drop, arith, leb, leb→le, ◌&&◌,
  Bool-cases, ◌==◌, not, if◌then◌else◌, inl, inr,
}
use queuemaxxing.Storage.Record.{Codec, RecordType, length_size, type_size, crc_size}
use queuemaxxing.Storage.Record.Bytes.{uint32}
use queuemaxxing.Storage.Scanner.{
  Reader, ReadFull, filled, at_end, cut_after, read_full, Reason, length_truncated, body_truncated,
  Scanner, Next, end_of_log, torn, corrupt, scanned, next, next_length, next_body, next_bad_length,
  damaged,
}

-- A frame that is read leaves fewer bytes than `m`.
pub data Shrinks (m : ℕ) : Next → Type 0 where
  smaller :
      {t : RecordType} {p : List ℕ} {s : Scanner} → length s.r.rest < m → Shrinks m (scanned t p s)
  over : Shrinks m end_of_log
  torn_off : {at : ℕ} {why : Reason} → Shrinks m (torn at why)
  corrupted : {at : ℕ} {why : Reason} → Shrinks m (corrupt at why)

abbrev pub Consumes : ℕ → ℕ → ReadFull → Type 0
Consumes n m (filled bytes r) = length r.rest + n ≡ m
Consumes n m at_end = Unit
Consumes n m (cut_after _) = Unit

pub read_full-Consumes : (n : ℕ) (r : Reader) → Consumes n (length r.rest) (read_full n r)
unfolding read_full
read_full-Consumes n r = elim (Bool-cases (leb n (length r.rest))) [
  | inl enough ↦ rw enough (omega (arith, length-drop n r.rest, leb→le n (length r.rest) enough))
  | inr short ↦ rw short (elim (Bool-cases (length r.rest == 0 && not r.fails)) [
    | inl e ↦ simp e tt
    | inr e ↦ simp e tt
  ])
]

Shrinks-if :
    (b : Bool) (m : ℕ) (x y : Next) → Shrinks m x → Shrinks m y → Shrinks m (if b then x else y)
Shrinks-if true m x y p q = p
Shrinks-if false m x y p q = q

module _ (codec : Codec) where
  damaged-Shrinks : (s : Scanner) (m n : ℕ) (why : Reason) → Shrinks m (damaged s n why)
  unfolding damaged
  damaged-Shrinks s m n why = search (Shrinks-if, torn_off, corrupted)

  read-Shrinks :
      (s : Scanner) (m : ℕ) (r : Reader) (t : RecordType) (p : List ℕ) (o : ℕ)
      → length r.rest < m
      → Shrinks m (scanned t p (record s { r = r; offset = o }))
  read-Shrinks s m r t p o h = smaller h

  next_body-Shrinks :
      (s : Scanner) (buf : List ℕ) (n m : ℕ) (rest : List ℕ) (r : Reader)
      → length r.rest < m
      → Shrinks m (next_body codec s buf n rest r)
  unfolding next_body
  next_body-Shrinks s buf n m rest r h = search (Shrinks-if, damaged-Shrinks, read-Shrinks)

  next_bad_length-Shrinks : (s : Scanner) (m n : ℕ) (r : Reader) → Shrinks m (next_bad_length s n r)
  unfolding next_bad_length
  next_bad_length-Shrinks s m n r = search (Shrinks-if, torn_off, corrupted)

  body_read-Shrinks :
      (s : Scanner) (buf : List ℕ) (n m : ℕ) (r : Reader) (x : ReadFull)
      → length r.rest ≤ m
      → Consumes (type_size + n + crc_size) (length r.rest) x
      → Shrinks m (elim x as (λ _. Next) [
        | filled rest r' ↦ next_body codec s buf n rest r'
        | at_end ↦ torn s.offset body_truncated
        | cut_after _ ↦ torn s.offset body_truncated
      ])
  body_read-Shrinks s buf n m r (filled rest r') h c =
      next_body-Shrinks s buf n m rest r' (omega arith)
  body_read-Shrinks s buf n m r at_end h c = torn_off
  body_read-Shrinks s buf n m r (cut_after _) h c = torn_off

  next_length-Shrinks :
      (s : Scanner) (buf : List ℕ) (m : ℕ) (r : Reader)
      → length r.rest ≤ m
      → Shrinks m (next_length codec s buf r)
  unfolding next_length
  next_length-Shrinks s buf m r h =
      let read = read_full-Consumes (type_size + uint32 buf + crc_size) r in
      let whole = body_read-Shrinks s buf (uint32 buf) m r _ h read in
      search (Shrinks-if, next_bad_length-Shrinks, torn_off, whole)

  prefix_read-Shrinks :
      (s : Scanner) (x : ReadFull)
      → Consumes length_size (length s.r.rest) x
      → Shrinks (length s.r.rest) (elim x as (λ _. Next) [
        | filled buf r ↦ next_length codec s buf r
        | at_end ↦ end_of_log
        | cut_after _ ↦ torn s.offset length_truncated
      ])
  prefix_read-Shrinks s (filled buf r) c = next_length-Shrinks s buf _ r (omega arith)
  prefix_read-Shrinks s at_end c = over
  prefix_read-Shrinks s (cut_after _) c = torn_off

  pub next-Shrinks : (s : Scanner) → Shrinks (length s.r.rest) (next codec s)
  unfolding next
  next-Shrinks s = prefix_read-Shrinks s _ (read_full-Consumes length_size s.r)
