-- ===== src/Storage/Scanner.antt =====
-- internal/storage/recovery.go: the scanner, which reads frames in sequence and classifies damage.
pub mod Frames
pub mod Tail
pub mod Progress
use queuemaxxing.Base.{
  ℕ, zero, suc, ◌+◌, ◌-◌, ◌*◌, Bool, true, false, not, ◌&&◌, ◌||◌, Option, none, some, List, [],
  ◌∷◌, length, take, drop, ltb, leb, ◌==◌, if◌then◌else◌,
}
use queuemaxxing.Storage.Record.{
  Codec, RecordType, valid, length_size, type_size, crc_size, frame_overhead, max_record_size,
}
use queuemaxxing.Storage.Record.Bytes.{uint32}

-- The bytes that a reader will still deliver, and whether an I/O error follows them in place of EOF.
pub record Reader : Type 0 where
  pub rest : List ℕ
  pub fails : Bool

-- io.ReadFull of `n` bytes: all of them and the reader behind them; io.EOF where there is no byte;
-- any other error, with the number of bytes read.
pub data ReadFull : Type 0 where
  filled : List ℕ → Reader → ReadFull
  at_end : ReadFull
  cut_after : ℕ → ReadFull

unfoldable pub read_full : ℕ → Reader → ReadFull
read_full n r =
    if leb n (length r.rest)
    then filled (take n r.rest) (record r { rest = drop n r.rest })
    else if length r.rest == 0 && not r.fails
    then at_end
    else cut_after (length r.rest)

-- The reason texts of tornTail and CorruptError, with their numbers.
pub data Reason : Type 0 where
  length_truncated zero_fill body_truncated : Reason
  short_remainder length_range past_end : ℕ → Reason
  checksum_mismatch : ℕ → ℕ → Reason
  bad_type not_header undecodable : RecordType → Reason

pub record Scanner : Type 0 where
  pub r : Reader
  pub offset : ℕ
  pub size : ℕ

-- What scanner.next returns: io.EOF, *tornTail, *CorruptError, or a frame's type and payload.
pub data Next : Type 0 where
  end_of_log : Next
  torn corrupt : ℕ → Reason → Next
  scanned : RecordType → List ℕ → Scanner → Next

all_zero : List ℕ → Bool
all_zero [] = true
all_zero (b ∷ bs) = b == 0 && all_zero bs

unfoldable pub rest_is_zero : Reader → Bool
unfolding all_zero
rest_is_zero r = all_zero r.rest && not r.fails

-- a length outside [1, MaxRecordSize]
unfoldable pub next_bad_length : Scanner → ℕ → Reader → Next
next_bad_length s payload_len r =
    let remaining = s.size - s.offset in
    if payload_len == 0 && rest_is_zero r
    then torn s.offset zero_fill
    else if ltb remaining (frame_overhead + 1)
    then torn s.offset (short_remainder payload_len)
    else corrupt s.offset (length_range payload_len)

-- damage in a complete frame is a torn tail only if nothing follows the frame
unfoldable pub damaged : Scanner → ℕ → Reason → Next
damaged s frame_size reason =
    if s.offset + frame_size == s.size then torn s.offset reason else corrupt s.offset reason

abbrev pub head_or_zero : List ℕ → ℕ
head_or_zero [] = 0
head_or_zero (b ∷ _) = b

module _ (codec : Codec) where
  unfoldable pub next_body : Scanner → List ℕ → ℕ → List ℕ → Reader → Next
  next_body s len_buf payload_len rest r =
      let frame_size = frame_overhead + payload_len in
      let rec_type = head_or_zero rest in
      let payload = take payload_len (drop type_size rest) in
      let want = uint32 (drop (type_size + payload_len) rest) in
      let crc = codec.update (codec.update 0 len_buf) (take (type_size + payload_len) rest) in
      if not (crc == want)
      then damaged s frame_size (checksum_mismatch crc want)
      else if not (valid rec_type)
      then damaged s frame_size (bad_type rec_type)
      else scanned rec_type payload (record s { r = r; offset = s.offset + frame_size })

  unfoldable pub next_length : Scanner → List ℕ → Reader → Next
  next_length s len_buf r =
      let payload_len = uint32 len_buf in
      if ltb payload_len 1 || ltb max_record_size payload_len
      then next_bad_length s payload_len r
      else if ltb s.size (s.offset + (frame_overhead + payload_len))
      then torn s.offset (past_end (frame_overhead + payload_len))
      else elim (read_full (type_size + payload_len + crc_size) r) [
        | filled rest r' ↦ next_body s len_buf payload_len rest r'
        | at_end ↦ torn s.offset body_truncated
        | cut_after _ ↦ torn s.offset body_truncated
      ]

  unfoldable pub next : Scanner → Next
  next s = elim (read_full length_size s.r) [
    | filled len_buf r ↦ next_length s len_buf r
    | at_end ↦ end_of_log
    | cut_after _ ↦ torn s.offset length_truncated
  ]
