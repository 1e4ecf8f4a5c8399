-- ===== src/Storage/Scanner/Tail.antt =====
-- The scanner where the file ends: a frame that was cut short, zero fill, and a frame whose
-- checksum does not match.
use queuemaxxing.Base.{
  ℕ, zero, suc, ◌+◌, ◌<◌, ◌≤◌, ◌≡◌, ◌≢◌, refl, ◌∙◌, ◌⊎◌, inl, inr, Bool, true, false, List, [], ◌∷◌,
  ◌++◌, length, take, drop, replicate, arith, ◌==◌, le→ltb, lt→ltb, ne→==, if◌then◌else◌,
}
use queuemaxxing.Storage.Record.{
  Codec, RecordType, frame_overhead, max_record_size, lay_out, length_size, type_size, crc_size,
}
use queuemaxxing.Storage.Record.Bytes.{uint32}
use queuemaxxing.Storage.Record.Frame.{length-lay_out}
use queuemaxxing.Storage.Scanner.{
  Reader, read_full, Reason, length_truncated, past_end, zero_fill, checksum_mismatch, Scanner,
  Next, end_of_log, torn, corrupt, next, next_length, next_bad_length, rest_is_zero, all_zero,
  next_body, damaged,
}
use queuemaxxing.Storage.Scanner.Frames.{
  next-filled, read_full-append, next_length-filled, len_buf, length_read,
}

abbrev pub scanner_on : Bool → List ℕ → ℕ → ℕ → Scanner
scanner_on fails rest offset size = record {
  r = record { rest = rest; fails = fails };
  offset = offset;
  size = size;
}

abbrev pub scanner_at : List ℕ → ℕ → ℕ → Scanner
scanner_at = scanner_on false

-- the scan ends here, by the end of the file or by a torn tail
abbrev pub EndsAt : List ℕ → ℕ → Next → Type 0
EndsAt bs offset x = ((x ≡ end_of_log) × (bs ≡ [])) ⊎ ((why : Reason) × (x ≡ torn offset why))

module _ (codec : Codec) where
  -- fewer than four bytes before the end of the file
  few_bytes :
      (bs : List ℕ) (offset size : ℕ)
      → length bs < 4
      → EndsAt bs offset (next codec (scanner_at bs offset size))
  unfolding next read_full
  few_bytes [] offset size h = inl (refl, refl)
  few_bytes (a ∷ []) offset size h = inr (length_truncated, refl)
  few_bytes (a ∷ b ∷ []) offset size h = inr (length_truncated, refl)
  few_bytes (a ∷ b ∷ c ∷ []) offset size h = inr (length_truncated, refl)
  few_bytes (a ∷ b ∷ c ∷ d ∷ bs) offset size h = absurd (omega arith)

  next_length-past_end :
      (s : Scanner) (buf : List ℕ) (n : ℕ) (r : Reader)
      → uint32 buf ≡ n
      → 0 < n
      → n ≤ max_record_size
      → s.size < s.offset + (frame_overhead + n)
      → next_length codec s buf r ≡ torn s.offset (past_end (frame_overhead + n))
  unfolding next_length
  next_length-past_end s buf n r e pos small over =
      rw (e, le→ltb n 1 pos, le→ltb max_record_size n small, lt→ltb _ _ over)

  module _ (t : RecordType) (p : List ℕ) (pos : 0 < length p)
      (small : length p ≤ max_record_size) where
    -- A frame cut off by the end of the file ends the scan at the frame's start.
    pub next-take-lay_out :
        (n offset : ℕ)
        → n < length (lay_out codec t p)
        → EndsAt
            (take n (lay_out codec t p))
            offset
            (next codec (scanner_at (take n (lay_out codec t p)) offset (offset + n)))
    next-take-lay_out zero offset h = few_bytes [] offset (offset + 0) (omega arith)
    next-take-lay_out (suc zero) offset h = few_bytes _ offset (offset + 1) (omega arith)
    next-take-lay_out (suc (suc zero)) offset h = few_bytes _ offset (offset + 2) (omega arith)
    next-take-lay_out (suc (suc (suc zero))) offset h =
        few_bytes _ offset (offset + 3) (omega arith)
    next-take-lay_out (suc (suc (suc (suc n)))) offset h = inr (
      past_end (frame_overhead + length p),
      next-filled codec (len_buf codec t p small) (take n (t ∷ p ++ _)) false offset _ refl
          ∙ next_length-past_end _ (len_buf codec t p small) (length p) _
              (length_read codec t p small) pos small (omega (arith, length-lay_out codec t p)),
    )

  all_zero-replicate : (n : ℕ) → all_zero (replicate n 0) ≡ true
  unfolding all_zero
  all_zero-replicate zero = refl
  all_zero-replicate (suc n) = all_zero-replicate n

  -- Zeros up to the end of the file end the scan, however many there are.
  pub next-zeros :
      (n offset size : ℕ)
      → EndsAt (replicate n 0) offset (next codec (scanner_at (replicate n 0) offset size))
  unfolding next_length next_bad_length rest_is_zero
  next-zeros zero offset size = few_bytes [] offset size (omega arith)
  next-zeros (suc zero) offset size = few_bytes _ offset size (omega arith)
  next-zeros (suc (suc zero)) offset size = few_bytes _ offset size (omega arith)
  next-zeros (suc (suc (suc zero))) offset size = few_bytes _ offset size (omega arith)
  next-zeros (suc (suc (suc (suc n)))) offset size = inr (
    zero_fill,
    next-filled codec (0 ∷ 0 ∷ 0 ∷ 0 ∷ []) (replicate n 0) false offset size refl
        ∙ rw (all_zero-replicate n),
  )

  module _ (buf rest : List ℕ) (n : ℕ) (four : length_size ≡ length buf)
      (whole : type_size + n + crc_size ≡ length rest) (len : uint32 buf ≡ n) (pos : 0 < n)
      (small : n ≤ max_record_size)
      (mismatch : codec.update (codec.update 0 buf) (take (type_size + n) rest)
        ≢ uint32 (drop (type_size + n) rest)) where
    abbrev pub why_mismatch : Reason
    why_mismatch =
        checksum_mismatch (codec.update (codec.update 0 buf) (take (type_size + n) rest))
          (uint32 (drop (type_size + n) rest))

    next_body-mismatch :
        (s : Scanner) (r : Reader)
        → next_body codec s buf n rest r ≡ damaged s (frame_overhead + n) why_mismatch
    unfolding next_body
    next_body-mismatch s r = rw (ne→== _ _ mismatch)

    damaged-more :
        (rest' more : List ℕ) (offset : ℕ) (why : Reason)
        → damaged
            (scanner_at rest' offset (offset + (frame_overhead + n) + length more))
            (frame_overhead + n)
            why
          ≡ (if length more == 0 then torn offset why else corrupt offset why)
    unfolding damaged
    damaged-more rest' more offset why = ground arith

    -- A whole frame with the wrong checksum is a torn tail where the file ends with it, and
    -- corruption where any byte follows.
    pub next-mismatch :
        (more : List ℕ) (offset : ℕ)
        → next codec (
            scanner_at (buf ++ (rest ++ more)) offset (offset + (frame_overhead + n) + length more))
          ≡ (if length more == 0 then torn offset why_mismatch else corrupt offset why_mismatch)
    next-mismatch more offset =
        next-filled codec buf (rest ++ more) false offset _ four
        ∙ next_length-filled codec _ buf n _ _ rest len pos small (omega arith)
            (read_full-append _ rest more false whole)
        ∙ next_body-mismatch _ _
        ∙ damaged-more _ more offset why_mismatch
