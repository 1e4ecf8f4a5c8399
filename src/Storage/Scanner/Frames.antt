-- ===== src/Storage/Scanner/Frames.antt =====
-- The scanner on a frame that encodeFrame laid out.
use queuemaxxing.Base.{
  ℕ, ◌+◌, ◌<◌, ◌≤◌, ◌≡◌, refl, sym, ap, ◌∙◌, Bool, true, List, ◌∷◌, ◌++◌, append_assoc, length,
  length-append, take, drop, take-append_length, drop-append_length, arith, ==_refl, le→leb, le→ltb,
}
use queuemaxxing.Storage.Record.{
  Codec, RecordType, valid, frame_overhead, max_record_size, lay_out, unsealed, length_size,
  type_size, crc_size,
}
use queuemaxxing.Storage.Record.Bytes.{put_uint32, uint32, uint32-put_uint32}
use queuemaxxing.Storage.Scanner.{
  Reader, filled, read_full, Scanner, scanned, next, next_length, next_body,
}

pub read_full-append :
    (n : ℕ) (a b : List ℕ) (fails : Bool)
    → n ≡ length a
    → read_full n (record { rest = a ++ b; fails = fails })
      ≡ filled a (record { rest = b; fails = fails })
unfolding read_full
read_full-append n a b fails h = rw (
  le→leb n (length (a ++ b)) (omega (arith, length-append a b)),
  take-append_length a b n h,
  drop-append_length a b n h,
)

module _ (codec : Codec) where
  -- the length prefix is there
  pub next-filled :
      (buf tail : List ℕ) (fails : Bool) (offset size : ℕ)
      → length_size ≡ length buf
      → next codec (record {
        r = record { rest = buf ++ tail; fails = fails };
        offset = offset;
        size = size;
      })
        ≡ next_length codec
            (record {
              r = record { rest = buf ++ tail; fails = fails };
              offset = offset;
              size = size;
            })
            buf
            (record { rest = tail; fails = fails })
  unfolding next
  next-filled buf tail fails offset size h =
      rw (read_full-append length_size buf tail fails h, next)

  -- a length in the valid range, and a frame that ends within the file
  pub next_length-filled :
      (s : Scanner) (buf : List ℕ) (n : ℕ) (r r' : Reader) (rest : List ℕ)
      → uint32 buf ≡ n
      → 0 < n
      → n ≤ max_record_size
      → s.offset + (frame_overhead + n) ≤ s.size
      → read_full (type_size + n + crc_size) r ≡ filled rest r'
      → next_length codec s buf r ≡ next_body codec s buf n rest r'
  unfolding next_length
  next_length-filled s buf n r r' rest e pos small fits full =
      rw (e, le→ltb n 1 pos, le→ltb max_record_size n small, le→ltb _ _ fits, full, e)

module _ (codec : Codec) (t : RecordType) (p : List ℕ) (small : length p ≤ max_record_size) where
  abbrev pub len_buf : List ℕ
  len_buf = put_uint32 (length p)

  abbrev seal : ℕ
  seal = codec.update 0 (unsealed codec t p)

  abbrev body : List ℕ
  body = t ∷ (p ++ put_uint32 seal)

  pub length_read : uint32 len_buf ≡ length p
  length_read = uint32-put_uint32 (length p) (omega arith)

  body_payload : take (length p) (drop type_size body) ≡ p
  body_payload = take-append_length p (put_uint32 seal) (length p) refl

  body_covered : take (type_size + length p) body ≡ t ∷ p
  body_covered = take-append_length (t ∷ p) (put_uint32 seal) (type_size + length p) (omega arith)

  body_want : uint32 (drop (type_size + length p) body) ≡ seal
  body_want =
      ap uint32 (drop-append_length (t ∷ p) (put_uint32 seal) (type_size + length p) (omega arith))
      ∙ uint32-put_uint32 seal (codec.update_lt 0 (unsealed codec t p))

  crc_read : codec.update (codec.update 0 len_buf) (t ∷ p) ≡ seal
  crc_read = sym (codec.update-append 0 len_buf (t ∷ p))

  length-body : type_size + length p + crc_size ≡ length body
  length-body = omega (arith, length-append p (put_uint32 seal))

  next_body-frame :
      (s : Scanner) (r : Reader)
      → valid t ≡ true
      → next_body codec s len_buf (length p) body r
        ≡ scanned t p (record s { r = r; offset = s.offset + (frame_overhead + length p) })
  unfolding next_body
  next_body-frame s r known =
      rw (body_covered, body_want, crc_read, ==_refl seal, known, body_payload)

  -- A frame that lies within the file is read whole, whatever follows it.
  pub next-lay_out :
      (rest : List ℕ) (fails : Bool) (offset size : ℕ)
      → valid t ≡ true
      → 0 < length p
      → offset + (frame_overhead + length p) ≤ size
      → next codec (record {
        r = record { rest = lay_out codec t p ++ rest; fails = fails };
        offset = offset;
        size = size;
      })
        ≡ scanned t p (record {
          r = record { rest = rest; fails = fails };
          offset = offset + (frame_overhead + length p);
          size = size;
        })
  next-lay_out rest fails offset size known some_bytes fits =
      ap
        (λ x.
          next codec
            (record { r = record { rest = x; fails = fails }; offset = offset; size = size }))
        (append_assoc len_buf body rest)
      ∙ next-filled codec len_buf (body ++ rest) fails offset size refl
      ∙ next_length-filled codec _ len_buf (length p) _ _ body length_read some_bytes small fits
          (read_full-append _ body rest fails length-body)
      ∙ next_body-frame _ _ known
