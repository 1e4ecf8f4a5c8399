-- ===== src/Storage/Record/Frame.antt =====
-- What encodeFrame lays out, and what decodePayload reads back.
use queuemaxxing.Base.{
  ℕ, ◌+◌, ◌≤◌, ◌<◌, ◌≡◌, refl, true, Option, none, some, List, length, Bool-cases, ◌==◌, inl, inr,
  arith, length-append, ap, ◌∙◌,
}
use queuemaxxing.Storage.Record.{
  encode_payload, Codec, Record, Enqueue, header, enqueue, ack, nack, record_type, max_record_size,
  encode_frame, frame, lay_out, unsealed, decode_payload, valid, RecordType, file_header_size,
  encode_file_header, check_file_header, frame_overhead,
}
use queuemaxxing.Storage.Record.Bytes.{put_uint32}

module _ (codec : Codec) where
  -- `p` is the payload of the frame `f` of `r`
  pub record IsFrameOf (r : Record) (p f : List ℕ) : Type 0 where
    pub marshalled : codec.marshal r ≡ some p
    pub nonempty : 0 < length p
    pub bounded : length p ≤ max_record_size
    pub laid_out : f ≡ lay_out codec (record_type r) p

  encode_payload-inv :
      (r : Record) (o : Option (List ℕ)) (f : List ℕ)
      → encode_payload codec r o ≡ frame f
      → (p : List ℕ) × (o ≡ some p)
        × (0 < length p)
        × (length p ≤ max_record_size)
        × (f ≡ lay_out codec (record_type r) p)
  encode_payload-inv r none f h = cc
  encode_payload-inv r (some p) f h = (p, refl, ground arith, ground arith, ground arith)

  framed :
      (r : Record) (f : List ℕ)
      → encode_payload codec r (codec.marshal r) ≡ frame f
      → (p : List ℕ) × IsFrameOf r p f
  framed r f h =
      let (p, m, n, b, l) = encode_payload-inv r (codec.marshal r) f h in
      (p, record { marshalled = m; nonempty = n; bounded = b; laid_out = l })

  -- a frame of an enqueue record is one whose body is not empty
  enqueue-inv :
      (e : Enqueue) (f : List ℕ)
      → encode_frame codec (enqueue e) ≡ frame f
      → encode_payload codec (enqueue e) (codec.marshal (enqueue e)) ≡ frame f
  unfolding encode_frame
  enqueue-inv e f h = elim (Bool-cases (length e.body == 0)) [
    | inl missing ↦ ground arith
    | inr given ↦ rw given at h
  ]

  pub frame-inv :
      (r : Record) (f : List ℕ) → encode_frame codec r ≡ frame f → (p : List ℕ) × IsFrameOf r p f
  unfolding encode_frame
  frame-inv (header x) f h = framed (header x) f h
  frame-inv (enqueue x) f h = framed (enqueue x) f (enqueue-inv x f h)
  frame-inv (ack x) f h = framed (ack x) f h
  frame-inv (nack x) f h = framed (nack x) f h

  pub valid-record_type : (r : Record) → valid (record_type r) ≡ true
  valid-record_type (header _) = refl
  valid-record_type (enqueue _) = refl
  valid-record_type (ack _) = refl
  valid-record_type (nack _) = refl

  pub decode_payload-marshal :
      (r : Record) (p : List ℕ)
      → codec.marshal r ≡ some p
      → decode_payload codec (record_type r) p ≡ some (codec.stored r)
  unfolding decode_payload
  decode_payload-marshal (header x) p h = codec.unmarshal-marshal (header x) p h
  decode_payload-marshal (enqueue x) p h = codec.unmarshal-marshal (enqueue x) p h
  decode_payload-marshal (ack x) p h = codec.unmarshal-marshal (ack x) p h
  decode_payload-marshal (nack x) p h = codec.unmarshal-marshal (nack x) p h

  pub length-lay_out :
      (t : RecordType) (p : List ℕ) → length (lay_out codec t p) ≡ frame_overhead + length p
  length-lay_out t p =
      omega (arith, length-append p (put_uint32 (codec.update 0 (unsealed codec t p))))

  pub length-frame :
      (r : Record) (p f : List ℕ) → IsFrameOf r p f → length f ≡ frame_overhead + length p
  length-frame r p f h = ap length h.laid_out ∙ length-lay_out (record_type r) p

-- The sixteen bytes that a new log starts with pass the check of an existing one.
pub check_file_header-encode : check_file_header encode_file_header ≡ none
unfolding check_file_header encode_file_header
check_file_header-encode = refl

pub length-encode_file_header : length encode_file_header ≡ file_header_size
unfolding encode_file_header
length-encode_file_header = refl
