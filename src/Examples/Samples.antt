-- ===== src/Examples/Samples.antt =====
-- A codec for internal/storage/record.go with the laws that the log needs, and a small log.
use queuemaxxing.Base.{
  ℕ, ◌+◌, ◌%◌, ◌^◌, ◌≡◌, refl, Option, none, some, List, [], ◌∷◌, ◌++◌, pos, ◌==◌, if◌then◌else◌,
  arith,
}
use queuemaxxing.Storage.Record.{
  Codec, Record, RecordType, Header, Enqueue, header, enqueue, ack, nack, record_type, encode_frame,
  frame, encode_file_header,
}
use queuemaxxing.Storage.Record.Sequence.{Framed, no_frames, next_frame}
use queuemaxxing.Storage.Disk.{Disk}
use queuemaxxing.Storage.Log.{Log}
use queuemaxxing.Storage.Log.Append.{IsLogOf}

abbrev pub sum : List ℕ → ℕ
sum [] = 0
sum (b ∷ bs) = b + sum bs

pub sum-append : (a b : List ℕ) → sum (a ++ b) ≡ sum a + sum b
sum-append [] b = omega arith
sum-append (x ∷ a) b = omega (arith, sum-append a b)

abbrev pub sample_header : Header
sample_header = record {
  name = "jobs";
  ordering = "fifo";
  created_at = pos 0;
  next_seq = 1;
  total_enqueued = 0;
  total_acked = 0;
}

abbrev pub sample_enqueue : List ℕ → Enqueue
sample_enqueue body = record {
  id = "a";
  seq = 1;
  priority = pos 0;
  created_at = pos 0;
  available_at = pos 0;
  body = body;
}

-- A body is its own payload, and all else is a payload of one byte.
abbrev pub sample_marshal : Record → Option (List ℕ)
sample_marshal (enqueue e) = some e.body
sample_marshal (header _) = some (1 ∷ [])
sample_marshal (ack _) = some (1 ∷ [])
sample_marshal (nack _) = some (1 ∷ [])

abbrev pub sample_unmarshal : RecordType → List ℕ → Option Record
sample_unmarshal t payload =
    if t == 1
    then some (header sample_header)
    else if t == 2
    then some (enqueue (sample_enqueue payload))
    else if t == 3
    then some (ack (record { id = "a" }))
    else some (nack (record { id = "a"; available_at = pos 0 }))

abbrev pub sample_stored : Record → Record
sample_stored (header _) = header sample_header
sample_stored (enqueue e) = enqueue (sample_enqueue e.body)
sample_stored (ack _) = ack (record { id = "a" })
sample_stored (nack _) = nack (record { id = "a"; available_at = pos 0 })

pub read_back :
    (r : Record) (p : List ℕ)
    → sample_marshal r ≡ some p
    → sample_unmarshal (record_type r) p ≡ some (sample_stored r)
read_back (header _) p h = refl
read_back (enqueue e) p h = cc
read_back (ack _) p h = refl
read_back (nack _) p h = refl

pub same_type : (r : Record) → record_type (sample_stored r) ≡ record_type r
same_type (header _) = refl
same_type (enqueue _) = refl
same_type (ack _) = refl
same_type (nack _) = refl

-- The checksum is a sum of bytes.
abbrev pub sample_codec : Codec
sample_codec = record {
  marshal = sample_marshal;
  unmarshal = sample_unmarshal;
  stored = sample_stored;
  update = λ c bs. (c + sum bs) % 2 ^ 32;
  unmarshal-marshal = read_back;
  record_type-stored = same_type;
  update-append = λ c a b. omega (arith, sum-append a b);
  update_lt = λ c a. omega arith;
}

-- the frames of the header, and of a message of the one byte 9
abbrev pub header_frame : List ℕ
header_frame = 0 ∷ 0 ∷ 0 ∷ 1 ∷ 1 ∷ 1 ∷ 0 ∷ 0 ∷ 0 ∷ 3 ∷ []

abbrev pub message_frame : List ℕ
message_frame = 0 ∷ 0 ∷ 0 ∷ 1 ∷ 2 ∷ 9 ∷ 0 ∷ 0 ∷ 0 ∷ 12 ∷ []

abbrev pub sample_message : Record
sample_message = enqueue (sample_enqueue (9 ∷ []))

pub header_framed : encode_frame sample_codec (header sample_header) ≡ frame header_frame
unfolding encode_frame
header_framed = refl

pub message_framed : encode_frame sample_codec sample_message ≡ frame message_frame
unfolding encode_frame
message_framed = refl

pub sample-Framed : Framed sample_codec (header sample_header ∷ []) (header_frame ++ [])
sample-Framed = next_frame header_framed no_frames

-- The file of inode 0 holds the header's frame, and then `tail`.
abbrev pub sample_disk : List ℕ → Disk
sample_disk tail = record {
  inode = λ _. encode_file_header ++ (header_frame ++ tail);
  entry = some 0;
  temp = none;
  fresh = 1;
}

abbrev pub sample_log : Log
sample_log = record { f = some 0; size = 26; records = 1; broken = none }

pub sample_IsLogOf : IsLogOf sample_codec sample_log (sample_disk []) 0 (header sample_header ∷ [])
unfolding encode_file_header
sample_IsLogOf = record {
  handle = refl;
  unbroken = refl;
  bytes = header_frame ++ [];
  framed = sample-Framed;
  contents = refl;
  sized = refl;
  counted = refl;
}
