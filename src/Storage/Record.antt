-- ===== src/Storage/Record.antt =====
-- internal/storage/record.go: the records of a log and their frames. encoding/json and hash/crc32
-- are the parameter `Codec`.
pub mod Bytes
pub mod Frame
pub mod Sequence
use queuemaxxing.Base.{
  ℕ, zero, suc, ◌+◌, ◌*◌, ◌^◌, ◌≤◌, ◌<◌, ◌≡◌, refl, String, Bool, true, false, ◌&&◌, ◌||◌, not,
  Option, none, some, List, [], ◌∷◌, ◌++◌, ℤ, length, take, drop, replicate, ltb, leb, ◌==◌,
  if◌then◌else◌,
}
use Bytes.{put_uint32, uint32}

abbrev pub max_record_size : ℕ
max_record_size = 8 * 2 ^ 20

abbrev pub length_size : ℕ
length_size = 4

abbrev pub type_size : ℕ
type_size = 1

abbrev pub crc_size : ℕ
crc_size = 4

abbrev pub frame_overhead : ℕ
frame_overhead = length_size + type_size + crc_size

abbrev pub file_header_size : ℕ
file_header_size = 16

abbrev pub format_version : ℕ
format_version = 1

-- "QMXLOG", then two zero bytes
abbrev pub magic : List ℕ
magic = b'Q' ∷ b'M' ∷ b'X' ∷ b'L' ∷ b'O' ∷ b'G' ∷ 0 ∷ 0 ∷ []

-- A record type is a byte, as read from the file.
abbrev pub RecordType : Type 0
RecordType = ℕ

abbrev pub type_invalid : RecordType
type_invalid = 0

abbrev pub type_header : RecordType
type_header = 1

abbrev pub type_enqueue : RecordType
type_enqueue = 2

abbrev pub type_ack : RecordType
type_ack = 3

abbrev pub type_nack : RecordType
type_nack = 4

abbrev pub valid : RecordType → Bool
valid t = leb type_header t && leb t type_nack

pub record Header : Type 0 where
  pub name : String
  pub ordering : String
  pub created_at : ℤ
  pub next_seq : ℕ
  pub total_enqueued : ℕ
  pub total_acked : ℕ

pub record Enqueue : Type 0 where
  pub id : String
  pub seq : ℕ
  pub priority : ℤ
  pub created_at : ℤ
  pub available_at : ℤ
  pub body : List ℕ

pub record Ack : Type 0 where
  pub id : String

pub record Nack : Type 0 where
  pub id : String
  pub available_at : ℤ

pub data Record : Type 0 where
  header : Header → Record
  enqueue : Enqueue → Record
  ack : Ack → Record
  nack : Nack → Record

abbrev pub record_type : Record → RecordType
record_type (header _) = type_header
record_type (enqueue _) = type_enqueue
record_type (ack _) = type_ack
record_type (nack _) = type_nack

-- What the log takes from the standard library: json.Marshal and json.Unmarshal by record type,
-- the record that a marshalled one reads back as (Marshal compacts a raw body and replaces
-- invalid UTF-8), and crc32.Update over the Castagnoli table.
pub record Codec : Type 0 where
  pub marshal : Record → Option (List ℕ)
  pub unmarshal : RecordType → List ℕ → Option Record
  pub stored : Record → Record
  pub update : ℕ → List ℕ → ℕ
  pub unmarshal-marshal :
      (r : Record) (p : List ℕ) → marshal r ≡ some p → unmarshal (record_type r) p ≡ some (stored r)
  pub record_type-stored : (r : Record) → record_type (stored r) ≡ record_type r
  pub update-append : (c : ℕ) (a b : List ℕ) → update c (a ++ b) ≡ update (update c a) b
  pub update_lt : (c : ℕ) (a : List ℕ) → update c a < 2 ^ 32

-- The errors of encodeFrame.
pub data EncodeError : Type 0 where
  empty_body : String → EncodeError
  marshal_failed : RecordType → EncodeError
  empty_payload : RecordType → EncodeError
  too_large : RecordType → ℕ → EncodeError

pub data Encoded : Type 0 where
  frame : List ℕ → Encoded
  refused : EncodeError → Encoded

-- The errors of checkFileHeader.
pub data HeaderError : Type 0 where
  short_header : ℕ → HeaderError
  bad_magic : List ℕ → HeaderError
  bad_version : ℕ → HeaderError

pub bytes_eq : List ℕ → List ℕ → Bool
bytes_eq [] [] = true
bytes_eq (x ∷ xs) (y ∷ ys) = x == y && bytes_eq xs ys
bytes_eq _ _ = false

unfoldable pub encode_file_header : List ℕ
encode_file_header = magic ++ (put_uint32 format_version ++ replicate 4 0)

unfoldable pub check_file_header : List ℕ → Option HeaderError
unfolding bytes_eq
check_file_header b =
    if ltb (length b) file_header_size
    then some (short_header (length b))
    else if not (bytes_eq (take 8 b) magic)
    then some (bad_magic (take 8 b))
    else if not (uint32 (take 4 (drop 8 b)) == format_version)
    then some (bad_version (uint32 (take 4 (drop 8 b))))
    else none

module _ (codec : Codec) where
  -- the length and type bytes, then the payload
  abbrev pub unsealed : RecordType → List ℕ → List ℕ
  unsealed t payload = put_uint32 (length payload) ++ (t ∷ payload)

  -- the frame that encodeFrame lays out once the payload has passed its checks
  abbrev pub lay_out : RecordType → List ℕ → List ℕ
  lay_out t payload = unsealed t payload ++ put_uint32 (codec.update 0 (unsealed t payload))

  abbrev encode_payload : Record → Option (List ℕ) → Encoded
  encode_payload r none = refused (marshal_failed (record_type r))
  encode_payload r (some payload) =
      if length payload == 0
      then refused (empty_payload (record_type r))
      else if ltb max_record_size (length payload)
      then refused (too_large (record_type r) (length payload))
      else frame (lay_out (record_type r) payload)

  unfoldable pub encode_frame : Record → Encoded
  encode_frame (enqueue e) =
      if length e.body == 0
      then refused (empty_body e.id)
      else encode_payload (enqueue e) (codec.marshal (enqueue e))
  encode_frame r = encode_payload r (codec.marshal r)

  unfoldable pub decode_payload : RecordType → List ℕ → Option Record
  decode_payload t payload =
      if t == type_header
      then codec.unmarshal type_header payload
      else if t == type_enqueue
      then codec.unmarshal type_enqueue payload
      else if t == type_ack
      then codec.unmarshal type_ack payload
      else if t == type_nack
      then codec.unmarshal type_nack payload
      else none
