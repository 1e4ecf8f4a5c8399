-- ===== src/Queue/Tokens.antt =====
-- newID and newReceipt of internal/queue/message.go: ids and receipts from sixteen bytes of
-- crypto/rand. The array is a function of the index, and a token is its list of code points.
use queuemaxxing.Base.{
  ℕ, zero, suc, ◌+◌, ◌-◌, ◌/◌, ◌%◌, ◌<◌, ◌≤◌, ◌≡◌, refl, Bool-cases, inl, inr, Option, none, some,
  List, [], ◌∷◌, ◌++◌, length, get_or, ltb, ◌==◌, if◌then◌else◌, arith,
}

abbrev pub Bytes : Type 0
Bytes = ℕ → ℕ

-- every entry is a byte
abbrev pub AreBytes : Bytes → Type 0
AreBytes b = (i : ℕ) → b i < 256

abbrev pub hex_digit : ℕ → ℕ
hex_digit n = if ltb n 10 then b'0' + n else b'a' + (n - 10)

-- hex.Encode of b[from:from+n]
unfoldable pub hex_encode : Bytes → ℕ → ℕ → List ℕ
hex_encode b from zero = []
hex_encode b from (suc n) =
    hex_digit (b from / 16) ∷ hex_digit (b from % 16) ∷ hex_encode b (from + 1) n

-- b[i] = x
abbrev pub set_byte : Bytes → ℕ → ℕ → Bytes
set_byte b i x j = if i == j then x else b j

-- b[6] = (b[6] & 0x0f) | 0x40 and b[8] = (b[8] & 0x3f) | 0x80
abbrev pub stamp : Bytes → Bytes
stamp b = set_byte (set_byte b 6 (b 6 % 16 + 64)) 8 (b 8 % 64 + 128)

abbrev pub dash : List ℕ
dash = b'-' ∷ []

abbrev pub id_of : Bytes → List ℕ
id_of b =
    hex_encode b 0 4
    ++ (dash
        ++ (hex_encode b 4 2
            ++ (dash
                ++ (hex_encode b 6 2
                    ++ (dash ++ (hex_encode b 8 2 ++ (dash ++ hex_encode b 10 6)))))))

-- newID; `none` is the failure of rand.Read
unfoldable pub new_id : Option Bytes → Option (List ℕ)
unfolding hex_encode
new_id none = none
new_id (some b) = some (id_of (stamp b))

-- newReceipt
unfoldable pub new_receipt : Option Bytes → Option (List ℕ)
unfolding hex_encode
new_receipt none = none
new_receipt (some b) = some (hex_encode b 0 16)

-- the form of a UUID of version 4: its length, the four dashes, the version and the variant
pub record IsUuid (id : List ℕ) : Type 0 where
  pub size : length id ≡ 36
  pub first_dash : get_or id 8 0 ≡ b'-'
  pub second_dash : get_or id 13 0 ≡ b'-'
  pub third_dash : get_or id 18 0 ≡ b'-'
  pub fourth_dash : get_or id 23 0 ≡ b'-'
  pub version : get_or id 14 0 ≡ b'4'
  pub low_variant : b'8' ≤ get_or id 19 0
  pub high_variant : get_or id 19 0 ≤ b'b'

variant_digit :
    (x : ℕ) → (b'8' ≤ hex_digit ((x % 64 + 128) / 16)) × (hex_digit ((x % 64 + 128) / 16) ≤ b'b')
variant_digit x = (ground arith, ground arith)

version_digit : (x : ℕ) → hex_digit ((x % 16 + 64) / 16) ≡ b'4'
version_digit x = let e : (x % 16 + 64) / 16 ≡ 4 = omega arith in rw e refl

-- Whatever bytes are drawn, newID gives a text of 36 characters, with dashes behind 8, 4, 4 and 4
-- further ones, the version digit 4, and a variant digit from 8 to b.
pub new_id-IsUuid : (b : Bytes) (id : List ℕ) → new_id (some b) ≡ some id → IsUuid id
unfolding new_id hex_encode
new_id-IsUuid b id h = let is : id_of (stamp b) ≡ id = cc in rw is at formed
  where
    formed : IsUuid (id_of (stamp b))
    formed = record {
      size = refl;
      first_dash = refl;
      second_dash = refl;
      third_dash = refl;
      fourth_dash = refl;
      version = version_digit (b 6);
      low_variant = (variant_digit (b 8)).0;
      high_variant = (variant_digit (b 8)).1;
    }

hex_digit-injective : (x y : ℕ) → x < 16 → y < 16 → hex_digit x ≡ hex_digit y → x ≡ y
hex_digit-injective x y h k e = ground arith

hex_byte-injective :
    (x y : ℕ)
    → x < 256
    → y < 256
    → hex_digit (x / 16) ≡ hex_digit (y / 16)
    → hex_digit (x % 16) ≡ hex_digit (y % 16)
    → x ≡ y
hex_byte-injective x y h k high low =
    let a = hex_digit-injective (x / 16) (y / 16) (omega arith) (omega arith) high in
    let b = hex_digit-injective (x % 16) (y % 16) (omega arith) (omega arith) low in omega arith

hex_encode-injective :
    (a b : Bytes) (n from i : ℕ)
    → AreBytes a
    → AreBytes b
    → hex_encode a from n ≡ hex_encode b from n
    → from ≤ i
    → i < from + n
    → a i ≡ b i
unfolding hex_encode
hex_encode-injective a b zero from i p q e low high = absurd (omega arith)
hex_encode-injective a b (suc n) from i p q e low high = elim (Bool-cases (from == i)) [
  | inl here ↦
      let is : from ≡ i = ground arith in
      rw is at (hex_byte-injective (a from) (b from) (p from) (q from) (cc e) (cc e))
  | inr later ↦
      let rest : hex_encode a (from + 1) n ≡ hex_encode b (from + 1) n = cc e in
      hex_encode-injective a b n (from + 1) i p q rest (ground arith) (omega arith)
]

-- Two receipts are the same text only where all their sixteen bytes are the same.
pub new_receipt-injective :
    (a b : Bytes)
    → AreBytes a
    → AreBytes b
    → new_receipt (some a) ≡ new_receipt (some b)
    → (i : ℕ) → i < 16
    → a i ≡ b i
unfolding new_receipt
new_receipt-injective a b p q e i inside =
    let same : hex_encode a 0 16 ≡ hex_encode b 0 16 = cc e in
    hex_encode-injective a b 16 0 i p q same (omega arith) inside
