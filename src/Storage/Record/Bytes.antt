-- ===== src/Storage/Record/Bytes.antt =====
-- Bytes as numbers below 256, and encoding/binary's big-endian 32-bit words.
use queuemaxxing.Base.{ℕ, ◌+◌, ◌*◌, ◌/◌, ◌%◌, ◌^◌, ◌<◌, ◌≡◌, List, [], ◌∷◌, arith}

-- binary.BigEndian.PutUint32
abbrev pub put_uint32 : ℕ → List ℕ
put_uint32 n = (n / 2 ^ 24) % 256 ∷ (n / 2 ^ 16) % 256 ∷ (n / 2 ^ 8) % 256 ∷ n % 256 ∷ []

-- binary.BigEndian.Uint32 of the first four bytes; Go panics on fewer, and no call has fewer
abbrev pub uint32 : List ℕ → ℕ
uint32 (a ∷ b ∷ c ∷ d ∷ _) = a * 2 ^ 24 + b * 2 ^ 16 + c * 2 ^ 8 + d
uint32 _ = 0

pub uint32-put_uint32 : (n : ℕ) → n < 2 ^ 32 → uint32 (put_uint32 n) ≡ n
uint32-put_uint32 n h = omega arith
