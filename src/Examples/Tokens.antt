-- ===== src/Examples/Tokens.antt =====
-- The theorems on the ids and receipts of internal/queue/message.go, at bytes that are zero.
use queuemaxxing.Base.{◌≡◌, refl, some, ltb, if◌then◌else◌, arith}
use queuemaxxing.Queue.Tokens.{
  Bytes, AreBytes, id_of, stamp, new_id, new_receipt, new_receipt-injective,
}

abbrev zeros : Bytes
zeros i = 0

-- zero in the first sixteen places
abbrev zeros_first : Bytes
zeros_first i = if ltb i 16 then 0 else 1

zeros_first-AreBytes : AreBytes zeros_first
zeros_first-AreBytes i = ground arith

same_receipt : new_receipt (some zeros) ≡ new_receipt (some zeros_first)
unfolding new_receipt
same_receipt = refl

zeros-AreBytes : AreBytes zeros
zeros-AreBytes i = omega arith

drawn : new_id (some zeros) ≡ some (id_of (stamp zeros))
unfolding new_id
drawn = refl

new_receipt-injective_example : zeros 15 ≡ zeros_first 15
new_receipt-injective_example =
    new_receipt-injective zeros zeros_first zeros-AreBytes zeros_first-AreBytes same_receipt 15
      (omega arith)
