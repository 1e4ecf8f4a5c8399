-- ===== src/Queue/Engine/Receipts.antt =====
-- A receipt is good for one delivery: what refuses a stale one.
use queuemaxxing.Base.{
  ℕ, ◌≡◌, refl, ap, ◌∙◌, String, false, Option-cases, inl, inr, none, ℤ, ok, err, arith,
}
use queuemaxxing.Queue.Engine.State.{
  receipt_not_found, CallEnv, Queue, lookup, delete, lookup-delete_self, pop_expiry_heap,
  inflight-remove_expiry, closed-remove_expiry, set_message,
}
use queuemaxxing.Queue.Engine.Compact.{maybe_compact}
use queuemaxxing.Queue.Engine.Operations.{
  schedule, ack_found, ack_message, settle, nack_booked, nack_found, nack_message,
}
use queuemaxxing.Queue.Engine.Scheduler.{expire}

pub inflight-maybe_compact :
    (env : CallEnv) (q : Queue) → (maybe_compact env q).inflight ≡ q.inflight
unfolding maybe_compact
inflight-maybe_compact env q = ground arith

pub closed-maybe_compact : (env : CallEnv) (q : Queue) → (maybe_compact env q).closed ≡ q.closed
unfolding maybe_compact
closed-maybe_compact env q = ground arith

pub inflight-schedule : (q : Queue) (p : ℕ) (d : ℤ) → (schedule q p d).inflight ≡ q.inflight
unfolding schedule
inflight-schedule q p d = ground arith

pub closed-schedule : (q : Queue) (p : ℕ) (d : ℤ) → (schedule q p d).closed ≡ q.closed
unfolding schedule
closed-schedule q p d = ground arith

ruleset same_inflight = (
  inflight-maybe_compact, inflight-schedule, inflight-remove_expiry, closed-maybe_compact,
  closed-schedule, closed-remove_expiry,
)

module _ (env : CallEnv) (r : String) (p : ℕ) (q : Queue) where
  inflight-ack_found : (ack_found env r p q).inflight ≡ delete r q.inflight
  unfolding ack_found
  inflight-ack_found = simp same_inflight

  closed-ack_found : (ack_found env r p q).closed ≡ q.closed
  unfolding ack_found
  closed-ack_found = simp same_inflight

  inflight-nack_found : (d : ℤ) → (nack_found env r p d q).inflight ≡ delete r q.inflight
  unfolding nack_found nack_booked settle set_message
  inflight-nack_found d = simp same_inflight

  closed-nack_found : (d : ℤ) → (nack_found env r p d q).closed ≡ q.closed
  unfolding nack_found nack_booked settle set_message
  closed-nack_found d = simp same_inflight

-- A receipt that is not in the in-flight map is refused by an open queue, which stays as it was.
unknown_receipt :
    (env : CallEnv) (r : String) (q : Queue)
    → q.closed ≡ false
    → lookup r q.inflight ≡ none
    → ack_message env r q ≡ (err receipt_not_found, q)
unfolding ack_message
unknown_receipt env r q open_ missing = simp (open_, missing)

ack-inv :
    (env : CallEnv) (r : String) (q : Queue)
    → (ack_message env r q).0 ≡ ok tt
    → (p : ℕ) × (q.closed ≡ false) × ((ack_message env r q).1 ≡ ack_found env r p q)
unfolding ack_message
ack-inv env r q h = elim (Option-cases (lookup r q.inflight)) [
  | inl missing ↦ absurd (ground arith)
  | inr (p, found) ↦ (p, ground arith, ground arith)
]

nack-inv :
    (env : CallEnv) (r : String) (d : ℤ) (q : Queue)
    → (nack_message env r d q).0 ≡ ok tt
    → (p : ℕ) × (q.closed ≡ false) × ((nack_message env r d q).1 ≡ nack_found env r p d q)
unfolding nack_message
nack-inv env r d q h = elim (Option-cases (lookup r q.inflight)) [
  | inl missing ↦ absurd (ground arith)
  | inr (p, found) ↦ (p, ground arith, ground arith)
]

-- An Ack that succeeded has removed its receipt, whatever the log's compaction did: an Ack with the
-- same receipt is refused as unknown from then on, and changes nothing.
pub ack_once :
    (env env' : CallEnv) (r : String) (q : Queue)
    → (ack_message env r q).0 ≡ ok tt
    → ack_message env' r (ack_message env r q).1 ≡ (err receipt_not_found, (ack_message env r q).1)
ack_once env env' r q h =
    let (p, open_, after) = ack-inv env r q h in
    rw after (
      unknown_receipt env' r (ack_found env r p q) (closed-ack_found env r p q ∙ open_)
        (ap (lookup r) (inflight-ack_found env r p q) ∙ lookup-delete_self r q.inflight))

-- The same after a Nack.
pub ack_after_nack :
    (env env' : CallEnv) (r : String) (d : ℤ) (q : Queue)
    → (nack_message env r d q).0 ≡ ok tt
    → ack_message env' r (nack_message env r d q).1
      ≡ (err receipt_not_found, (nack_message env r d q).1)
ack_after_nack env env' r d q h =
    let (p, open_, after) = nack-inv env r d q h in
    rw after (
      unknown_receipt env' r (nack_found env r p d q) (closed-nack_found env r p q d ∙ open_)
        (ap (lookup r) (inflight-nack_found env r p q d) ∙ lookup-delete_self r q.inflight))

-- When a delivery expires its receipt is dropped, so the late Ack of its consumer is refused.
pub late_ack :
    (env : CallEnv) (q : Queue) (p : ℕ)
    → q.closed ≡ false
    → ack_message env ((pop_expiry_heap q).1.store p).receipt (expire q p)
      ≡ (err receipt_not_found, expire q p)
late_ack env q p open_ = unknown_receipt env _ (expire q p) (expire_closed ∙ open_) expire_dropped
  where
    expire_closed : (expire q p).closed ≡ q.closed
    expire_closed = unfold expire pop_expiry_heap in refl

    expire_dropped : lookup ((pop_expiry_heap q).1.store p).receipt (expire q p).inflight ≡ none
    expire_dropped = unfold expire in lookup-delete_self _ _
