-- ===== src/Queue/Engine/Scheduler.antt =====
-- processDue of internal/queue/scheduler.go. The goroutine around it only waits: for its timer, for
-- a kick, or for the end.
use queuemaxxing.Base.{ℕ, zero, suc, Bool, true, false, Option, none, some, length, if◌then◌else◌}
use queuemaxxing.Queue.Clock.{Time, before, after, zero_time}
use queuemaxxing.Queue.Message.{ready}
use queuemaxxing.Queue.Heap.{peek}
use queuemaxxing.Queue.Engine.State.{
  Queue, delete, push_ready, pop_delayed_heap, pop_expiry_heap, set_message, broadcast,
}

-- the head of the delayed heap becomes ready
unfoldable pub promote : Queue → ℕ → Queue
unfolding pop_delayed_heap set_message push_ready
promote q p =
    let q₁ = (pop_delayed_heap q).1 in
    push_ready (set_message q₁ p (record (q₁.store p) { state = ready })) p

-- the head of the expiry heap becomes ready again, and its receipt is dropped
unfoldable pub expire : Queue → ℕ → Queue
unfolding pop_expiry_heap set_message push_ready
expire q p =
    let q₁ = (pop_expiry_heap q).1 in
    let m = q₁.store p in
    let q₂ = record q₁ { inflight = delete m.receipt q₁.inflight } in
    push_ready (set_message q₂ p (record m { receipt = ""; deadline = zero_time; state = ready })) p

-- the loops; a round takes one message from its heap
unfoldable pub promote_due : ℕ → Time → Queue × Bool → Queue × Bool
promote_due zero now (q, changed) = (q, changed)
promote_due (suc fuel) now (q, changed) = elim (peek q.delayed) [
  | none ↦ (q, changed)
  | some p ↦ elim (after (q.store p).available_at now) [
    | true ↦ (q, changed)
    | false ↦ promote_due fuel now (promote q p, true)
  ]
]

unfoldable pub expire_due : ℕ → Time → Queue × Bool → Queue × Bool
expire_due zero now (q, changed) = (q, changed)
expire_due (suc fuel) now (q, changed) = elim (peek q.expiry) [
  | none ↦ (q, changed)
  | some p ↦ elim (after (q.store p).deadline now) [
    | true ↦ (q, changed)
    | false ↦ expire_due fuel now (expire q p, true)
  ]
]

-- the next moment that needs attention
unfoldable pub next_due : Queue → Option Time
next_due q =
    let d : Option Time = elim (peek q.delayed) [
      | none ↦ none
      | some p ↦ some (q.store p).available_at
    ] in
    elim (peek q.expiry) [
      | none ↦ d
      | some p ↦ elim d [
        | none ↦ some (q.store p).deadline
        | some t ↦ if before (q.store p).deadline t then some (q.store p).deadline else some t
      ]
    ]

unfoldable pub process_due : Time → Queue → Option Time × Queue
process_due now q =
    let (q₁, promoted) = promote_due (length q.delayed) now (q, false) in
    let (q₂, changed) = expire_due (length q₁.expiry) now (q₁, promoted) in
    let q₃ = if changed then broadcast q₂ else q₂ in (next_due q₃, q₃)
