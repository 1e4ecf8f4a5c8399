-- ===== src/Queue/Engine/Operations.antt =====
-- Enqueue, popReady, Receive, Ack, Nack, Close and Stats of internal/queue/queue.go.
use queuemaxxing.Base.{
  ℕ, ◌+◌, ◌||◌, not, String, Bool, true, false, Option, none, some, List, [], ◌∷◌, ◌++◌, ℤ, pos,
  ◌+ℤ◌, ltb_ℤ, length, ◌==◌, if◌then◌else◌, Result, ok, err,
}
use queuemaxxing.Storage.Record.{Enqueue, enqueue, ack, nack}
use queuemaxxing.Queue.Clock.{Time, before, to_millis, zero_time}
use queuemaxxing.Queue.Message.{Message, ready, delayed, in_flight, Delivery, delivery}
use queuemaxxing.Queue.Engine.State.{
  QueueError, empty_body, negative_delay, queue_deleted, receipt_not_found, entropy_failed,
  cancelled, log_failed, CallEnv, Queue, add_uint64, lookup, insert, delete, push_ready,
  push_delayed, push_expiry, pop_ready_heap, remove_expiry, set_message, leads, wake_scheduler,
  broadcast,
}
use queuemaxxing.Queue.Engine.Compact.{maybe_compact, compact_locked}

-- a duration in nanoseconds below or above zero
abbrev pub is_negative : ℤ → Bool
is_negative d = ltb_ℤ d (pos 0)

abbrev pub is_positive : ℤ → Bool
is_positive d = ltb_ℤ (pos 0) d

-- what Enqueue and Nack do at their end: by the delay, the message becomes delayed or ready
unfoldable pub schedule : Queue → ℕ → ℤ → Queue
unfolding push_ready push_delayed set_message
schedule q p delay =
    if is_positive delay
    then (let q' = push_delayed (set_message q p (record (q.store p) { state = delayed })) p in
        if leads p q'.delayed then wake_scheduler q' else q')
    else push_ready (set_message q p (record (q.store p) { state = ready })) p

abbrev pub enqueue_record : String → ℕ → ℤ → List ℕ → Time → Time → Enqueue
enqueue_record id seq priority body now available = record {
  id = id;
  seq = seq;
  priority = priority;
  created_at = to_millis now;
  available_at = to_millis available;
  body = body;
}

-- Enqueue up to its Message, once the checks have passed and the append has succeeded
unfoldable pub enqueue_booked : CallEnv → List ℕ → ℤ → ℤ → String → Queue → Queue
enqueue_booked env body priority delay id q =
    let available = env.now +ℤ delay in
    let m : Message = record {
      id = id;
      seq = q.next_seq;
      priority = priority;
      body = body;
      created_at = env.now;
      available_at = available;
      state = ready;
      receive_count = 0;
      receipt = "";
      deadline = zero_time;
      index = pos 0;
    } in
    let p = q.next_address in
    let q' = record q {
      next_seq = add_uint64 q.next_seq 1;
      enqueued = add_uint64 q.enqueued 1;
      next_address = p + 1;
      log = q.log ++ (enqueue (enqueue_record id q.next_seq priority body env.now available) ∷ []);
    } in
    set_message q' p m

-- the rest of Enqueue and of Nack, with the deferred compaction at the end
unfoldable pub settle : CallEnv → ℕ → ℤ → Queue → Queue
settle env p delay q = maybe_compact env (broadcast (schedule q p delay))

unfoldable pub enqueue_appended : CallEnv → List ℕ → ℤ → ℤ → String → Queue → Queue
enqueue_appended env body priority delay id q =
    settle env q.next_address delay (enqueue_booked env body priority delay id q)

unfoldable pub enqueue_message : CallEnv → List ℕ → ℤ → ℤ → Queue → Result QueueError String × Queue
enqueue_message env body priority delay q =
    if length body == 0
    then (err empty_body, q)
    else if is_negative delay
    then (err negative_delay, q)
    else elim env.token [
      | none ↦ (err entropy_failed, q)
      | some id ↦ if q.closed then (err queue_deleted, q) else elim env.append_error [
        | some e ↦ (err (log_failed e), q)
        | none ↦ (ok id, enqueue_appended env body priority delay id q)
      ]
    ]

-- the message that popReady hands out
abbrev pub taken : Message → String → Time → Message
taken m receipt deadline = record m {
  state = in_flight;
  receive_count = m.receive_count + 1;
  receipt = receipt;
  deadline = deadline;
}

unfoldable pub pop_with : CallEnv → ℤ → String → Queue → Delivery × Queue
unfolding pop_ready_heap set_message push_expiry
pop_with env visibility receipt q =
    let (p, q₁) = pop_ready_heap q in
    let q₂ = set_message q₁ p (taken (q₁.store p) receipt (env.now +ℤ visibility)) in
    let q₃ = push_expiry (record q₂ { inflight = insert receipt p q₂.inflight }) p in
    (delivery (q₃.store p), if leads p q₃.expiry then wake_scheduler q₃ else q₃)

unfoldable pub pop_ready : CallEnv → ℤ → Queue → Result QueueError (Option Delivery) × Queue
pop_ready env visibility q = if length q.ready == 0 then (ok none, q) else elim env.token [
  | none ↦ (err entropy_failed, q)
  | some receipt ↦ let (d, q') = pop_with env visibility receipt q in (ok (some d), q')
]

-- One round of Receive's loop: it returns, or it waits on the condition variable.
pub data Round : Type 0 where
  returned : Result QueueError (Option Delivery) → Round
  waits : Round

abbrev pub found_nothing : ℤ → Time → Time → Bool → Round
found_nothing wait now deadline ctx_done =
    if not (is_positive wait) || not (before now deadline)
    then returned (ok none)
    else if ctx_done
    then returned (err cancelled)
    else waits

unfoldable pub receive_round : CallEnv → ℤ → ℤ → Time → Bool → Queue → Round × Queue
unfolding pop_ready
receive_round env visibility wait deadline ctx_done q =
    if q.closed then (returned (err queue_deleted), q) else elim (pop_ready env visibility q).0 [
      | err e ↦ (returned (err e), (pop_ready env visibility q).1)
      | ok (some d) ↦ (returned (ok (some d)), (pop_ready env visibility q).1)
      | ok none ↦ (found_nothing wait env.now deadline ctx_done, (pop_ready env visibility q).1)
    ]

unfoldable pub ack_found : CallEnv → String → ℕ → Queue → Queue
ack_found env receipt p q =
    let q' = record q {
      log = q.log ++ (ack (record { id = (q.store p).id }) ∷ []);
      inflight = delete receipt q.inflight;
    } in
    let q'' = remove_expiry q' p in
    maybe_compact env (record q'' { acked = add_uint64 q''.acked 1 })

unfoldable pub ack_message : CallEnv → String → Queue → Result QueueError (Unit {0}) × Queue
ack_message env receipt q =
    if q.closed then (err queue_deleted, q) else elim (lookup receipt q.inflight) [
      | none ↦ (err receipt_not_found, q)
      | some p ↦ elim env.append_error [
        | some e ↦ (err (log_failed e), q)
        | none ↦ (ok tt, ack_found env receipt p q)
      ]
    ]

-- Nack up to its changes of the message
unfoldable pub nack_booked : CallEnv → String → ℕ → ℤ → Queue → Queue
nack_booked env receipt p delay q =
    let available = env.now +ℤ delay in
    let q₁ = record q {
      log =
          q.log ++ (nack (record { id = (q.store p).id; available_at = to_millis available }) ∷ []);
      inflight = delete receipt q.inflight;
    } in
    let q₂ = remove_expiry q₁ p in
    let m = record (q₂.store p) { receipt = ""; deadline = zero_time; available_at = available } in
    set_message q₂ p m

unfoldable pub nack_found : CallEnv → String → ℕ → ℤ → Queue → Queue
nack_found env receipt p delay q = settle env p delay (nack_booked env receipt p delay q)

unfoldable pub nack_message : CallEnv → String → ℤ → Queue → Result QueueError (Unit {0}) × Queue
nack_message env receipt delay q =
    if is_negative delay
    then (err negative_delay, q)
    else if q.closed
    then (err queue_deleted, q)
    else elim (lookup receipt q.inflight) [
      | none ↦ (err receipt_not_found, q)
      | some p ↦ elim env.append_error [
        | some e ↦ (err (log_failed e), q)
        | none ↦ (ok tt, nack_found env receipt p delay q)
      ]
    ]

-- the two critical sections of Close; a failed compaction is only logged
abbrev pub mark_closed : Queue → Queue
mark_closed q = broadcast (record q { closed = true })

abbrev pub finish_close : CallEnv → Queue → Queue
finish_close env q =
    let q' = if q.compact_threshold == 0 then q else (compact_locked env q).1 in
    record q' { log_open = false }

-- Close where no other goroutine holds the queue between them
unfoldable pub close : CallEnv → Queue → Queue
close env q = if q.closed then q else finish_close env (mark_closed q)

pub record Stats : Type 0 where
  pub ready_count : ℕ
  pub delayed_count : ℕ
  pub in_flight_count : ℕ
  pub total_enqueued : ℕ
  pub total_acked : ℕ

unfoldable pub stats : Queue → Stats
stats q = record {
  ready_count = length q.ready;
  delayed_count = length q.delayed;
  in_flight_count = length q.inflight;
  total_enqueued = q.enqueued;
  total_acked = q.acked;
}
