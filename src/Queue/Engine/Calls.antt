-- ===== src/Queue/Engine/Calls.antt =====
-- The calls that a client makes on a queue, as one step function.
use queuemaxxing.Base.{
  ℕ, ◌≡◌, String, false, Option, none, some, List, ℤ, pos, Result, ok, err, arith,
}
use queuemaxxing.Queue.Engine.State.{QueueError, CallEnv, Queue}
use queuemaxxing.Queue.Engine.Operations.{
  enqueue_message, ack_message, nack_message, Round, returned, waits, receive_round,
}
use queuemaxxing.Queue.Engine.Scheduler.{process_due}

pub data Call : Type 0 where
  enqueue_call : List ℕ → ℤ → ℤ → Call
  ack_call : String → Call
  nack_call : String → ℤ → Call
  -- Receive without a wait, and the scheduler's wakeup
  receive_call : ℤ → Call
  due_call : Call

abbrev pub error_of {ℓ} : {A : Type ℓ} → Result QueueError A → Option QueueError
error_of (ok _) = none
error_of (err e) = some e

abbrev pub round_error : Round → Option QueueError
round_error (returned r) = error_of r
round_error waits = none

-- the call's error, and the queue after it
unfoldable pub perform : CallEnv → Call → Queue → Option QueueError × Queue
perform env (enqueue_call body priority delay) q =
    let (r, q') = enqueue_message env body priority delay q in (error_of r, q')
perform env (ack_call receipt) q = let (r, q') = ack_message env receipt q in (error_of r, q')
perform env (nack_call receipt delay) q =
    let (r, q') = nack_message env receipt delay q in (error_of r, q')
perform env (receive_call visibility) q =
    let (r, q') = receive_round env visibility (pos 0) env.now false q in (round_error r, q')
perform env due_call q = (none, (process_due env.now q).1)

-- A call that returns an error leaves the queue as it was, the records that its log has accepted,
-- counters, heaps and receipts included, on every error path of Enqueue, Ack, Nack and Receive.
pub errors_change_nothing :
    (env : CallEnv) (c : Call) (q : Queue) (e : QueueError)
    → (perform env c q).0 ≡ some e
    → (perform env c q).1 ≡ q
unfolding perform enqueue_message ack_message nack_message receive_round
errors_change_nothing env (enqueue_call body priority delay) q e h = ground arith
errors_change_nothing env (ack_call receipt) q e h = ground arith
errors_change_nothing env (nack_call receipt delay) q e h = ground arith
errors_change_nothing env (receive_call visibility) q e h = ground arith
errors_change_nothing env due_call q e h = cc
