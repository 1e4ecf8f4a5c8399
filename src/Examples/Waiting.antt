-- ===== src/Examples/Waiting.antt =====
-- The theorems on a waiting Receive of internal/queue/queue.go, at a queue that is empty.
use queuemaxxing.Base.{◌≡◌, refl, true, false, none, [], ◌∷◌, ℤ, pos, ◌+ℤ◌, Inevitable}
use queuemaxxing.Queue.Heap.{heap_push}
use queuemaxxing.Queue.Engine.State.{push_ready, set_message}
use queuemaxxing.Queue.Engine.Operations.{
  enqueue_message, enqueue_appended, enqueue_booked, settle, schedule, receive_round, pop_ready,
}
use queuemaxxing.Queue.Engine.Compact.{maybe_compact}
use queuemaxxing.Queue.Engine.Calls.{enqueue_call, perform}
use queuemaxxing.Queue.Waiting.Receiver.{
  asleep, Receiver, enter, round_ended, check, Own, checks, Reach, entered, later, own, calls,
}
use queuemaxxing.Queue.Waiting.Stranded.{no_stranded_receive}
use queuemaxxing.Queue.Waiting.Answer.{has_reason, IsAnswered, receive_comes_back}
use queuemaxxing.Examples.Queue.{sample_env, empty_queue}

-- Receive waits for five seconds.
abbrev five : ℤ
five = pos 5000000000

abbrev sleeping : Receiver
sleeping =
    check (pos 1000) five true (sample_env none)
      (enter (pos 1000) five true (pos 1000000000) empty_queue)

sleeping_run : Reach (pos 1000) five true (pos 1000000000) empty_queue sleeping
sleeping_run =
    later entered (own (checks (sample_env none) (unfold enter in refl) (unfold enter in refl)))

sleeping_asleep : sleeping.place ≡ asleep
unfolding check round_ended enter receive_round pop_ready ◌+ℤ◌
sleeping_asleep = refl

sleeping_quiet : sleeping.queue.signalled ≡ false
unfolding check round_ended enter receive_round pop_ready ◌+ℤ◌
sleeping_quiet = refl

no_stranded_receive_example :
    (sleeping.queue.ready ≡ [])
    × (sleeping.queue.closed ≡ false)
    × (sleeping.timer_pending ≡ true)
    × (true ≡ true → sleeping.watching ≡ true)
no_stranded_receive_example =
    no_stranded_receive (pos 1000) five true (pos 1000000000) empty_queue sleeping sleeping_run
      sleeping_asleep sleeping_quiet

-- A message is sent meanwhile.
abbrev served : Receiver
served = record sleeping {
  queue = (perform (sample_env none) (enqueue_call (9 ∷ []) (pos 0) (pos 0)) sleeping.queue).1;
}

served_run : Reach (pos 1000) five true (pos 1000000000) empty_queue served
served_run = later sleeping_run (calls (sample_env none) (enqueue_call (9 ∷ []) (pos 0) (pos 0)))

served_reason : has_reason (pos 1000) five true served ≡ true
unfolding has_reason check round_ended enter receive_round pop_ready ◌+ℤ◌ perform enqueue_message
    enqueue_appended enqueue_booked settle schedule maybe_compact push_ready set_message heap_push
served_reason = refl

receive_comes_back_example :
    Inevitable (Own (pos 1000) five true) (IsAnswered (pos 1000) five true) served
receive_comes_back_example =
    receive_comes_back (pos 1000) five true (pos 1000000000) empty_queue served served_run
      (unfold check round_ended enter receive_round pop_ready ◌+ℤ◌ in refl) served_reason
