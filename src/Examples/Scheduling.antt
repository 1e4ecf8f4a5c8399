-- ===== src/Examples/Scheduling.antt =====
-- The theorems on the scheduler's goroutine and on a waiting Receive, at runs of a reopened queue.
use queuemaxxing.Base.{◌≡◌, refl, true, false, none, some, [], ◌∷◌, pos, ◌+ℤ◌, Inevitable}
use queuemaxxing.Queue.Clock.{from_millis}
use queuemaxxing.Queue.Engine.State.{lookup}
use queuemaxxing.Queue.Engine.Operations.{
  enqueue_message, enqueue_appended, enqueue_booked, settle, schedule,
}
use queuemaxxing.Queue.Engine.Compact.{maybe_compact}
use queuemaxxing.Queue.Engine.Scheduler.{process_due, promote_due, expire_due, next_due}
use queuemaxxing.Queue.Engine.Calls.{enqueue_call, perform}
use queuemaxxing.Queue.Heap.{heap_push}
use queuemaxxing.Queue.Replay.{message_of, revive_all}
use queuemaxxing.Queue.Places.Calls.{IsFresh}
use queuemaxxing.Queue.Scheduling.Alarm.{Covers}
use queuemaxxing.Queue.Scheduling.Goroutine.{
  System, start, arming, wake, arm, on_kick, Own, wakes, arms, takes_kick, own, calls, is_done,
  Reach, started, later,
}
use queuemaxxing.Queue.Scheduling.Invariant.{IsDrained}
use queuemaxxing.Queue.Scheduling.Safety.{no_lost_wakeup, reset-IsDrained}
use queuemaxxing.Queue.Scheduling.Progress.{IsCaughtUp, overdue_is_processed}
use queuemaxxing.Examples.Queue.{sample_env}
use queuemaxxing.Examples.Places.{reopened, reopened-IsValid, reopened_open}

-- The goroutine has gone to its select, and a client sends a delayed message.
abbrev resting : System
resting = arm none (wake (start (pos 5) reopened))

abbrev sent : System
sent = record resting {
  queue = (perform (sample_env none) (enqueue_call (9 ∷ []) (pos 0) (pos 1000)) resting.queue).1;
}

abbrev rearmed : System
rearmed = arm (some (pos 1000001000)) (wake (on_kick sent))

resting_run : Reach (pos 5) reopened resting
unfolding start wake process_due promote_due expire_due next_due revive_all message_of from_millis
resting_run = later (later started (own (wakes refl))) (own (arms none refl))

resting-IsFresh : IsFresh (sample_env none) resting.queue
unfolding start wake arm process_due promote_due expire_due revive_all message_of from_millis lookup
resting-IsFresh r e = refl

sent_run : Reach (pos 5) reopened sent
sent_run = later resting_run (calls (sample_env none) _ refl resting-IsFresh)

kicked_run : Reach (pos 5) reopened (on_kick sent)
unfolding start wake arm process_due promote_due expire_due revive_all heap_push message_of
    from_millis perform enqueue_message enqueue_appended enqueue_booked settle schedule
    maybe_compact
kicked_run = later sent_run (own (takes_kick refl refl))

woken_run : Reach (pos 5) reopened (wake (on_kick sent))
woken_run = later kicked_run (own (wakes (unfold on_kick in refl)))

woken_arming : (wake (on_kick sent)).phase ≡ arming (some (pos 1000001000))
unfolding start wake arm on_kick process_due promote_due expire_due next_due revive_all heap_push
    message_of from_millis perform enqueue_message enqueue_appended enqueue_booked settle schedule
    maybe_compact ◌+ℤ◌
woken_arming = refl

rearmed_run : Reach (pos 5) reopened rearmed
rearmed_run = later woken_run (own (arms (some (pos 1000001000)) woken_arming))

reopened_writable : reopened.log_open ≡ true
unfolding revive_all message_of from_millis
reopened_writable = refl

rearmed_quiet : rearmed.queue.kick ≡ false
unfolding start wake arm on_kick process_due promote_due expire_due revive_all heap_push message_of
    from_millis perform enqueue_message enqueue_appended enqueue_booked settle schedule
    maybe_compact ◌+ℤ◌
rearmed_quiet = refl

rearmed_unfired : rearmed.timer.fired ≡ false
unfolding start wake arm on_kick
rearmed_unfired = refl

no_lost_wakeup_example : Covers rearmed.timer.due rearmed.queue
no_lost_wakeup_example =
    no_lost_wakeup (pos 5) reopened rearmed reopened-IsValid reopened_open reopened_writable
      rearmed_run (unfold arm in refl) rearmed_quiet rearmed_unfired

reset-IsDrained_example : IsDrained (wake (on_kick sent)).timer
reset-IsDrained_example =
    reset-IsDrained (pos 5) reopened (wake (on_kick sent)) reopened-IsValid reopened_open
      reopened_writable woken_run (some (pos 1000001000)) woken_arming

sent_busy : is_done sent.closing ≡ false
unfolding start wake arm
sent_busy = refl

overdue_is_processed_example : Inevitable Own IsCaughtUp sent
overdue_is_processed_example =
    overdue_is_processed (pos 5) reopened sent reopened-IsValid reopened_open reopened_writable
      sent_run sent_busy
