-- ===== src/Queue/Waiting/Receiver.antt =====
-- Receive of internal/queue/queue.go as steps of a system: its loop, the timer that it sets with
-- time.AfterFunc, and its watcher of the request's context. Between two steps any other goroutine may
-- run. sync.Cond wakes all that wait when it is broadcast.
use queuemaxxing.Base.{◌≡◌, ◌&&◌, Bool, true, false, Option, ℤ, ◌+ℤ◌, Result, if◌then◌else◌}
use queuemaxxing.Queue.Clock.{Time, before, zero_time}
use queuemaxxing.Queue.Message.{Delivery}
use queuemaxxing.Queue.Engine.State.{QueueError, CallEnv, Queue, broadcast}
use queuemaxxing.Queue.Engine.Operations.{
  is_positive, Round, returned, waits, receive_round, mark_closed, finish_close,
}
use queuemaxxing.Queue.Engine.Calls.{Call, perform}

-- Where the call is: about to test in its loop, in Wait, or back with what it returned.
pub data Place : Type 0 where
  checking asleep : Place
  answered : Result QueueError (Option Delivery) → Place

-- `signalled` of the queue says that the condition variable was broadcast since the call went to
-- sleep. `timer_pending` and `watching` say that the timer's and the watcher's broadcast is to come.
pub record Receiver : Type 0 where
  pub queue : Queue
  pub clock : Time
  pub deadline : Time
  pub place : Place
  pub timer_pending : Bool
  pub watching : Bool
  pub cancelled : Bool

-- What the call is given: its durations, and whether its context can be cancelled.
module _ (visibility wait : ℤ) (cancellable : Bool) where
  -- Receive up to its loop
  unfoldable pub enter : Time → Queue → Receiver
  enter now q = record {
    queue = q;
    clock = now;
    deadline = if is_positive wait then now +ℤ wait else zero_time;
    place = checking;
    timer_pending = is_positive wait;
    watching = is_positive wait && cancellable;
    cancelled = false;
  }

  -- what a round of the loop comes to; the deferred calls stop the timer and the watcher
  unfoldable pub round_ended : Round → Queue → Receiver → Receiver
  round_ended (returned r) q s = record s {
    queue = q;
    place = answered r;
    timer_pending = false;
    watching = false;
  }
  round_ended waits q s = record s { queue = record q { signalled = false }; place = asleep }

  unfoldable pub check : CallEnv → Receiver → Receiver
  unfolding round_ended
  check env s =
      let (round, q) = receive_round env visibility wait s.deadline s.cancelled s.queue in
      round_ended round q s

  unfoldable pub ring : Receiver → Receiver
  ring s = record s { queue = broadcast s.queue; timer_pending = false }

  unfoldable pub warn : Receiver → Receiver
  warn s = record s { queue = broadcast s.queue; watching = false }

  -- What the call, its timer and its watcher do of themselves.
  pub data Own (s : Receiver) : Receiver → Type 0 where
    checks : (env : CallEnv) → s.place ≡ checking → env.now ≡ s.clock → Own s (check env s)
    resumes : s.place ≡ asleep → s.queue.signalled ≡ true → Own s (record s { place = checking })
    rings : s.timer_pending ≡ true → before s.clock s.deadline ≡ false → Own s (ring s)
    warns : s.watching ≡ true → s.cancelled ≡ true → Own s (warn s)

  -- A step of anyone: the clock moves on, the context is cancelled, another call runs in whole, a
  -- round of the scheduler included, or the queue is closed.
  pub data Step (s : Receiver) : Receiver → Type 0 where
    own : {s' : Receiver} → Own s s' → Step s s'
    ticks : (t : Time) → before t s.clock ≡ false → Step s (record s { clock = t })
    cancels : cancellable ≡ true → Step s (record s { cancelled = true })
    calls : (env : CallEnv) (c : Call) → Step s (record s { queue = (perform env c s.queue).1 })
    marks : Step s (record s { queue = mark_closed s.queue })
    closes : (env : CallEnv) → Step s (record s { queue = finish_close env s.queue })

  pub data Reach (now : Time) (q : Queue) : Receiver → Type 0 where
    entered : Reach now q (enter now q)
    later : {s s' : Receiver} → Reach now q s → Step s s' → Reach now q s'
