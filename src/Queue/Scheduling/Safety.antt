-- ===== src/Queue/Scheduling/Safety.antt =====
-- What the scheduler's goroutine promises to the queue, and how it treats its timer.
use queuemaxxing.Base.{◌≡◌, Bool, true, false, Option, arith}
use queuemaxxing.Queue.Clock.{Time}
use queuemaxxing.Queue.Engine.State.{Queue}
use queuemaxxing.Queue.Places.{IsValid}
use queuemaxxing.Queue.Scheduling.Alarm.{Covers}
use queuemaxxing.Queue.Scheduling.Goroutine.{Timer, arming, selecting, System, Reach}
use queuemaxxing.Queue.Scheduling.Invariant.{IsDrained, Resting, off, running, rung, Fits, IsSound}
use queuemaxxing.Queue.Scheduling.Sound.{selected, Reach-IsSound}

module _ (now : Time) (q : Queue) (s : System) (v : IsValid q) (open_ : q.closed ≡ false)
    (writable : q.log_open ≡ true) (run : Reach now q s) where
  sound : IsSound s
  sound = Reach-IsSound now q s v open_ writable run

  -- Whatever calls of clients, ticks of the clock, failures and steps of Close run between the steps of
  -- the scheduler that was started on a queue in order: while its goroutine is in its select, no kick is
  -- pending and the timer has not fired, the timer runs and is due no later than any delayed message
  -- becomes available and any delivery expires, or nothing is delayed or delivered.
  pub no_lost_wakeup :
      s.phase ≡ selecting
      → s.queue.kick ≡ false
      → s.timer.fired ≡ false
      → Covers s.timer.due s.queue
  no_lost_wakeup at quiet unfired =
      resting s.timer s.armed s.queue (selected s sound at) quiet unfired
    where
      resting :
          (timer : Timer) (armed : Bool) (r : Queue)
          → Resting timer armed r
          → r.kick ≡ false
          → timer.fired ≡ false
          → Covers timer.due r
      resting timer armed r (off d a w) quiet unfired = rw d.0 (w quiet)
      resting timer armed r (running t d n a w) quiet unfired = rw d (w quiet)
      resting timer armed r (rung d f a) quiet unfired = absurd (ground arith)

  -- Along any such run, the goroutine resets its timer only where it neither runs nor has a value
  -- in its channel.
  pub reset-IsDrained : (next : Option Time) → s.phase ≡ arming next → IsDrained s.timer
  reset-IsDrained next at =
      let f : Fits (arming next) s.timer s.armed s.queue = rw at at sound.fits in f.0
