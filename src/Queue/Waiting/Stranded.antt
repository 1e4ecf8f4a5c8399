-- ===== src/Queue/Waiting/Stranded.antt =====
-- Receive of internal/queue/queue.go does not sleep past what it waits for.
use queuemaxxing.Base.{◌≡◌, refl, Bool, true, false, [], ℤ, arith}
use queuemaxxing.Queue.Clock.{Time, before}
use queuemaxxing.Queue.Engine.State.{Queue}
use queuemaxxing.Queue.Engine.Operations.{mark_closed}
use queuemaxxing.Queue.Waiting.Lull.{perform-Quiet, finish_close-Quiet}
use queuemaxxing.Queue.Waiting.Receiver.{
  asleep, Receiver, Own, checks, resumes, rings, warns, Step, own, ticks, cancels, calls, marks,
  closes, Reach, entered, later,
}
use queuemaxxing.Queue.Waiting.Asleep.{
  IsSound, enter-IsSound, check-IsSound, resumed-IsSound, ring-IsSound, warn-IsSound, queue-IsSound,
}

module _ (visibility wait : ℤ) (cancellable : Bool) where
  pub Own-IsSound :
      (s s' : Receiver)
      → IsSound visibility wait cancellable s
      → Own visibility wait cancellable s s'
      → IsSound visibility wait cancellable s'
  Own-IsSound s _ i (checks env at same) = check-IsSound visibility wait cancellable s i env at same
  Own-IsSound s _ i (resumes at told) = resumed-IsSound visibility wait cancellable s i at
  Own-IsSound s _ i (rings armed late) = ring-IsSound visibility wait cancellable s i late
  Own-IsSound s _ i (warns on gone) = warn-IsSound visibility wait cancellable s i gone

  Step-IsSound :
      (s s' : Receiver)
      → IsSound visibility wait cancellable s
      → Step visibility wait cancellable s s'
      → IsSound visibility wait cancellable s'
  Step-IsSound s s' i (own o) = Own-IsSound s s' i o
  Step-IsSound s _ i (ticks t on) = record {
    lull = i.lull;
    ringing = i.ringing;
    rung = λ p w h. ground (arith, i.rung p w h);
    warning = i.warning;
    warned = i.warned;
    patient = i.patient;
    stoppable = i.stoppable;
  }
  Step-IsSound s _ i (cancels can) = record {
    lull = i.lull;
    ringing = i.ringing;
    rung = i.rung;
    warning = i.warning;
    warned = λ p c w h. refl;
    patient = i.patient;
    stoppable = λ e. can;
  }
  Step-IsSound s _ i (calls env c) =
      queue-IsSound visibility wait cancellable s i _ (perform-Quiet env c s.queue)
  Step-IsSound s _ i marks =
      queue-IsSound visibility wait cancellable s i (mark_closed s.queue) (λ quiet. cc)
  Step-IsSound s _ i (closes env) =
      queue-IsSound visibility wait cancellable s i _ (finish_close-Quiet env s.queue)

  pub Reach-IsSound :
      (now : Time) (q : Queue) (s : Receiver)
      → Reach visibility wait cancellable now q s
      → IsSound visibility wait cancellable s
  Reach-IsSound now q _ entered = enter-IsSound visibility wait cancellable now q
  Reach-IsSound now q s' (later {s = s} before step) =
      Step-IsSound s s' (Reach-IsSound now q s before) step

-- Whatever other calls, rounds of the scheduler, ticks of the clock, cancellations and closings of the
-- queue run between the steps of a Receive: while it sleeps and the condition variable has not been
-- broadcast since, no message is ready, the queue is open, its timer has its broadcast still before it,
-- and so has the watcher of a context that can be cancelled.
pub no_stranded_receive :
    (visibility wait : ℤ) (cancellable : Bool) (now : Time) (q : Queue) (s : Receiver)
    → Reach visibility wait cancellable now q s
    → s.place ≡ asleep
    → s.queue.signalled ≡ false
    → (s.queue.ready ≡ [])
      × (s.queue.closed ≡ false)
      × (s.timer_pending ≡ true)
      × (cancellable ≡ true → s.watching ≡ true)
no_stranded_receive visibility wait cancellable now q s run at quiet =
    let i = Reach-IsSound visibility wait cancellable now q s run in
    let lull = i.lull at quiet in (lull.0, lull.1, i.ringing at quiet, i.warning at quiet)
