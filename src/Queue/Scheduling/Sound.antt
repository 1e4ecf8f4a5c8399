-- ===== src/Queue/Scheduling/Sound.antt =====
-- The steps of the scheduler, of its timer, of Close and of the clients keep what holds between them.
use queuemaxxing.Base.{◌≡◌, ◌≢◌, refl, sym, ◌∙◌, Bool, true, false, Option, none, some, arith}
use queuemaxxing.Queue.Clock.{Time}
use queuemaxxing.Queue.Engine.State.{Queue}
use queuemaxxing.Queue.Engine.Operations.{mark_closed}
use queuemaxxing.Queue.Engine.Scheduler.{process_due}
use queuemaxxing.Queue.Engine.Calls.{perform}
use queuemaxxing.Queue.Places.{IsValid}
use queuemaxxing.Queue.Places.Awake.{process_due-IsAwake}
use queuemaxxing.Queue.Places.Calls.{perform-Performed}
use queuemaxxing.Queue.Places.Reach.{performed-IsValid}
use queuemaxxing.Queue.Manager.Identity.{perform-Alike, process_due-Alike}
use queuemaxxing.Queue.Scheduling.Clients.{perform-Watched}
use queuemaxxing.Queue.Scheduling.Goroutine.{
  Timer, stop_timer, Phase, waking, arming, selecting, stopped, is_done, System, start, wake, arm,
  on_timer, on_kick, on_done, fire, Own, wakes, arms, takes_timer, takes_kick, takes_done, fires,
  Step, own, ticks, calls, marks, announces, finishes, Reach, started, later,
}
use queuemaxxing.Queue.Scheduling.Invariant.{
  IsDrained, Resting, off, running, rung, Fits, IsSound, IsValid-marked, finish_close-IsValid,
  finish_close-closed, awake-Covers, Fits-queue, Resting-stopped,
}

module _ (s : System) (i : IsSound s) where
  -- where a goroutine that is somewhere else cannot be gone
  not_gone :
      (p : Phase) (q' : Queue)
      → s.phase ≡ p
      → p ≢ stopped
      → q'.log_open ≡ s.queue.log_open
      → (p' : Phase) → q'.log_open ≡ false
      → p' ≡ stopped
  not_gone p q' at other same p' shut = absurd (other (sym at ∙ i.ended (sym same ∙ shut)))

  wake-IsSound : s.phase ≡ waking → IsSound (wake s)
  unfolding wake
  wake-IsSound at =
      let done = process_due-IsAwake s.clock s.queue i.valid in
      let alike = process_due-Alike s.clock s.queue in
      let f : Fits waking s.timer s.armed s.queue = rw at at i.fits in
      record {
        valid = done.0.valid;
        fits = (f.0, f.1, λ quiet. awake-Covers s.clock _ _ done.1);
        unclosed = λ open_. i.unclosed (sym alike.1 ∙ open_);
        ended = not_gone waking (process_due s.clock s.queue).1 at (λ e. cc) alike.2 _;
        gone = λ e. cc;
      }

  arm-IsSound : (next : Option Time) → s.phase ≡ arming next → IsSound (arm next s)
  unfolding arm
  arm-IsSound none at =
      let f : Fits (arming none) s.timer s.armed s.queue = rw at at i.fits in
      record {
        valid = i.valid;
        fits = off f.0 f.1 f.2;
        unclosed = i.unclosed;
        ended = not_gone (arming none) s.queue at (λ e. cc) refl _;
        gone = λ e. cc;
      }
  arm-IsSound (some t) at =
      let f : Fits (arming (some t)) s.timer s.armed s.queue = rw at at i.fits in
      record {
        valid = i.valid;
        fits = running t refl f.0.1 refl f.2;
        unclosed = i.unclosed;
        ended = not_gone (arming (some t)) s.queue at (λ e. cc) refl _;
        gone = λ e. cc;
      }

  pub selected : s.phase ≡ selecting → Resting s.timer s.armed s.queue
  selected at = rw at at i.fits

  pub rung_due :
      (timer : Timer) (armed : Bool) (q : Queue)
      → Resting timer armed q
      → timer.fired ≡ true
      → timer.due ≡ none
  rung_due timer armed q (off d a w) f = cc
  rung_due timer armed q (running t d n a w) f = cc
  rung_due timer armed q (rung d _ a) f = d

  on_timer-IsSound : s.phase ≡ selecting → s.timer.fired ≡ true → IsSound (on_timer s)
  unfolding on_timer
  on_timer-IsSound at fired = record {
    valid = i.valid;
    fits = ((rung_due s.timer s.armed s.queue (selected at) fired, refl), refl);
    unclosed = i.unclosed;
    ended = not_gone selecting s.queue at (λ e. cc) refl _;
    gone = λ e. cc;
  }

  on_kick-IsSound : s.phase ≡ selecting → IsSound (on_kick s)
  unfolding on_kick
  on_kick-IsSound at = record {
    valid =
        IsValid-marked s.queue false s.queue.closed s.queue.signalled s.queue.log_open s.queue.log
          i.valid;
    fits = (Resting-stopped s.timer s.armed s.queue (selected at), refl);
    unclosed = i.unclosed;
    ended = not_gone selecting s.queue at (λ e. cc) refl _;
    gone = λ e. cc;
  }

  on_done-IsSound : s.phase ≡ selecting → is_done s.closing ≡ true → IsSound (on_done s)
  unfolding on_done
  on_done-IsSound at done = record {
    valid = i.valid;
    fits = Resting-stopped s.timer s.armed s.queue (selected at);
    unclosed = i.unclosed;
    ended = λ shut. refl;
    gone = λ e. done;
  }

  -- only a timer that is running fires
  fired-Fits :
      (p : Phase) (t : Time)
      → s.timer.due ≡ some t
      → Fits p s.timer s.armed s.queue
      → Fits p (record { due = none; fired = true }) s.armed s.queue
  fired-Fits waking t due f = absurd (ground (arith, f.0.0))
  fired-Fits (arming next) t due f = absurd (ground (arith, f.0.0))
  fired-Fits selecting t due (off d a w) = absurd (ground (arith, d.0))
  fired-Fits selecting t due (running _ _ _ a w) = rung refl refl a
  fired-Fits selecting t due (rung d f a) = absurd (ground arith)
  fired-Fits stopped t due f = absurd (ground (arith, f.0))

  fire-IsSound : (t : Time) → s.timer.due ≡ some t → IsSound (fire s)
  unfolding fire
  fire-IsSound t due = record {
    valid = i.valid;
    fits = fired-Fits s.phase t due i.fits;
    unclosed = i.unclosed;
    ended = i.ended;
    gone = i.gone;
  }

pub Own-IsSound : (s s' : System) → IsSound s → Own s s' → IsSound s'
Own-IsSound s _ i (wakes at) = wake-IsSound s i at
Own-IsSound s _ i (arms next at) = arm-IsSound s i next at
Own-IsSound s _ i (takes_timer at fired) = on_timer-IsSound s i at fired
Own-IsSound s _ i (takes_kick at kick) = on_kick-IsSound s i at
Own-IsSound s _ i (takes_done at done) = on_done-IsSound s i at done
Own-IsSound s _ i (fires t due now) = fire-IsSound s i t due

Step-IsSound : (s s' : System) → IsSound s → Step s s' → IsSound s'
Step-IsSound s s' i (own o) = Own-IsSound s s' i o
Step-IsSound s _ i (ticks t on) = record {
  gone = i.gone;
  valid = i.valid;
  fits = i.fits;
  unclosed = i.unclosed;
  ended = i.ended;
}
Step-IsSound s _ i (calls env c client fresh) =
    let alike = perform-Alike env c s.queue in
    record {
      valid =
          performed-IsValid c s.queue (perform env c s.queue) i.valid
            (perform-Performed env c s.queue i.valid fresh);
      fits =
          Fits-queue s.phase s.timer s.armed s.queue _
            (λ alarm. perform-Watched alarm env c s.queue i.valid fresh client) i.fits;
      unclosed = λ open_. i.unclosed (sym alike.1 ∙ open_);
      ended = λ shut. i.ended (sym alike.2 ∙ shut);
      gone = i.gone;
    }
Step-IsSound s _ i (marks open_) = record {
  gone = λ e. absurd (ground (arith, i.gone e, i.unclosed open_));
  valid = IsValid-marked s.queue s.queue.kick true true s.queue.log_open s.queue.log i.valid;
  fits = Fits-queue s.phase s.timer s.armed s.queue (mark_closed s.queue) (λ alarm w. w) i.fits;
  unclosed = λ e. cc;
  ended = i.ended;
}
Step-IsSound s _ i (announces at) = record {
  gone = λ e. refl;
  valid = i.valid;
  fits = i.fits;
  unclosed = λ open_. absurd (ground (arith, i.unclosed open_));
  ended = i.ended;
}
Step-IsSound s _ i (finishes env at gone) = record {
  valid = finish_close-IsValid env s.queue i.valid;
  fits = let f : IsDrained s.timer = rw gone at i.fits in rw gone f;
  unclosed =
      λ open_. absurd (ground (arith, i.unclosed (sym (finish_close-closed env s.queue) ∙ open_)));
  ended = λ shut. gone;
  gone = λ e. refl;
}

-- The start of a scheduler on a queue that is in order and open, and any steps since: the queue is in
-- order and the timer drained, off, running or fired as the goroutine's place wants it.
pub Reach-IsSound :
    (now : Time) (q : Queue) (s : System)
    → IsValid q
    → q.closed ≡ false
    → q.log_open ≡ true
    → Reach now q s
    → IsSound s
unfolding start
Reach-IsSound now q _ v open_ writable started = record {
  valid = IsValid-marked q false q.closed q.signalled q.log_open q.log v;
  fits = unfold stop_timer in ((refl, refl), refl);
  unclosed = λ e. refl;
  ended = λ shut. absurd (ground arith);
  gone = λ e. cc;
}
Reach-IsSound now q s' v open_ writable (later {s = s} before step) =
    Step-IsSound s s' (Reach-IsSound now q s v open_ writable before) step
