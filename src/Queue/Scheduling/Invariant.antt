-- ===== src/Queue/Scheduling/Invariant.antt =====
-- What holds of the scheduler's goroutine and its timer between any two steps.
use queuemaxxing.Base.{
  ◌≡◌, refl, ap, Bool, true, false, Bool-cases, inl, inr, Option, none, some, List, count, ◌==◌,
  arith, if◌then◌else◌,
}
use queuemaxxing.Storage.Record.{Record}
use queuemaxxing.Queue.Clock.{Time}
use queuemaxxing.Queue.Engine.State.{CallEnv, Queue}
use queuemaxxing.Queue.Engine.Compact.{compact_locked}
use queuemaxxing.Queue.Engine.Operations.{finish_close}
use queuemaxxing.Queue.Places.{IsValid}
use queuemaxxing.Queue.Places.Steps.{compact_locked-keeps}
use queuemaxxing.Queue.Places.Wakeup.{IsAwake}
use queuemaxxing.Queue.Scheduling.Alarm.{Covers, Watched}
use queuemaxxing.Queue.Scheduling.Goroutine.{
  Timer, stop_timer, Phase, waking, arming, selecting, stopped, not_closing, is_done, System,
}

-- neither running nor with a value in its channel
abbrev pub IsDrained : Timer → Type 0
IsDrained timer = (timer.due ≡ none) × (timer.fired ≡ false)

-- The goroutine in its select: with the timer off, running or fired.
pub data Resting (timer : Timer) (armed : Bool) (q : Queue) : Type 0 where
  off : IsDrained timer → armed ≡ false → Watched none q → Resting timer armed q
  running :
      (t : Time)
      → timer.due ≡ some t
      → timer.fired ≡ false
      → armed ≡ true
      → Watched (some t) q
      → Resting timer armed q
  rung : timer.due ≡ none → timer.fired ≡ true → armed ≡ true → Resting timer armed q

abbrev pub Fits : Phase → Timer → Bool → Queue → Type 0
Fits waking timer armed q = IsDrained timer × (armed ≡ false)
Fits (arming next) timer armed q = IsDrained timer × (armed ≡ false) × Watched next q
Fits selecting timer armed q = Resting timer armed q
Fits stopped timer armed q = IsDrained timer

pub record IsSound (s : System) : Type 0 where
  pub valid : IsValid s.queue
  pub fits : Fits s.phase s.timer s.armed s.queue
  pub unclosed : s.queue.closed ≡ false → s.closing ≡ not_closing
  pub ended : s.queue.log_open ≡ false → s.phase ≡ stopped
  pub gone : s.phase ≡ stopped → is_done s.closing ≡ true

pub IsValid-marked :
    (q : Queue) (kick closed signalled log_open : Bool) (l : List Record)
    → IsValid q
    → IsValid (record q {
      kick = kick;
      closed = closed;
      signalled = signalled;
      log_open = log_open;
      log = l;
    })
IsValid-marked q kick closed signalled log_open l v = record {
  placed = v.placed;
  received = v.received;
  unused = v.unused;
}

pub finish_close-IsValid : (env : CallEnv) (q : Queue) → IsValid q → IsValid (finish_close env q)
unfolding compact_locked
finish_close-IsValid env q v = elim (Bool-cases (q.compact_threshold == 0)) [
  | inl e ↦ simp e (IsValid-marked q q.kick q.closed q.signalled false q.log v)
  | inr e ↦ simp e (
      let v' =
        compact_locked-keeps IsValid env q v
          (λ l. IsValid-marked q q.kick q.closed q.signalled q.log_open l v) in
      let r = (compact_locked env q).1 in
      IsValid-marked r r.kick r.closed r.signalled false r.log v')
]

pub finish_close-closed : (env : CallEnv) (q : Queue) → (finish_close env q).closed ≡ q.closed
unfolding compact_locked
finish_close-closed env q = ground arith

-- what processDue names serves all that it leaves
pub awake-Covers :
    (now : Time) (next : Option Time) (q : Queue) → IsAwake now next q → Covers next q
awake-Covers now none q awake =
    let (no_delays, no_deliveries) = awake.idle refl in
    record {
      delays = λ a inside. absurd (omega (arith, ap (count a) no_delays));
      deliveries = λ a inside. absurd (omega (arith, ap (count a) no_deliveries));
    }
awake-Covers now (some t) q awake = record {
  delays = λ a inside. ground (arith, awake.before_delays t refl a inside);
  deliveries = λ a inside. ground (arith, awake.before_deliveries t refl a inside);
}

pub Fits-queue :
    (p : Phase) (timer : Timer) (armed : Bool) (q q' : Queue)
    → ((alarm : Option Time) → Watched alarm q → Watched alarm q')
    → Fits p timer armed q
    → Fits p timer armed q'
Fits-queue waking timer armed q q' keep f = f
Fits-queue (arming next) timer armed q q' keep f = (f.0, f.1, keep next f.2)
Fits-queue selecting timer armed q q' keep (off d a w) = off d a (keep none w)
Fits-queue selecting timer armed q q' keep (running t d n a w) = running t d n a (keep (some t) w)
Fits-queue selecting timer armed q q' keep (rung d f a) = rung d f a
Fits-queue stopped timer armed q q' keep f = f

-- stopping the timer of a select leaves it drained
pub Resting-stopped :
    (timer : Timer) (armed : Bool) (q : Queue)
    → Resting timer armed q
    → IsDrained (if armed then stop_timer timer else timer)
unfolding stop_timer
Resting-stopped timer armed q (off d a w) = rw a d
Resting-stopped timer armed q (running t d n a w) = rw a (simp (d, stop_timer) (refl, n))
Resting-stopped timer armed q (rung d f a) = rw a (simp (d, stop_timer) (refl, refl))
