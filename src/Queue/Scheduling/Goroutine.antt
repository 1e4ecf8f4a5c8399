-- ===== src/Queue/Scheduling/Goroutine.antt =====
-- start, runScheduler and stopTimer of internal/queue/scheduler.go, and Close of
-- internal/queue/queue.go, as steps of a system. Between two steps any other goroutine may run.
use queuemaxxing.Base.{
  ◌*◌, ◌^◌, ◌≡◌, Bool, true, false, Option, none, some, pos, ◌+ℤ◌, if◌then◌else◌,
}
use queuemaxxing.Queue.Clock.{Time, before, after}
use queuemaxxing.Queue.Engine.State.{CallEnv, Queue}
use queuemaxxing.Queue.Engine.Operations.{mark_closed, finish_close}
use queuemaxxing.Queue.Engine.Scheduler.{process_due}
use queuemaxxing.Queue.Engine.Calls.{Call, perform}
use queuemaxxing.Queue.Places.Calls.{IsFresh}
use queuemaxxing.Queue.Scheduling.Clients.{is_client}

-- time.Timer: when it fires, if it runs, and whether its channel holds a value
pub record Timer : Type 0 where
  pub due : Option Time
  pub fired : Bool

-- Timer.Reset
abbrev pub reset : Time → Timer → Timer
reset t timer = record timer { due = some t }

-- Stop reports true where the timer was running; otherwise the channel is drained
unfoldable pub stop_timer : Timer → Timer
stop_timer timer = elim timer.due [
  | some _ ↦ record timer { due = none }
  | none ↦ record { due = none; fired = false }
]

-- Where the goroutine is: about to lock the queue, behind processDue with what it returned, in the
-- select, or gone.
pub data Phase : Type 0 where
  waking : Phase
  arming : Option Time → Phase
  selecting stopped : Phase

-- Close: not called, behind its first critical section, behind close(q.done), or returned.
pub data Closing : Type 0 where
  not_closing marked joining finished : Closing

pub record System : Type 0 where
  pub queue : Queue
  pub clock : Time
  pub timer : Timer
  pub armed : Bool
  pub phase : Phase
  pub closing : Closing

abbrev pub is_done : Closing → Bool
is_done joining = true
is_done finished = true
is_done _ = false

abbrev pub an_hour : Time
an_hour = pos (3600 * 10 ^ 9)

-- start, and the goroutine up to its loop
unfoldable pub start : Time → Queue → System
unfolding stop_timer
start now q = record {
  queue = record q { kick = false };
  clock = now;
  timer = stop_timer (record { due = some (now +ℤ an_hour); fired = false });
  armed = false;
  phase = waking;
  closing = not_closing;
}

-- the locked part of a round
unfoldable pub wake : System → System
wake s = record s {
  queue = (process_due s.clock s.queue).1;
  phase = arming (process_due s.clock s.queue).0;
}

unfoldable pub arm : Option Time → System → System
arm none s = record s { phase = selecting }
arm (some next) s = record s { timer = reset next s.timer; armed = true; phase = selecting }

abbrev pub stop_if_armed : System → Timer
stop_if_armed s = if s.armed then stop_timer s.timer else s.timer

-- the cases of the select
unfoldable pub on_timer : System → System
on_timer s = record s { timer = record s.timer { fired = false }; armed = false; phase = waking }

unfoldable pub on_kick : System → System
unfolding stop_timer
on_kick s = record s {
  queue = record s.queue { kick = false };
  timer = stop_if_armed s;
  armed = false;
  phase = waking;
}

unfoldable pub on_done : System → System
unfolding stop_timer
on_done s = record s { timer = stop_if_armed s; phase = stopped }

unfoldable pub fire : System → System
fire s = record s { timer = record { due = none; fired = true } }

-- What the goroutine and its timer do of themselves. The select takes any case that is ready.
pub data Own (s : System) : System → Type 0 where
  wakes : s.phase ≡ waking → Own s (wake s)
  arms : (next : Option Time) → s.phase ≡ arming next → Own s (arm next s)
  takes_timer : s.phase ≡ selecting → s.timer.fired ≡ true → Own s (on_timer s)
  takes_kick : s.phase ≡ selecting → s.queue.kick ≡ true → Own s (on_kick s)
  takes_done : s.phase ≡ selecting → is_done s.closing ≡ true → Own s (on_done s)
  fires : (t : Time) → s.timer.due ≡ some t → after t s.clock ≡ false → Own s (fire s)

-- A step of anyone: the clock moves on, a client's call runs in whole, or Close goes on. Close
-- waits for the goroutine before it closes the log.
pub data Step (s : System) : System → Type 0 where
  own : {s' : System} → Own s s' → Step s s'
  ticks : (t : Time) → before t s.clock ≡ false → Step s (record s { clock = t })
  calls :
      (env : CallEnv) (c : Call)
      → is_client c ≡ true
      → IsFresh env s.queue
      → Step s (record s { queue = (perform env c s.queue).1 })
  marks :
      s.queue.closed ≡ false → Step s (record s { queue = mark_closed s.queue; closing = marked })
  announces : s.closing ≡ marked → Step s (record s { closing = joining })
  finishes :
      (env : CallEnv)
      → s.closing ≡ joining
      → s.phase ≡ stopped
      → Step s (record s { queue = finish_close env s.queue; closing = finished })

-- From the start on a queue that is open.
pub data Reach (now : Time) (q : Queue) : System → Type 0 where
  started : Reach now q (start now q)
  later : {s s' : System} → Reach now q s → Step s s' → Reach now q s'
