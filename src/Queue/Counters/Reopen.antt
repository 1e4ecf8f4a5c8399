-- ===== src/Queue/Counters/Reopen.antt =====
-- A restart: openQueue of queue.go on the records that the log has accepted in a run of calls.
use text.Mathlib.TextPositions.{eq_refl}
use queuemaxxing.Base.{◌≡◌, refl, sym, List, [], ◌∷◌, ok, arith}
use queuemaxxing.Queue.Clock.{Time}
use queuemaxxing.Queue.Message.{Message}
use queuemaxxing.Queue.Engine.State.{CallEnv, Queue, push_ready, push_delayed, set_message}
use queuemaxxing.Queue.Engine.Calls.{Call}
use queuemaxxing.Queue.Replay.{config_of, Live, revive, revive_all, new_queue, rebuild, open_queue}
use queuemaxxing.Queue.Counters.{SameBooks, IsCounted}
use queuemaxxing.Queue.Counters.Books.{SameBooks-refl, SameBooks-trans}
use queuemaxxing.Queue.Counters.Calls.{run_calls, IsBooked, run_calls-IsBooked}

revive_books : (now : Time) (q : Queue) (m : Message) → SameBooks (revive now q m) q
unfolding revive set_message push_ready push_delayed
revive_books now q m = ground arith

revive_all_books : (now : Time) (q : Queue) (live : Live) → SameBooks (revive_all now q live) q
unfolding revive_all
revive_all_books now q [] = SameBooks-refl q
revive_all_books now q ((_, m) ∷ live) =
    SameBooks-trans _ (revive now q m) q (revive_all_books now (revive now q m) live)
      (revive_books now q m)

-- what openQueue makes of the records that the log of `q` has accepted, with the threshold 0
abbrev pub Reopened : Queue → Time → Type 0
Reopened q now = (q' : Queue) × (open_queue q.name now 0 q.log ≡ ok q') × SameBooks q' q

IsBooked-Reopened : (q : Queue) (now : Time) → IsBooked q → Reopened q now
unfolding open_queue rebuild
IsBooked-Reopened q now b = (
  revive_all now fresh c.state.live,
  rw (c.replayed, open_queue, c.config, rebuild, eq_refl q.name) refl,
  SameBooks-trans _ fresh q (revive_all_books now fresh c.state.live) (record {
    log = refl;
    config = refl;
    next_seq = c.next_seq;
    enqueued = c.enqueued;
    acked = c.acked;
    threshold = sym b.off;
  }),
)
  where
    c : IsCounted q
    c = b.counted

    fresh : Queue
    fresh = new_queue (config_of q) q.log c.state.next_seq c.state.enqueued c.state.acked 0

-- With compaction off, let any calls follow one another, failed calls included, on a queue whose
-- log replays to its configuration and counters. openQueue on the records that the log has accepted
-- then succeeds, and the queue that it gives has the configuration, the sequence floor and the two
-- counters that were in memory.
pub run_calls-Reopened :
    (calls : List (CallEnv × Call)) (q : Queue) (now : Time)
    → IsBooked q
    → Reopened (run_calls calls q) now
run_calls-Reopened calls q now b =
    IsBooked-Reopened (run_calls calls q) now (run_calls-IsBooked calls q b)
