-- ===== src/Queue/Counters.antt =====
-- The counters in memory are those that the log replays to.
pub mod Books
pub mod Calls
pub mod Reopen
use queuemaxxing.Base.{
  ℕ, zero, suc, ◌+◌, ◌%◌, ◌^◌, ◌≡◌, refl, sym, ap, ◌∙◌, String, Bool, true, false, Option, none,
  some, Option-cases, Bool-cases, inl, inr, List, [], ◌∷◌, ◌++◌, ℤ, pos, ◌+ℤ◌, leb, le→leb, ==_refl,
  ◌==◌, if◌then◌else◌, length, Result, ok, err, arith,
}
use queuemaxxing.Storage.Record.{Record, enqueue, ack, nack}
use queuemaxxing.Storage.Recovery.Replay.{apply_all, apply_all-concat}
use queuemaxxing.Queue.Message.{Message, Delivery}
use queuemaxxing.Queue.Heap.{peek}
use queuemaxxing.Queue.Engine.State.{
  QueueError, entropy_failed, CallEnv, Queue, lookup, add_uint64, broadcast, push_ready,
  push_delayed, set_message, remove_expiry,
}
use queuemaxxing.Queue.Engine.Compact.{maybe_compact}
use queuemaxxing.Queue.Engine.Operations.{
  schedule, settle, enqueue_record, enqueue_booked, nack_booked, enqueue_appended, enqueue_message,
  ack_found, ack_message, nack_found, nack_message, pop_with, pop_ready, receive_round,
}
use queuemaxxing.Queue.Engine.Scheduler.{promote, expire, promote_due, expire_due, process_due}
use queuemaxxing.Queue.Engine.Calls.{Call, enqueue_call, ack_call, nack_call, error_of, perform}
use queuemaxxing.Queue.Replay.{
  config_of, Replayed, replay_start, ReplayError, put_live, delete_live, delay_live, message_of,
  replay_record,
}
use queuemaxxing.Queue.Clock.{Time, after, to_millis, from_millis}

-- The same log, configuration, counters and threshold.
pub record SameBooks (q r : Queue) : Type 0 where
  pub log : q.log ≡ r.log
  pub config : config_of q ≡ config_of r
  pub next_seq : q.next_seq ≡ r.next_seq
  pub enqueued : q.enqueued ≡ r.enqueued
  pub acked : q.acked ≡ r.acked
  pub threshold : q.compact_threshold ≡ r.compact_threshold

-- The log replays without error to the queue's configuration, counters and sequence floor.
pub record IsCounted (q : Queue) : Type 0 where
  pub state : Replayed
  pub replayed : apply_all replay_record q.log replay_start ≡ ok state
  pub config : state.config ≡ some (config_of q)
  pub next_seq : state.next_seq ≡ q.next_seq
  pub enqueued : state.enqueued ≡ q.enqueued
  pub acked : state.acked ≡ q.acked

pub SameBooks-IsCounted : (q r : Queue) → SameBooks q r → IsCounted r → IsCounted q
SameBooks-IsCounted q r s c = record {
  state = c.state;
  replayed = ap (λ l. apply_all replay_record l replay_start) s.log ∙ c.replayed;
  config = c.config ∙ ap some (sym s.config);
  next_seq = c.next_seq ∙ sym s.next_seq;
  enqueued = c.enqueued ∙ sym s.enqueued;
  acked = c.acked ∙ sym s.acked;
}

pub settle_books : (q : Queue) (p : ℕ) (d : ℤ) → SameBooks (broadcast (schedule q p d)) q
unfolding schedule
settle_books q p d = ground arith

module _ (env : CallEnv) where
  maybe_compact-IsCounted :
      (q : Queue) → q.compact_threshold ≡ 0 → IsCounted q → IsCounted (maybe_compact env q)
  unfolding maybe_compact
  maybe_compact-IsCounted q off c =
      let z : (q.compact_threshold == 0) ≡ true = ground arith in simp (z, maybe_compact) c

  pub settle-IsCounted :
      (p : ℕ) (d : ℤ) (q : Queue)
      → q.compact_threshold ≡ 0
      → IsCounted q
      → IsCounted (settle env p d q)
  unfolding settle
  settle-IsCounted p d q off c =
      maybe_compact-IsCounted (broadcast (schedule q p d)) ((settle_books q p d).threshold ∙ off)
        (SameBooks-IsCounted _ q (settle_books q p d) c)

module _ (env : CallEnv) (q : Queue) (off : q.compact_threshold ≡ 0) (c : IsCounted q) where
  -- the books of the log's next record
  booked :
      (r : Record) (st : Replayed)
      → replay_record r c.state ≡ ok st
      → apply_all replay_record (q.log ++ r ∷ []) replay_start ≡ ok st
  booked r st one = apply_all-concat replay_record q.log r replay_start c.state st c.replayed one

  pub enqueue_booked-IsCounted :
      (body : List ℕ) (priority delay : ℤ) (id : String)
      → IsCounted (enqueue_booked env body priority delay id q)
  unfolding enqueue_booked set_message replay_record
  enqueue_booked-IsCounted body priority delay id = record {
    state = record c.state {
      live =
          put_live id
            (message_of (enqueue_record id q.next_seq priority body env.now (env.now +ℤ delay)))
            c.state.live;
      next_seq = add_uint64 q.next_seq 1;
      enqueued = add_uint64 c.state.enqueued 1;
    };
    replayed = booked _ _ (rw (le→leb c.state.next_seq q.next_seq (omega (arith, c.next_seq))));
    config = c.config;
    next_seq = refl;
    enqueued = ap (λ n. add_uint64 n 1) c.enqueued;
    acked = c.acked;
  }

  pub ack_found-IsCounted : (r : String) (p : ℕ) → IsCounted (ack_found env r p q)
  unfolding ack_found remove_expiry replay_record
  ack_found-IsCounted r p = maybe_compact-IsCounted env _ off (record {
    state = record c.state {
      live = delete_live (q.store p).id c.state.live;
      acked = add_uint64 c.state.acked 1;
    };
    replayed = booked _ _ refl;
    config = c.config;
    next_seq = c.next_seq;
    enqueued = c.enqueued;
    acked = ap (λ n. add_uint64 n 1) c.acked;
  })

  pub nack_booked-IsCounted :
      (r : String) (p : ℕ) (delay : ℤ) → IsCounted (nack_booked env r p delay q)
  unfolding nack_booked remove_expiry set_message replay_record
  nack_booked-IsCounted r p delay = record {
    state = record c.state {
      live = delay_live (q.store p).id (from_millis (to_millis (env.now +ℤ delay))) c.state.live;
    };
    replayed = booked _ _ refl;
    config = c.config;
    next_seq = c.next_seq;
    enqueued = c.enqueued;
    acked = c.acked;
  }
