-- ===== src/Queue/Counters/Books.antt =====
-- The calls of queue.go and scheduler.go that write no record leave the books alone.
use queuemaxxing.Base.{
  ℕ, zero, suc, refl, ◌∙◌, String, Bool, true, false, Option, none, some, Bool-cases, inl, inr, ℤ,
  pos, ◌==◌, if◌then◌else◌, length, Result, ok, err, arith,
}
use queuemaxxing.Queue.Message.{Delivery}
use queuemaxxing.Queue.Heap.{peek}
use queuemaxxing.Queue.Engine.State.{QueueError, entropy_failed, CallEnv, Queue, broadcast}
use queuemaxxing.Queue.Engine.Operations.{pop_with, pop_ready, receive_round}
use queuemaxxing.Queue.Engine.Scheduler.{promote, expire, promote_due, expire_due, process_due}
use queuemaxxing.Queue.Clock.{Time, after}
use queuemaxxing.Queue.Counters.{SameBooks}

pub pop_with_books :
    (env : CallEnv) (visibility : ℤ) (r : String) (q : Queue)
    → SameBooks (pop_with env visibility r q).1 q
unfolding pop_with
pop_with_books env visibility r q = ground arith

promote_books : (q : Queue) (p : ℕ) → SameBooks (promote q p) q
unfolding promote
promote_books q p = record {
  log = refl;
  config = refl;
  next_seq = refl;
  enqueued = refl;
  acked = refl;
  threshold = refl;
}

expire_books : (q : Queue) (p : ℕ) → SameBooks (expire q p) q
unfolding expire
expire_books q p = record {
  log = refl;
  config = refl;
  next_seq = refl;
  enqueued = refl;
  acked = refl;
  threshold = refl;
}

pub SameBooks-refl : (q : Queue) → SameBooks q q
SameBooks-refl q = record {
  log = refl;
  config = refl;
  next_seq = refl;
  enqueued = refl;
  acked = refl;
  threshold = refl;
}

pub SameBooks-trans : (q r s : Queue) → SameBooks q r → SameBooks r s → SameBooks q s
SameBooks-trans q r s a b = record {
  log = a.log ∙ b.log;
  config = a.config ∙ b.config;
  next_seq = a.next_seq ∙ b.next_seq;
  enqueued = a.enqueued ∙ b.enqueued;
  acked = a.acked ∙ b.acked;
  threshold = a.threshold ∙ b.threshold;
}

-- one round of a loop of processDue: it stops, or it goes on from a queue with the same books
round_books :
    (q : Queue) (changed : Bool) (o : Option ℕ) (later : ℕ → Bool) (rest : ℕ → Queue × Bool)
    → ((p : ℕ) → SameBooks (rest p).0 q)
    → SameBooks
        (elim o as (λ _. Queue × Bool) [
          | none ↦ (q, changed)
          | some p ↦ elim (later p) as (λ _. Queue × Bool) [ true ↦ (q, changed) | false ↦ rest p ]
        ]).0
        q
round_books q changed none later rest h = SameBooks-refl q
round_books q changed (some p) later rest h = stops (later p)
  where
    stops :
        (b : Bool)
        → SameBooks (elim b as (λ _. Queue × Bool) [ true ↦ (q, changed) | false ↦ rest p ]).0 q
    stops true = SameBooks-refl q
    stops false = h p

module _ (now : Time) where
  promote_due_books :
      (fuel : ℕ) (q : Queue) (changed : Bool) → SameBooks (promote_due fuel now (q, changed)).0 q
  unfolding promote_due
  promote_due_books zero q changed = SameBooks-refl q
  promote_due_books (suc fuel) q changed =
      round_books q changed (peek q.delayed) (λ p. after (q.store p).available_at now)
        (λ p. promote_due fuel now (promote q p, true))
        (λ p.
          SameBooks-trans _ (promote q p) q (promote_due_books fuel (promote q p) true)
            (promote_books q p))

  expire_due_books :
      (fuel : ℕ) (q : Queue) (changed : Bool) → SameBooks (expire_due fuel now (q, changed)).0 q
  unfolding expire_due
  expire_due_books zero q changed = SameBooks-refl q
  expire_due_books (suc fuel) q changed =
      round_books q changed (peek q.expiry) (λ p. after (q.store p).deadline now)
        (λ p. expire_due fuel now (expire q p, true))
        (λ p.
          SameBooks-trans _ (expire q p) q (expire_due_books fuel (expire q p) true)
            (expire_books q p))

  signalled_books : (b : Bool) (q : Queue) → SameBooks (if b then broadcast q else q) q
  signalled_books true q = record {
    log = refl;
    config = refl;
    next_seq = refl;
    enqueued = refl;
    acked = refl;
    threshold = refl;
  }
  signalled_books false q = SameBooks-refl q

  pub process_due_books : (q : Queue) → SameBooks (process_due now q).1 q
  unfolding process_due
  process_due_books q =
      let first = promote_due (length q.delayed) now (q, false) in
      let second = expire_due (length first.0.expiry) now first in
      SameBooks-trans _ second.0 q (signalled_books second.1 second.0) (
        SameBooks-trans _ first.0 q (expire_due_books (length first.0.expiry) first.0 first.1)
          (promote_due_books (length q.delayed) q false))

module _ (env : CallEnv) (v : ℤ) (q : Queue) where
  popped_books :
      (o : Option String)
      → SameBooks
          (elim o as (λ _. Result QueueError (Option Delivery) × Queue) [
            | none ↦ (err entropy_failed, q)
            | some r ↦ (ok (some (pop_with env v r q).0), (pop_with env v r q).1)
          ]).1
          q
  popped_books none = SameBooks-refl q
  popped_books (some r) = pop_with_books env v r q

  pop_ready_books : SameBooks (pop_ready env v q).1 q
  unfolding pop_ready
  pop_ready_books = elim (Bool-cases (length q.ready == 0)) [
    | inl e ↦ simp e (SameBooks-refl q)
    | inr e ↦ simp e (popped_books env.token)
  ]

  pub receive_books : SameBooks (receive_round env v (pos 0) env.now false q).1 q
  unfolding receive_round
  receive_books = elim (Bool-cases q.closed) [
    | inl e ↦ simp e (SameBooks-refl q)
    | inr e ↦ simp e (ground (arith, pop_ready_books))
  ]
