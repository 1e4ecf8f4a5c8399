-- ===== src/Queue/Waiting/Lull.antt =====
-- What ends a wait is broadcast: the calls of internal/queue/queue.go and processDue of scheduler.go,
-- from the side of a Receive that sleeps on the condition variable.
use queuemaxxing.Base.{
  ℕ, zero, suc, ◌≡◌, refl, ap, ◌∙◌, sym, String, Bool, true, false, Bool-cases, inl, inr, Option,
  none, some, List, [], ℤ, pos, length, ◌==◌, Result, ok, err, if◌then◌else◌, arith,
}
use queuemaxxing.Queue.Clock.{Time}
use queuemaxxing.Queue.Message.{Delivery}
use queuemaxxing.Queue.Heap.{peek}
use queuemaxxing.Queue.Engine.State.{
  QueueError, entropy_failed, CallEnv, Queue, broadcast, pop_ready_heap, set_message, push_expiry,
  remove_expiry,
}
use queuemaxxing.Queue.Engine.Compact.{compact_locked}
use queuemaxxing.Queue.Engine.Operations.{
  schedule, settle, enqueue_booked, enqueue_appended, ack_found, nack_booked, nack_found, pop_with,
  pop_ready, receive_round, finish_close,
}
use queuemaxxing.Queue.Engine.Scheduler.{promote, expire, promote_due, expire_due, process_due}
use queuemaxxing.Queue.Engine.Calls.{
  Call, enqueue_call, ack_call, nack_call, receive_call, due_call, perform, errors_change_nothing,
}
use queuemaxxing.Queue.Places.Steps.{maybe_compact-keeps}
use queuemaxxing.Queue.Places.Calls.{receive_state, enqueue_done, ack_done, nack_done}
use queuemaxxing.Queue.Places.Wakeup.{loop_round}

-- Without a broadcast there is nothing to wake up for: no message is ready, and the queue is open.
abbrev pub Lull : Queue → Type 0
Lull q = q.signalled ≡ false → (q.ready ≡ []) × (q.closed ≡ false)

-- Behind a step that has not broadcast: neither had it been done before, nothing is ready that was
-- not, and the queue is closed only if it was.
abbrev pub Quiet : Queue → Queue → Type 0
Quiet q q' =
    q'.signalled ≡ false
    → (q.signalled ≡ false) × (q.ready ≡ [] → q'.ready ≡ []) × (q'.closed ≡ q.closed)

Quiet-refl : (q : Queue) → Quiet q q
Quiet-refl q quiet = (quiet, (λ e. e), refl)

settle-signalled :
    (env : CallEnv) (p : ℕ) (delay : ℤ) (q : Queue) → (settle env p delay q).signalled ≡ true
unfolding settle
settle-signalled env p delay q =
    maybe_compact-keeps (λ (x : Queue). x.signalled ≡ true) env (broadcast (schedule q p delay))
      refl (λ l. refl)

enqueue_appended-Quiet :
    (env : CallEnv) (body : List ℕ) (priority delay : ℤ) (id : String) (q : Queue)
    → Quiet q (enqueue_appended env body priority delay id q)
unfolding enqueue_appended
enqueue_appended-Quiet env body priority delay id q quiet = absurd (
    ground (
      arith,
      settle-signalled env q.next_address delay (enqueue_booked env body priority delay id q),
    ))

nack_found-Quiet :
    (env : CallEnv) (r : String) (p : ℕ) (delay : ℤ) (q : Queue)
    → Quiet q (nack_found env r p delay q)
unfolding nack_found
nack_found-Quiet env r p delay q quiet =
    absurd (ground (arith, settle-signalled env p delay (nack_booked env r p delay q)))

ack_found-Quiet : (env : CallEnv) (r : String) (p : ℕ) (q : Queue) → Quiet q (ack_found env r p q)
unfolding ack_found remove_expiry
ack_found-Quiet env r p q =
    maybe_compact-keeps (Quiet q) env _ (λ quiet. (quiet, (λ e. e), refl))
      (λ l quiet. (quiet, (λ e. e), refl))

pop_with-signalled :
    (env : CallEnv) (visibility : ℤ) (r : String) (q : Queue)
    → (pop_with env visibility r q).1.signalled ≡ q.signalled
unfolding pop_with pop_ready_heap set_message push_expiry
pop_with-signalled env visibility r q = ground arith

pop_with-closed :
    (env : CallEnv) (visibility : ℤ) (r : String) (q : Queue)
    → (pop_with env visibility r q).1.closed ≡ q.closed
unfolding pop_with pop_ready_heap set_message push_expiry
pop_with-closed env visibility r q = ground arith

module _ (env : CallEnv) (visibility : ℤ) (q : Queue) where
  popped-Quiet :
      (length q.ready == 0) ≡ false
      → (o : Option String)
      → Quiet q
          (elim o as (λ _. Result QueueError (Option Delivery) × Queue) [
            | none ↦ (err entropy_failed, q)
            | some r ↦ (ok (some (pop_with env visibility r q).0), (pop_with env visibility r q).1)
          ]).1
  popped-Quiet busy none quiet = Quiet-refl q quiet
  popped-Quiet busy (some r) quiet = (
    sym (pop_with-signalled env visibility r q) ∙ quiet,
    (λ e. absurd (ground (arith, ap (λ (l : List ℕ). length l) e))),
    pop_with-closed env visibility r q,
  )

  pop_ready-Quiet : Quiet q (pop_ready env visibility q).1
  unfolding pop_ready
  pop_ready-Quiet = elim (Bool-cases (length q.ready == 0)) [
    | inl e ↦ simp e (Quiet-refl q)
    | inr e ↦ simp e (popped-Quiet e env.token)
  ]

  pub receive_round-Quiet :
      (wait : ℤ) (deadline : Time) (ctx_done : Bool)
      → Quiet q (receive_round env visibility wait deadline ctx_done q).1
  receive_round-Quiet wait deadline ctx_done =
      rw (receive_state env visibility q wait deadline ctx_done) (opened q.closed)
    where
      opened : (b : Bool) → Quiet q (if b then q else (pop_ready env visibility q).1)
      opened true = Quiet-refl q
      opened false = pop_ready-Quiet

-- a loop that changed nothing
abbrev Unchanged : Queue → Bool → Queue × Bool → Type 0
Unchanged q b r = r.1 ≡ false → (r.0 ≡ q) × (b ≡ false)

promote_due-Unchanged :
    (fuel : ℕ) (now : Time) (q : Queue) (b : Bool) → Unchanged q b (promote_due fuel now (q, b))
unfolding promote_due
promote_due-Unchanged zero now q b = λ h. (refl, h)
promote_due-Unchanged (suc fuel) now q b =
    loop_round now (Unchanged q b) q.delayed (λ p. (q.store p).available_at) (q, b)
      (λ p. promote_due fuel now (promote q p, true)) (λ e h. (refl, h)) (λ p e late h. (refl, h))
      (λ p e h.
        let done = promote_due-Unchanged fuel now (promote q p) true h in
        absurd (ground (arith, done.1)))
      (peek q.delayed) refl

expire_due-Unchanged :
    (fuel : ℕ) (now : Time) (q : Queue) (b : Bool) → Unchanged q b (expire_due fuel now (q, b))
unfolding expire_due
expire_due-Unchanged zero now q b = λ h. (refl, h)
expire_due-Unchanged (suc fuel) now q b =
    loop_round now (Unchanged q b) q.expiry (λ p. (q.store p).deadline) (q, b)
      (λ p. expire_due fuel now (expire q p, true)) (λ e h. (refl, h)) (λ p e late h. (refl, h))
      (λ p e h.
        let done = expire_due-Unchanged fuel now (expire q p) true h in
        absurd (ground (arith, done.1)))
      (peek q.expiry) refl

process_due-Quiet : (now : Time) (q : Queue) → Quiet q (process_due now q).1
unfolding process_due
process_due-Quiet now q =
    let first = promote_due (length q.delayed) now (q, false) in
    let second = expire_due (length first.0.expiry) now first in
    told second.1 second.0 (λ h.
      let e = expire_due-Unchanged (length first.0.expiry) now first.0 first.1 h in
      let p = promote_due-Unchanged (length q.delayed) now q false e.1 in e.0 ∙ p.0)
  where
    told : (b : Bool) (r : Queue) → (b ≡ false → r ≡ q) → Quiet q (if b then broadcast r else r)
    told true r same = λ quiet. cc
    told false r same = rw (same refl) (Quiet-refl q)

-- Every call, whatever fails in it, and every round of the scheduler broadcasts where it makes a
-- message ready of a queue that had none.
pub perform-Quiet : (env : CallEnv) (c : Call) (q : Queue) → Quiet q (perform env c q).1
perform-Quiet env c q = by_error (perform env c q).0 refl
  where
    done : (c : Call) → (perform env c q).0 ≡ none → Quiet q (perform env c q).1
    done (enqueue_call body priority delay) h =
        let (id, e) = enqueue_done env body priority delay q h in
        rw e (enqueue_appended-Quiet env body priority delay id q)
    done (ack_call r) h = let (p, found, e) = ack_done env r q h in rw e (ack_found-Quiet env r p q)
    done (nack_call r delay) h =
        let (p, found, e) = nack_done env r delay q h in rw e (nack_found-Quiet env r p delay q)
    done (receive_call visibility) h =
        unfold perform in receive_round-Quiet env visibility q (pos 0) env.now false
    done due_call h = unfold perform in process_due-Quiet env.now q

    by_error : (o : Option QueueError) → (perform env c q).0 ≡ o → Quiet q (perform env c q).1
    by_error none e = done c e
    by_error (some x) e = rw (errors_change_nothing env c q x e) (Quiet-refl q)

pub finish_close-Quiet : (env : CallEnv) (q : Queue) → Quiet q (finish_close env q)
unfolding compact_locked
finish_close-Quiet env q = λ quiet. (ground arith, (λ e. ground arith), ground arith)
