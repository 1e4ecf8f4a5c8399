-- ===== src/Queue/Places/Calls.antt =====
-- The places of messages through the calls of queue.go.
use queuemaxxing.Base.{
  ℕ, ◌<◌, ◌≡◌, refl, sym, ◌∙◌, String, Bool, true, false, Bool-cases, Option-cases, inl, inr,
  Option, none, some, List, ℤ, pos, length, ◌==◌, Result, ok, err, if◌then◌else◌, arith,
}
use queuemaxxing.Queue.Clock.{Time}
use queuemaxxing.Queue.Message.{Delivery}
use queuemaxxing.Queue.Engine.State.{QueueError, entropy_failed, CallEnv, Queue, lookup}
use queuemaxxing.Queue.Engine.Operations.{
  enqueue_message, enqueue_appended, ack_message, ack_found, nack_message, nack_found, pop_with,
  pop_ready, receive_round,
}
use queuemaxxing.Queue.Engine.Calls.{
  Call, enqueue_call, ack_call, nack_call, receive_call, due_call, perform, errors_change_nothing,
}
use queuemaxxing.Queue.Places.{IsValid}
use queuemaxxing.Queue.Places.Steps.{one, nothing, Moved}
use queuemaxxing.Queue.Places.Changes.{enqueue_appended-Moved, ack_found-Moved, nack_found-Moved}
use queuemaxxing.Queue.Places.Deliveries.{pop_with-Moved}
use queuemaxxing.Queue.Places.Due.{Moved-none}
use queuemaxxing.Queue.Places.Awake.{process_due-IsAwake}

-- The token that a call draws is no receipt that is in use.
abbrev pub IsFresh : CallEnv → Queue → Type 0
IsFresh env q = (r : String) → env.token ≡ some r → lookup r q.inflight ≡ none

module _ (env : CallEnv) (visibility : ℤ) (q : Queue) where
  pub receive_state :
      (wait : ℤ) (deadline : Time) (ctx_done : Bool)
      → (receive_round env visibility wait deadline ctx_done q).1
        ≡ (if q.closed then q else (pop_ready env visibility q).1)
  unfolding receive_round
  receive_state wait deadline ctx_done = ground arith

module _ (env : CallEnv) (visibility : ℤ) (q : Queue) (v : IsValid q) (fresh : IsFresh env q) where
  popped_token :
      0 < length q.ready
      → (o : Option String) → env.token ≡ o
      → Moved q
          (elim o as (λ _. Result QueueError (Option Delivery) × Queue) [
            | none ↦ (err entropy_failed, q)
            | some r ↦ (ok (some (pop_with env visibility r q).0), (pop_with env visibility r q).1)
          ]).1
          nothing
          nothing
  popped_token some_ready none e = Moved-none q v
  popped_token some_ready (some r) e = pop_with-Moved env visibility r q v some_ready (fresh r e)

  pop_ready-Moved : Moved q (pop_ready env visibility q).1 nothing nothing
  unfolding pop_ready
  pop_ready-Moved = elim (Bool-cases (length q.ready == 0)) [
    | inl e ↦ simp e (Moved-none q v)
    | inr e ↦ simp e (popped_token (ground arith) env.token refl)
  ]

  pub receive_round-Moved :
      (wait : ℤ) (deadline : Time) (ctx_done : Bool)
      → Moved q (receive_round env visibility wait deadline ctx_done q).1 nothing nothing
  receive_round-Moved wait deadline ctx_done =
      rw (receive_state env visibility q wait deadline ctx_done) (opened q.closed)
    where
      opened :
          (b : Bool) → Moved q (if b then q else (pop_ready env visibility q).1) nothing nothing
      opened true = Moved-none q v
      opened false = pop_ready-Moved

-- what a call that returned no error has added
abbrev pub added : Call → Queue → ℕ → ℕ
added (enqueue_call _ _ _) q = one q.next_address
added _ q = nothing

-- the message that an Ack removes
abbrev pub acked_at : Option ℕ → ℕ → ℕ
acked_at none = nothing
acked_at (some p) = one p

abbrev pub removed : Call → Queue → ℕ → ℕ
removed (ack_call r) q = acked_at (lookup r q.inflight)
removed _ q = nothing

-- What one call does to the places of all messages: an error nothing, an Enqueue adds one message, an
-- Ack removes the one that its receipt names, and all other calls move messages about.
abbrev pub Performed : Call → Queue → Option QueueError × Queue → Type 0
Performed c q (some e, q') = q' ≡ q
Performed c q (none, q') = Moved q q' (added c q) (removed c q)

pub enqueue_done :
    (env : CallEnv) (body : List ℕ) (priority delay : ℤ) (q : Queue)
    → (perform env (enqueue_call body priority delay) q).0 ≡ none
    → (id : String) × ((perform env (enqueue_call body priority delay) q).1
        ≡ enqueue_appended env body priority delay id q)
unfolding perform enqueue_message
enqueue_done env body priority delay q h = elim (Option-cases env.token) [
  | inl e ↦ absurd (ground arith)
  | inr (id, e) ↦ (id, ground arith)
]

pub ack_done :
    (env : CallEnv) (r : String) (q : Queue)
    → (perform env (ack_call r) q).0 ≡ none
    → (p : ℕ) × (lookup r q.inflight ≡ some p)
      × ((perform env (ack_call r) q).1 ≡ ack_found env r p q)
unfolding perform ack_message
ack_done env r q h = elim (Option-cases (lookup r q.inflight)) [
  | inl e ↦ absurd (ground arith)
  | inr (p, e) ↦ (p, e, ground arith)
]

pub nack_done :
    (env : CallEnv) (r : String) (delay : ℤ) (q : Queue)
    → (perform env (nack_call r delay) q).0 ≡ none
    → (p : ℕ) × (lookup r q.inflight ≡ some p)
      × ((perform env (nack_call r delay) q).1 ≡ nack_found env r p delay q)
unfolding perform nack_message
nack_done env r delay q h = elim (Option-cases (lookup r q.inflight)) [
  | inl e ↦ absurd (ground arith)
  | inr (p, e) ↦ (p, e, ground arith)
]

done-Moved :
    (env : CallEnv) (c : Call) (q : Queue)
    → IsValid q
    → IsFresh env q
    → (perform env c q).0 ≡ none
    → Moved q (perform env c q).1 (added c q) (removed c q)
done-Moved env (enqueue_call body priority delay) q v fresh h =
    let (id, e) = enqueue_done env body priority delay q h in
    rw e (enqueue_appended-Moved env q v body priority delay id)
done-Moved env (ack_call r) q v fresh h =
    let (p, found, e) = ack_done env r q h in rw (e, found) (ack_found-Moved env q v r p found)
done-Moved env (nack_call r delay) q v fresh h =
    let (p, found, e) = nack_done env r delay q h in rw e (nack_found-Moved env q v r p found delay)
done-Moved env (receive_call visibility) q v fresh h =
    unfold perform in receive_round-Moved env visibility q v fresh (pos 0) env.now false
done-Moved env due_call q v fresh h = unfold perform in (process_due-IsAwake env.now q v).0

-- From a queue in order, whatever call is made with whatever clock, append and compaction errors, and
-- a token that is no receipt in use: an error leaves the queue as it was. Otherwise the queue is in
-- order again, and Enqueue has added one message at the new address, Ack has removed the one that its
-- receipt names, and Nack, Receive and the scheduler's wakeup have lost and doubled none.
pub perform-Performed :
    (env : CallEnv) (c : Call) (q : Queue)
    → IsValid q
    → IsFresh env q
    → Performed c q (perform env c q)
perform-Performed env c q v fresh = by_error (perform env c q).0 (perform env c q).1 refl refl
  where
    by_error :
        (o : Option QueueError) (q' : Queue)
        → (perform env c q).0 ≡ o
        → (perform env c q).1 ≡ q'
        → Performed c q (o, q')
    by_error none q' e s = rw s at (done-Moved env c q v fresh e)
    by_error (some x) q' e s = sym s ∙ errors_change_nothing env c q x e
